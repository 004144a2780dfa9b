-- ===== src/Gnmi/Command/Render.antt =====
-- What app/peer/src/gnmi_cmd.cpp shows of the answers. `ParseFromString` of the generated classes
-- is a parameter.
use grace_server.Base.{
  ℕ, ◌+◌, Bool, false, Option, none, some, List, [], ◌∷◌, ◌++◌, map, length, ltb, ◌==◌,
  if◌then◌else◌, Bytes, codes, is_empty, to_string,
}
use grace_server.Gnmi.{
  ℤ, pos, negsuc, Notification, SubscribeResponse, update, Operation, op_update, op_replace,
  op_delete, op_invalid, UpdateResult, Response,
}
use grace_server.Gnmi.Json.{show_int, update_to_json, subscribe_response_to_json}
use grace_server.Gnmi.Paths.{path_to_string}

unfoldable pub op_name : Operation → Bytes
op_name op_update = codes "UPDATE"
op_name op_replace = codes "REPLACE"
op_name op_delete = codes "DELETE"
op_name op_invalid = codes "OP"

-- " msg=...", unless the message is empty.
abbrev msg_text : Bytes → Bytes
msg_text m = if is_empty m then [] else codes " msg=" ++ m

abbrev result_line : UpdateResult → Bytes
result_line ur = codes "  " ++ op_name ur.op ++ codes " " ++ path_to_string ur.path

abbrev error_line : Bytes → Response → Bytes
error_line tag r =
    tag ++ codes " error status=" ++ show_int r.grpc_status ++ msg_text r.grpc_message

unfoldable pub set_lines : Option (List UpdateResult) → List Bytes
unfolding op_name
set_lines none = codes "[set] OK (response parse failed)" ∷ []
set_lines (some results) =
    (codes "[set] OK, " ++ to_string (length results) ++ codes " result(s)")
    ∷ map result_line results

unfoldable pub render_set_resp : (Bytes → Option (List UpdateResult)) → Response → List Bytes
unfolding set_lines
render_set_resp parse r = elim (r.grpc_status) [
  | negsuc n ↦ (codes "[set] transport error: " ++ r.grpc_message) ∷ []
  | pos n ↦ if n == 0 then set_lines (parse r.body_pb) else error_line (codes "[set]") r ∷ []
]

-- The leaves of all notifications.
unfoldable pub leaf_lines : (ℕ → Bytes) → List Notification → List Bytes
leaf_lines show_double [] = []
leaf_lines show_double (n ∷ ns) =
    map (λ u. codes "  " ++ update_to_json show_double u) n.updates ++ leaf_lines show_double ns

unfoldable pub get_lines : (ℕ → Bytes) → Option (List Notification) → List Bytes
unfolding leaf_lines
get_lines show_double none = codes "[get] OK (response parse failed)" ∷ []
get_lines show_double (some ns) =
    (codes "[get] OK, " ++ to_string (length ns) ++ codes " notification(s)")
    ∷ leaf_lines show_double ns

unfoldable pub render_get_resp :
    (ℕ → Bytes) → (Bytes → Option (List Notification)) → Response → List Bytes
unfolding get_lines
render_get_resp show_double parse r = elim (r.grpc_status) [
  | negsuc n ↦ (codes "[get] transport error: " ++ r.grpc_message) ∷ []
  | pos n ↦
      if n == 0 then get_lines show_double (parse r.body_pb) else error_line (codes "[get]") r ∷ []
]

abbrev del_text : Notification → Bytes
del_text notif =
    if ltb 0 (length notif.deletes) then codes ", del:" ++ to_string (length notif.deletes) else []

-- One message of a subscription: the count of notifications behind it, and the line.
unfoldable pub shown_response : (ℕ → Bytes) → ℕ → SubscribeResponse → ℕ × Bytes
shown_response show_double count (update notif) = (
  count + 1,
  codes "[notif #"
      ++ to_string (count + 1)
      ++ codes ", updates:"
      ++ to_string (length notif.updates)
      ++ del_text notif
      ++ codes "]"
      ++ codes " "
      ++ subscribe_response_to_json show_double (update notif),
)
shown_response show_double count r =
    (count, codes "[sub]" ++ codes " " ++ subscribe_response_to_json show_double r)

unfoldable pub on_notification :
    (ℕ → Bytes) → (Bytes → Option SubscribeResponse) → ℕ → Bytes → ℕ × Bytes
unfolding shown_response
on_notification show_double parse count resp_pb = elim (parse resp_pb) [
  | none ↦ (count, codes "[sub] (unparsable response)")
  | some r ↦ shown_response show_double count r
]

abbrev is_positive : ℤ → Bool
is_positive (negsuc n) = false
is_positive (pos n) = ltb 0 n

-- "[sub] stream ended — ...", in UTF-8.
unfoldable pub on_stream_end : ℕ → Response → Bytes
on_stream_end count r =
    codes "[sub] stream ended "
    ++ 0xE2 ∷ 0x80 ∷ 0x94 ∷ codes " "
    ++ to_string count
    ++ codes " notification(s)"
    ++ (if is_positive r.grpc_status
        then codes ", status=" ++ show_int r.grpc_status ++ msg_text r.grpc_message
        else [])
