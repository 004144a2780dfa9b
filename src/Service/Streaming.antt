-- ===== src/Service/Streaming.antt =====
-- The streams of telemetry of `register_gnmi_handlers`: `start_subscription`, for gNMI's Subscribe,
-- and the handler of PushSubscriptionUpdates, which packs a notification's leaves into lines.
-- `ParseFromString` and `SerializeToString` of the generated classes are parameters.
pub mod Packing
use grace_server.Base.{
  ℕ, ◌+◌, Bool, true, false, not, ◌&&◌, Option, none, some, List, [], ◌∷◌, ◌++◌, map, length, take,
  ltb, if◌then◌else◌, Bytes, codes, to_string,
}
use grace_server.Gnmi.{
  GnmiPath, Update, Notification, SubscribeResponse, update, sync_response, error, not_set,
}
use grace_server.Gnmi.Json.{typed_value_to_json}
use grace_server.Gnmi.Paths.{path_to_string}
use grace_server.Gnmi.SubHub.{add}
use grace_server.Service.{
  State, Client, Effect, print, complain, emit, format_ns_timestamp, stream_send, stream_finish,
}

-- `gnmi::SubscriptionList`: the paths, and whether the mode is STREAM.
pub record SubscriptionList : Type 0 where
  pub subscriptions : List GnmiPath
  pub streaming : Bool

pub record Codec : Type 0 where
  pub parse_subscribe_request : Bytes → Option SubscriptionList
  pub parse_subscribe_response : Bytes → Option SubscribeResponse
  pub subscribe_response : SubscribeResponse → Bytes
  -- `std::to_string` of a double, and the text of a time in seconds.
  pub show_double : ℕ → Bytes
  pub date_text : ℕ → Bytes

abbrev mode_text : Bool → Bytes
mode_text true = codes "STREAM"
mode_text false = codes "ONCE/POLL"

unfoldable pub start_subscription : Codec → State → Client → ℕ → Bytes → State × List Effect
unfolding add
start_subscription c st me stream_id request_pb = elim (c.parse_subscribe_request request_pb) [
  | none ↦ (st, stream_finish me.grpc stream_id 3 ∷ [])
  | some sl ↦
      let paths = map path_to_string sl.subscriptions in
      let line =
        codes "[Subscribe] stream="
        ++ to_string stream_id
        ++ codes " paths="
        ++ to_string (length paths)
        ++ codes " mode="
        ++ mode_text sl.streaming in
      let sync = c.subscribe_response (sync_response true) in
      if sl.streaming
      then (
        record st { subs = add st.subs me.this me.grpc stream_id paths },
        print line ∷ stream_send me.grpc stream_id sync ∷ [],
      )
      else (
        st,
        print line ∷ stream_send me.grpc stream_id sync ∷ stream_finish me.grpc stream_id 0 ∷ [],
      )
]

-- "── sync ──", in UTF-8.
abbrev pub sync_line : Bytes
sync_line =
    0xE2 ∷ 0x94 ∷ 0x80 ∷ 0xE2 ∷ 0x94 ∷ 0x80 ∷ codes " sync "
    ++ 0xE2 ∷ 0x94 ∷ 0x80 ∷ 0xE2 ∷ 0x94 ∷ 0x80 ∷ []

-- `kWidth` and `kValMax`.
abbrev pub width : ℕ
width = 118

abbrev pub val_max : ℕ
val_max = 28

abbrev pub indent : Bytes
indent = codes "    "

-- The line at hand is full for a token.
abbrev pub overflows : Bytes → Bytes → Bool
overflows line tok = ltb 4 (length line) && ltb width (length line + length tok + 2)

-- The lines put out by `pack` on each token in turn, and the last one, if it holds a token.
unfoldable pub pack_all : Bytes → List Bytes → List Bytes
pack_all line [] = if ltb 4 (length line) then line ∷ [] else []
pack_all line (tok ∷ toks) =
    if overflows line tok
    then line ∷ pack_all (indent ++ (tok ++ codes "  ")) toks
    else pack_all (line ++ (tok ++ codes "  ")) toks

unfoldable pub truncated : Bytes → Bytes
truncated v = if ltb val_max (length v) then take val_max v ++ codes ".." else v

unfoldable pub update_token : (ℕ → Bytes) → Update → Bytes
unfolding truncated
update_token show_double u =
    path_to_string u.path ++ codes "=" ++ truncated (typed_value_to_json show_double u.val)

abbrev pub delete_token : GnmiPath → Bytes
delete_token d = b'-' ∷ path_to_string d

unfoldable pub tokens : (ℕ → Bytes) → Notification → List Bytes
unfolding update_token
tokens show_double n = map (update_token show_double) n.updates ++ map delete_token n.deletes

-- `out`, on each line.
unfoldable pub out_all : List ℕ → List Bytes → List Effect
unfolding emit
out_all sinks [] = []
out_all sinks (s ∷ ss) = print s ∷ emit sinks s ++ out_all sinks ss

unfoldable pub header_line : Codec → ℕ → Notification → Bytes
unfolding format_ns_timestamp
header_line c sid n =
    codes "[PushSub] s"
    ++ to_string sid
    ++ codes " "
    ++ format_ns_timestamp c.date_text n.timestamp
    ++ codes " "
    ++ path_to_string n.prefix
    ++ codes "  "
    ++ to_string (length n.updates)
    ++ codes "u "
    ++ to_string (length n.deletes)
    ++ codes "d"

-- The response that a pushed message holds.
unfoldable pub show_push : Codec → List ℕ → ℕ → SubscribeResponse → List Effect
unfolding emit out_all header_line pack_all tokens
show_push c sinks sid (sync_response b) = emit sinks sync_line
show_push c sinks sid (error m) = []
show_push c sinks sid not_set = []
show_push c sinks sid (update n) =
    out_all sinks (header_line c sid n ∷ pack_all indent (tokens c.show_double n))

unfoldable pub push_subscription_updates : Codec → State → ℕ → Bytes → List Effect
unfolding show_push
push_subscription_updates c st sid msg_pb = elim (c.parse_subscribe_response msg_pb) [
  | none ↦
      complain (
        codes "[PushSub] stream="
        ++ to_string sid
        ++ codes " parse failed ("
        ++ to_string (length msg_pb)
        ++ codes " bytes)")
      ∷ []
  | some resp ↦ show_push c st.sinks sid resp
]
