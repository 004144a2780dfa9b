-- ===== src/Service/Devices.antt =====
-- DialTcc.Subscribe of `register_gnmi_handlers`: a managed device's stream of responses. The
-- generated classes' `ParseFromString`, `SerializeToString`, `PackFrom`, `Is` and `UnpackTo` are
-- parameters; a response holds what its `Any` unpacks to.
use grace_server.Base.{
  ℕ, ◌-◌, Bool, true, false, not, ◌&&◌, Option, none, some, List, [], ◌∷◌, ◌++◌, map, length, drop,
  take, leb, ltb, ◌==◌, if◌then◌else◌, Bytes, codes, equal, is_empty, to_string,
}
use grace_server.Gnmi.{GnmiPath, Update, Notification, SubscribeResponse, update}
use grace_server.Gnmi.Json.{show_int, typed_value_to_json, subscribe_response_to_json}
use grace_server.Gnmi.Paths.{parse_yang_path, path_to_string}
use grace_server.Gnmi.{ℤ}
use grace_server.MgmtHub.{add_session, note_device, set_identity, command_for, next_notif}
use grace_server.Service.{State, Client, Effect, stream_send, tunnel_log, tunnel_log_all}

-- `tnmi::DeviceResponse::CliResponse`.
pub record CliResponse : Type 0 where
  pub exit_code : ℤ
  pub timeout : Bool
  pub truncated : Bool
  pub duration_ms : ℤ
  pub stdout_op : Bytes
  pub stderr_op : Bytes

-- The message in the `Any`: a command's output, a `GetResponse`'s notifications, a
-- `SubscribeResponse`, the number of a `SetResponse`'s results, or another type by its URL, which
-- is empty if there is no message.
pub data Payload : Type 0 where
  cli_response : CliResponse → Payload
  get_response : List Notification → Payload
  subscribe_response : SubscribeResponse → Payload
  set_response : ℕ → Payload
  other_type : Bytes → Payload

-- `tnmi::DeviceResponse`.
pub record DeviceResponse : Type 0 where
  pub rpc_id : Bytes
  pub device_id : Bytes
  pub fake : Bool
  pub response : Payload

pub record Codec : Type 0 where
  pub parse_device_response : Bytes → Option DeviceResponse
  -- A `DeviceRequest` of an rpc id that holds a `GetRequest` of one path, encoding JSON.
  pub get_request : Bytes → GnmiPath → Bytes
  -- `std::to_string` of a double.
  pub show_double : ℕ → Bytes

abbrev pub probe_id : Bytes
probe_id = codes "__mgmt_probe__"

unfoldable pub on_open : Codec → State → Client → ℕ → ℕ → State × List Effect
unfolding add_session tunnel_log
on_open c st me sid now =
    let r = add_session st.mgmt me.grpc sid now in
    (
      record st { mgmt = r.0 },
      tunnel_log st (
            codes "[mgmt] session #"
            ++ to_string r.1
            ++ codes " opened (stream="
            ++ to_string sid
            ++ codes ")")
          ++ stream_send me.grpc sid
              (c.get_request probe_id (parse_yang_path (codes "/system/state")))
            ∷ [],
    )

abbrev pub last_is_quote : Bytes → Bool
last_is_quote [] = false
last_is_quote (x ∷ []) = x == b'"'
last_is_quote (x ∷ y ∷ ys) = last_is_quote (y ∷ ys)

abbrev pub first_is_quote : Bytes → Bool
first_is_quote [] = false
first_is_quote (x ∷ xs) = x == b'"'

-- `unq`.
unfoldable pub unquoted : Bytes → Bytes
unquoted v =
    if leb 2 (length v) && first_is_quote v && last_is_quote v
    then take (length v - 2) (drop 1 v)
    else v

-- `ends`.
unfoldable pub ends_with : Bytes → Bytes → Bool
ends_with p s = leb (length s) (length p) && equal (drop (length p - length s) p) s

-- The host name and the role, behind one update of a notification.
unfoldable pub identity_update : (ℕ → Bytes) → Bytes → Bytes × Bytes → Update → Bytes × Bytes
unfolding unquoted ends_with
identity_update show_double prefix (hostname, role) u =
    let p = prefix ++ path_to_string u.path in
    if ends_with p (codes "hostname")
    then (unquoted (typed_value_to_json show_double u.val), role)
    else if ends_with p (codes "role")
    then (hostname, unquoted (typed_value_to_json show_double u.val))
    else (hostname, role)

unfoldable pub identity_updates : (ℕ → Bytes) → Bytes → Bytes × Bytes → List Update → Bytes × Bytes
unfolding identity_update
identity_updates show_double prefix who [] = who
identity_updates show_double prefix who (u ∷ us) =
    identity_updates show_double prefix (identity_update show_double prefix who u) us

unfoldable pub identity_all : (ℕ → Bytes) → Bytes × Bytes → List Notification → Bytes × Bytes
unfolding identity_updates
identity_all show_double who [] = who
identity_all show_double who (n ∷ ns) =
    identity_all show_double (identity_updates show_double (path_to_string n.prefix) who n.updates)
      ns

unfoldable pub identity_of : (ℕ → Bytes) → Payload → Bytes × Bytes
unfolding identity_all
identity_of show_double (get_response ns) = identity_all show_double ([], []) ns
identity_of show_double _ = ([], [])

-- `who`.
unfoldable pub shown_name : Bytes → Bytes → Bytes → Bytes
shown_name hostname role device_id =
    if not (is_empty role) && not (is_empty hostname)
    then role ++ codes "(" ++ hostname ++ codes ")"
    else if not (is_empty hostname)
    then hostname
    else if not (is_empty role)
    then role
    else if is_empty device_id
    then codes "device"
    else device_id

-- "▸ who connected" and "  ·  device ...", in UTF-8.
unfoldable pub banner : Bytes → Bytes → Bytes → Bytes
unfolding shown_name
banner hostname role device_id =
    0xE2 ∷ 0x96 ∷ 0xB8 ∷ codes " "
    ++ shown_name hostname role device_id
    ++ codes " connected"
    ++ (if is_empty device_id
        then []
        else codes "  " ++ 0xC2 ∷ 0xB7 ∷ codes "  device " ++ device_id)

abbrev labelled : Bytes → Bytes → Bytes
labelled label text = if is_empty text then [] else label ++ text

unfoldable pub reply_header : Bytes → DeviceResponse → Bytes
reply_header cmd resp =
    codes "[mgmt] "
    ++ (if is_empty cmd then codes "push" else codes "reply '" ++ cmd ++ codes "'")
    ++ labelled (codes "  rpc=") resp.rpc_id
    ++ labelled (codes "  dev=") resp.device_id

abbrev when : Bool → Bytes → Bytes
when true text = text
when false text = []

abbrev when_any : Bytes → Bytes → List Bytes
when_any text line = if is_empty text then [] else line ∷ []

unfoldable pub cli_lines : CliResponse → List Bytes
cli_lines cli =
    (codes "    exit="
        ++ show_int cli.exit_code
        ++ when cli.timeout (codes " (timeout)")
        ++ when cli.truncated (codes " (truncated)")
        ++ codes "  "
        ++ show_int cli.duration_ms
        ++ codes "ms")
      ∷ when_any cli.stdout_op cli.stdout_op
    ++ when_any cli.stderr_op (codes "[stderr] " ++ cli.stderr_op)

unfoldable pub get_lines : (ℕ → Bytes) → List Notification → List Bytes
get_lines show_double [] = []
get_lines show_double (n ∷ ns) = map line n.updates ++ get_lines show_double ns
  where
    line : Update → Bytes
    line u =
        codes "    "
        ++ path_to_string n.prefix
        ++ path_to_string u.path
        ++ codes " = "
        ++ typed_value_to_json show_double u.val

unfoldable pub notif_tag : ℕ → Notification → Bytes
notif_tag n notif =
    codes "    [notif #"
    ++ to_string n
    ++ codes ", updates:"
    ++ to_string (length notif.updates)
    ++ when (ltb 0 (length notif.deletes)) (codes ", del:" ++ to_string (length notif.deletes))
    ++ codes "] "

-- The lines behind the header, and the hub: a notification of a stream is counted.
unfoldable pub render : Codec → State → Bytes → Payload → State × List Bytes
unfolding next_notif cli_lines get_lines notif_tag
render c st rpc_id (cli_response cli) = (st, cli_lines cli)
render c st rpc_id (get_response ns) = (st, get_lines c.show_double ns)
render c st rpc_id (subscribe_response (update notif)) =
    let r = next_notif st.mgmt rpc_id in
    (
      record st { mgmt = r.0 },
      (notif_tag r.1 notif ++ subscribe_response_to_json c.show_double (update notif)) ∷ [],
    )
render c st rpc_id (subscribe_response sr) =
    (st, (codes "    " ++ subscribe_response_to_json c.show_double sr) ∷ [])
render c st rpc_id (set_response n) =
    (st, (codes "    set OK, " ++ to_string n ++ codes " result(s)") ∷ [])
render c st rpc_id (other_type url) = (st, when_any url (codes "    response: " ++ url))

unfoldable pub on_message : Codec → State → Client → ℕ → Bytes → State × List Effect
unfolding note_device identity_of set_identity command_for tunnel_log tunnel_log_all banner
    reply_header render
on_message c st me sid msg_pb = elim (c.parse_device_response msg_pb) [
  | none ↦ (
    st,
    tunnel_log st (
        codes "[mgmt] unparsable DeviceResponse (" ++ to_string (length msg_pb) ++ codes " bytes)"),
  )
  | some resp ↦
      let noted = record st { mgmt = note_device st.mgmt me.grpc sid resp.device_id } in
      let who = identity_of c.show_double resp.response in
      let shown = render c noted resp.rpc_id resp.response in
      if resp.fake
      then (st, [])
      else if equal resp.rpc_id probe_id
      then (
        record noted { mgmt = set_identity noted.mgmt me.grpc sid who.0 who.1 },
        tunnel_log st (banner who.0 who.1 resp.device_id),
      )
      else (
        shown.0,
        tunnel_log_all st (reply_header (command_for noted.mgmt resp.rpc_id) resp ∷ shown.1),
      )
]
