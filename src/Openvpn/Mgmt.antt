-- ===== src/Openvpn/Mgmt.antt =====
-- app/openvpn/src/openvpn_server.cpp: `mgmt_io` and the clients' lifecycle. A set of addresses is a
-- list without repetition, whose order stands for the iteration order. MQTT is a list of effects.
pub mod Tracking
pub mod Reading
pub mod Tables
use grace_server.Base.{
  ℕ, Bool, true, false, not, ◌&&◌, ◌||◌, Option, none, some, List, [], ◌∷◌, ◌++◌, drop,
  if◌then◌else◌, Bytes, codes, is_empty, equal, split_at, starts_with, ◌==◌,
}
use grace_server.Base.Dict.{remove_if}
use grace_server.Wire.Stream.{drain_all}
use grace_server.Openvpn.Parse.{parse_routing_row}
use grace_server.Gnmi.{Response}
use grace_server.Openvpn.Forward.{read_request, response_payload}

-- `m_in_routing_table`, `m_polled_vips`, `m_active_vips`, the keys of `m_peers`, and
-- whether MQTT is enabled and the publisher of events is there.
pub record State : Type 0 where
  pub in_table : Bool
  pub polled : List Bytes
  pub active : List Bytes
  pub peers : List Bytes
  pub mqtt : Bool
  pub event_mqtt : Bool

-- With `m_mgmt_buf`.
pub record Reader : Type 0 where
  pub buf : Bytes
  pub clients : State

pub data Effect : Type 0 where
  mqtt_connect mqtt_subscribe : Bytes → Effect
  publish : Bytes → Bytes → Bool → Effect
  push_async : Bytes → Bytes → Bytes → Effect
  log : Bytes → Effect

-- `set.count(v)`.
unfoldable pub member : Bytes → List Bytes → Bool
member v [] = false
member v (x ∷ xs) = equal x v || member v xs

-- `set.insert(v)`.
unfoldable pub set_add : Bytes → List Bytes → List Bytes
unfolding member
set_add v xs = if member v xs then xs else xs ++ v ∷ []

-- `set.erase(v)`.
unfoldable pub set_remove : Bytes → List Bytes → List Bytes
set_remove v xs = remove_if (λ x. equal x v) xs

-- The event is a retained message on clients/<vip>, "connected" or empty.
unfoldable pub publish_event : State → Bytes → Bytes → List Effect
publish_event s vip payload =
    if s.event_mqtt then publish (codes "clients/" ++ vip) payload true ∷ [] else []

unfoldable pub on_client_connect : State → Bytes → State × List Effect
unfolding set_add publish_event
on_client_connect s vip = if not s.mqtt || member vip s.peers then (s, []) else (
  record s { peers = set_add vip s.peers },
  mqtt_connect (codes "ovpn-srv-peer-" ++ vip)
      ∷ mqtt_subscribe (codes "fwd/" ++ vip)
      ∷ publish_event s vip (codes "connected"),
)

unfoldable pub on_client_disconnect : State → Bytes → State × List Effect
unfolding set_remove publish_event
on_client_disconnect s vip = (record s { peers = set_remove vip s.peers }, publish_event s vip [])

-- The bodies of the two loops at the end of a table, and the loops.
unfoldable pub connect_if_new : State → Bytes → State × List Effect
unfolding on_client_connect
connect_if_new s vip = if not (member vip s.active) then on_client_connect s vip else (s, [])

unfoldable pub disconnect_if_gone : State → Bytes → State × List Effect
unfolding on_client_disconnect
disconnect_if_gone s vip = if not (member vip s.polled) then on_client_disconnect s vip else (s, [])

unfoldable pub connect_new : State → List Bytes → State × List Effect
unfolding connect_if_new
connect_new s [] = (s, [])
connect_new s (vip ∷ vips) =
    let r = connect_if_new s vip in let rest = connect_new r.0 vips in (rest.0, r.1 ++ rest.1)

unfoldable pub disconnect_gone : State → List Bytes → State × List Effect
unfolding disconnect_if_gone
disconnect_gone s [] = (s, [])
disconnect_gone s (vip ∷ vips) =
    let r = disconnect_if_gone s vip in
    let rest = disconnect_gone r.0 vips in (rest.0, r.1 ++ rest.1)

-- "GLOBAL STATS" or "END" while in the table.
unfoldable pub end_table : State → State × List Effect
unfolding connect_new disconnect_gone
end_table s =
    let c = connect_new (record s { in_table = false }) s.polled in
    let d = disconnect_gone c.0 s.active in (record (d.0) { active = s.polled }, c.1 ++ d.1)

-- A row adds its address.
unfoldable pub take_row : State → Bytes → State
unfolding set_add
take_row s line =
    let vip = parse_routing_row line in
    if is_empty vip then s else record s { polled = set_add vip s.polled }

unfoldable pub parse_mgmt_line : State → Bytes → State × List Effect
unfolding end_table take_row
parse_mgmt_line s line =
    if starts_with line (codes ">LOG:")
    then (s, log line ∷ [])
    else if equal line (codes "ROUTING TABLE")
    then (record s { in_table = true; polled = [] }, [])
    else if equal line (codes "GLOBAL STATS") || equal line (codes "END")
    then (if s.in_table then end_table s else (s, []))
    else if s.in_table
    then (take_row s line, [])
    else (s, [])

-- `if (!line.empty() && line.back() == '\r') line.pop_back()`.
unfoldable pub chomp : Bytes → Bytes
chomp [] = []
chomp (x ∷ []) = if x == 13 then [] else x ∷ []
chomp (x ∷ y ∷ ys) = x ∷ chomp (y ∷ ys)

unfoldable pub parse_line : State → Bytes → State × List Effect
unfolding chomp parse_mgmt_line
parse_line s line = if is_empty (chomp line) then (s, []) else parse_mgmt_line s (chomp line)

unfoldable pub parse_lines : State → List Bytes → State × List Effect
unfolding parse_line
parse_lines s [] = (s, [])
parse_lines s (l ∷ ls) =
    let r = parse_line s l in let rest = parse_lines r.0 ls in (rest.0, r.1 ++ rest.1)

-- The line up to the next newline.
unfoldable pub next_line : Bytes → Option (Bytes × Bytes)
next_line buf = split_at 10 buf

-- `mgmt_io::handle_read`. What a line does leaves the buffer alone, so all lines are cut off first.
unfoldable pub handle_read : Reader → Bytes → Bool → Reader × List Effect
unfolding next_line parse_lines
handle_read m bytes dry_run =
    if dry_run
    then (m, [])
    else let r = drain_all next_line (m.buf ++ bytes) in
      let done = parse_lines m.clients r.0 in (record { buf = r.1; clients = done.0 }, done.1)

unfoldable pub forward_request : Bytes → Option (Bytes × Bytes) → List Effect
forward_request vip none = []
forward_request vip (some (rpc_path, proto_bytes)) = push_async vip rpc_path proto_bytes ∷ []

-- `on_mqtt_message`; the topic is "fwd/<vip>".
unfoldable pub on_mqtt_message : State → Bytes → Bytes → List Effect
unfolding member forward_request
on_mqtt_message s topic payload =
    let vip = drop 4 topic in
    if is_empty vip || not (member vip s.peers)
    then []
    else forward_request vip (read_request payload)

-- The callback of `push_async`, for a client that is still there.
unfoldable pub on_response : State → Bytes → Bytes → Response → List Effect
unfolding member
on_response s vip rpc_path r =
    if member vip s.peers
    then publish (codes "resp/" ++ vip) (response_payload rpc_path r) false ∷ []
    else []
