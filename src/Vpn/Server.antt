-- ===== src/Vpn/Server.antt =====
-- app/openvpn/src/vpn_server.cpp and vpn_peer.cpp: connections, their peers, and the packets that
-- arrive on the server's TUN device. A channel is a number. Routes, MQTT and the socket are effects;
-- a socket write is the bytes handed to `tx`.
pub mod Peers
pub mod Forwarding
use grace_server.Base.{
  ℕ, ◌+◌, Bool, true, false, not, ◌&&◌, ◌||◌, Option, none, some, List, [], ◌∷◌, ◌++◌, map, length,
  take, drop, ltb, ◌==◌, if◌then◌else◌, Bytes, codes, is_empty,
}
use grace_server.Base.Dict.{Dict, lookup, insert, erase, is_some}
use grace_server.Base.Keys.{num_key}
use grace_server.Vpn.Frame.{
  Frame, encode_frame, receive, type_ip_assign, type_data, type_disconnect,
}
use grace_server.Vpn.Pool.{Pool, Inet, assign, get, release, find_channel}
use grace_server.Wire.BigEndian.{ntohl}

-- `vpn_peer`.
pub record Peer : Type 0 where
  pub assigned_ip : Bytes
  pub netmask : Bytes
  pub recv_buf : Bytes
  pub gnmi_port : ℕ
  pub mqtt : Bool

-- `mqtt_sub_cfg`, less the broker's host and port.
pub record MqttCfg : Type 0 where
  pub enabled : Bool
  pub gnmi_port : ℕ

pub record Server : Type 0 where
  pub pool : Pool
  pub netmask : Bytes
  pub mqtt_cfg : MqttCfg
  pub tun_up : Bool
  pub peers : Dict ℕ Peer

pub data Effect : Type 0 where
  tx : ℕ → Bytes → Effect
  mqtt_connect : Bytes → Effect
  mqtt_subscribe : Bytes → Effect
  route_add route_del : Bytes → Effect
  log_data log_unknown : ℕ → Effect
  log_disconnect : Effect

-- `send_ip_assign`: the payload is the address and the netmask.
unfoldable pub ip_assign_payload : Bytes → Bytes → Bytes
ip_assign_payload ip netmask = ip ++ b' ' ∷ netmask

-- `setup_mqtt`.
unfoldable pub setup_mqtt : Peer → MqttCfg → Peer × List Effect
setup_mqtt p cfg = if not cfg.enabled then (p, []) else (
  record p { gnmi_port = cfg.gnmi_port; mqtt = true },
  mqtt_connect (codes "vpn-peer-" ++ p.assigned_ip)
      ∷ mqtt_subscribe (codes "fwd/" ++ p.assigned_ip)
      ∷ [],
)

-- The constructor of a peer.
unfoldable pub vpn_peer : ℕ → Bytes → Bytes → MqttCfg → Peer × List Effect
unfolding setup_mqtt ip_assign_payload
vpn_peer channel ip netmask cfg =
    let p : Peer = record {
      assigned_ip = ip;
      netmask = netmask;
      recv_buf = [];
      gnmi_port = 58989;
      mqtt = false;
    } in
    let r = setup_mqtt p cfg in
    (r.0, tx channel (encode_frame type_ip_assign (ip_assign_payload ip netmask)) ∷ r.1)

-- `manage_client_route`.
unfoldable pub manage_client_route : Server → Bytes → Bool → List Effect
manage_client_route s ip add =
    if not s.tun_up then [] else (if add then route_add ip else route_del ip) ∷ []

-- `std::unordered_map::emplace`: an entry that is there stays.
unfoldable pub emplace : ℕ → Peer → Dict ℕ Peer → Dict ℕ Peer
emplace ch p m = if is_some (lookup ch m) then m else insert ch p m

-- What the switch of `process_frames` prints: the payload's size, or the type.
unfoldable pub frame_log : Frame → Effect
frame_log f =
    if f.type == type_data
    then log_data (length f.payload)
    else if f.type == type_disconnect
    then log_disconnect
    else log_unknown f.type

-- `vpn_peer::handle_read`.
unfoldable pub peer_read : Peer → Bytes → Bool → Peer × List Effect
unfolding frame_log
peer_read p bytes dry_run =
    if dry_run
    then (p, [])
    else let r = receive p.recv_buf bytes in (record p { recv_buf = r.1 }, map frame_log r.0)

unfoldable pub forward_data : ℕ → Bytes → List Effect
forward_data channel pkt = tx channel (encode_frame type_data pkt) ∷ []

module _ (inet : Inet) where
  -- The flag is the result: `true` for 0, `false` for -1.
  unfoldable pub handle_connect : Server → ℕ → Server × Bool × List Effect
  unfolding emplace
  handle_connect s channel =
      let a = assign inet s.pool channel in
      if is_empty a.1
      then (record s { pool = a.0 }, false, [])
      else let p = vpn_peer channel a.1 s.netmask s.mqtt_cfg in
        (
          record s { pool = a.0; peers = emplace channel p.0 s.peers },
          true,
          p.1 ++ manage_client_route s a.1 true,
        )

  unfoldable pub handle_close : Server → ℕ → Server × List Effect
  handle_close s channel =
      let ip = get inet s.pool channel in
      (
        record s { pool = release s.pool channel; peers = erase channel s.peers },
        if not (is_empty ip) then manage_client_route s ip false else [],
      )

  -- The destination in an IPv4 header: `inet_ntop` of the four bytes at offset 16.
  unfoldable pub destination : Bytes → Bytes
  destination (a ∷ b ∷ c ∷ d ∷ rest) = inet.ntop (ntohl a b c d)
  destination _ = []

  forward_to : Server → Option ℕ → Bytes → List Effect
  forward_to s none pkt = []
  forward_to s (some ch) pkt = if is_some (lookup ch s.peers) then forward_data ch pkt else []

  -- `server_tun_io::handle_read`.
  unfoldable pub tun_read : Server → Bytes → Bool → List Effect
  unfolding forward_to
  tun_read s pkt dry_run =
      if dry_run || ltb (length pkt) 20
      then []
      else forward_to s (find_channel inet s.pool (destination (drop 16 pkt))) pkt
