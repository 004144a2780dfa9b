-- ===== src/Vpn/Server/Forwarding.antt =====
-- Where a packet for a client's address goes.
use grace_server.Base.{
  ℕ, ◌^◌, ◌≤◌, ◌<◌, ◌≡◌, refl, false, some, [], ◌∷◌, arith, length, drop, ltb, Bytes,
}
use grace_server.Base.Dict.{lookup}
use grace_server.Base.Keys.{num_key}
use grace_server.Vpn.Frame.RoundTrip.{receive_one}
use grace_server.Vpn.Frame.{encode_frame, receive, type_data}
use grace_server.Vpn.Pool.Conservation.{find_channel-assigned}
use grace_server.Vpn.Pool.{Inet}
use grace_server.Vpn.Server.Peers.{IsServer}
use grace_server.Vpn.Server.{Server, tx, tun_read, forward_data, destination}
use grace_server.Wire.BigEndian.{ntohl}

-- In a well-formed server, a packet of 20 bytes or more, and fewer than 2^32, whose bytes 16 to 19
-- are an address that a channel holds, is written to that channel's socket, in one frame, and
-- nothing else happens; the client's end reads from that write one DATA frame with the packet.
pub tun_read_delivers :
    (inet : Inet) (s : Server) (pkt rest : Bytes) (ch a b c d : ℕ)
    → IsServer s
    → 20 ≤ length pkt
    → length pkt < 2 ^ 32
    → drop 16 pkt ≡ a ∷ b ∷ c ∷ d ∷ rest
    → ntohl a b c d < 2 ^ 32
    → lookup ch s.pool.assigned ≡ some (ntohl a b c d)
    → (tun_read inet s pkt false ≡ tx ch (encode_frame type_data pkt) ∷ [])
      × (receive [] (encode_frame type_data pkt)
          ≡ (record { type = type_data; payload = pkt } ∷ [], []))
unfolding tun_read forward_data destination
tun_read_delivers inet s pkt rest ch a b c d v h k e l f =
    let found = find_channel-assigned inet s.pool ch (ntohl a b c d) v.pool_ok l f in
    let peer = v.matched ch in
    let long : ltb (length pkt) 20 ≡ false = ground arith in
    (rw (long, e, found) (rw (peer, f) refl), receive_one type_data pkt k)
