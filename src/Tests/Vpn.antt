-- ===== src/Tests/Vpn.antt =====
-- A VPN server with the addresses 10.8.0.2 to 10.8.0.4.
use grace_server.Base.{
  ℕ, ◌+◌, ◌*◌, ◌-◌, ◌^◌, ◌≡◌, refl, ap, true, false, Option, none, some, List, [], ◌∷◌, ◌++◌, arith,
  Bytes, codes,
}
use grace_server.Base.Dict.{lookup, insert, erase}
use grace_server.Wire.BigEndian.{htonl, ntohl, ntohl-htonl}
use grace_server.Vpn.Frame.{Frame, encode_frame, receive, try_decode_frame, type_data}
use grace_server.Vpn.Frame.RoundTrip.{encode_all, receive-encode_all}
use grace_server.Vpn.Pool.{Pool, Inet, assign, assign_address, release, fill}
use grace_server.Vpn.Pool.Filling.{range, fill_diverges}
use grace_server.Vpn.Pool.Conservation.{
  owned, IsPool, range-IsPool, Event, assigns, releases, run, run-owned,
}
use grace_server.Vpn.Server.{Server, handle_connect, tun_read, tx}
use grace_server.Vpn.Server.Peers.{IsServer, handle_connect-IsServer}
use grace_server.Vpn.Server.Forwarding.{tun_read_delivers}
use grace_server.Vpn.Frame.Decoder.{receive-append}
use mathlib.Core.List.{Perm}

-- Addresses shown by their four bytes.
four : Bytes → Option ℕ
four (a ∷ b ∷ c ∷ d ∷ []) = some (ntohl a b c d)
four _ = none

raw_inet : Inet
unfolding four
raw_inet = record {
  ntop = htonl;
  pton = four;
  pton-ntop = λ a h. ap some (ntohl-htonl a h);
  ntop_nonempty = λ a. refl;
}

abbrev base : ℕ
base = 10 * 2 ^ 24 + 8 * 2 ^ 16

abbrev pool : Pool
pool = record { free = range base 3; assigned = [] }

pool-IsPool : IsPool pool
pool-IsPool = range-IsPool base 3

-- Nobody is connected.
abbrev server : Server
server = record {
  pool = pool;
  netmask = codes "255.255.255.0";
  mqtt_cfg = record { enabled = true; gnmi_port = 9339 };
  tun_up = true;
  peers = [];
}

server-IsServer : IsServer server
unfolding lookup
server-IsServer = record { matched = λ ch. refl; pool_ok = pool-IsPool }

-- Channel 7 has connected.
abbrev connected : Server
connected = (handle_connect raw_inet server 7).0

connected-IsServer : IsServer connected
unfolding lookup
connected-IsServer = handle_connect-IsServer raw_inet server 7 server-IsServer refl

-- 24 bytes of a packet to 10.8.0.0.
abbrev packet : Bytes
packet =
    69 ∷ 0 ∷ 0 ∷ 24 ∷ 0 ∷ 0 ∷ 0 ∷ 0 ∷ 64 ∷ 17 ∷ 0 ∷ 0 ∷ 10 ∷ 8 ∷ 0 ∷ 1 ∷ 10 ∷ 8 ∷ 0 ∷ 0 ∷ 1 ∷ 2 ∷ 3
    ∷ 4 ∷ []

tun_read_delivers_example :
    (tun_read raw_inet connected packet false ≡ tx 7 (encode_frame type_data packet) ∷ [])
    × (receive [] (encode_frame type_data packet)
        ≡ (record { type = type_data; payload = packet } ∷ [], []))
unfolding lookup handle_connect raw_inet ntohl insert assign assign_address
tun_read_delivers_example =
    tun_read_delivers raw_inet connected packet (1 ∷ 2 ∷ 3 ∷ 4 ∷ []) 7 10 8 0 0 connected-IsServer
      (omega arith) (omega arith) refl (omega arith) refl

abbrev events : List Event
events = assigns 7 ∷ assigns 8 ∷ releases 7 ∷ assigns 9 ∷ []

run-owned_example : Perm (owned (run pool events)) (owned pool) × IsPool (run pool events)
unfolding lookup insert erase assign_address release
run-owned_example = run-owned pool events pool-IsPool (refl, (refl, (tt, (refl, tt))))

fill_diverges_example : fill 300 (2 ^ 32 - 2) (2 ^ 32 - 1) [] ≡ none
fill_diverges_example = fill_diverges 300 (2 ^ 32 - 2) [] (omega arith)

-- Two frames and three bytes of a third.
abbrev frames : List Frame
frames =
    record { type = 1; payload = codes "10.8.0.2 255.255.255.0" }
    ∷ record { type = 2; payload = 69 ∷ 0 ∷ [] }
    ∷ []

receive-encode_all_example :
    receive [] (encode_all frames ++ 2 ∷ 0 ∷ 0 ∷ []) ≡ (frames, 2 ∷ 0 ∷ 0 ∷ [])
unfolding try_decode_frame
receive-encode_all_example =
    receive-encode_all frames (2 ∷ 0 ∷ 0 ∷ []) (omega arith, (omega arith, tt)) refl

receive-append_example : receive [] ((2 ∷ 0 ∷ 0 ∷ []) ++ 0 ∷ 1 ∷ 5 ∷ []) ≡ (
  (receive [] (2 ∷ 0 ∷ 0 ∷ [])).0 ++ (receive (receive [] (2 ∷ 0 ∷ 0 ∷ [])).1 (0 ∷ 1 ∷ 5 ∷ [])).0,
  (receive (receive [] (2 ∷ 0 ∷ 0 ∷ [])).1 (0 ∷ 1 ∷ 5 ∷ [])).1,
)
receive-append_example = receive-append [] (2 ∷ 0 ∷ 0 ∷ []) (0 ∷ 1 ∷ 5 ∷ [])
