-- ===== src/Tests/Relay.antt =====
-- A hub with one target, a bridge to it that waits, and the listener of that target.
use grace_server.Base.{
  ℕ, ◌<◌, ◌≡◌, refl, ◌⊎◌, inl, none, some, List, [], ◌∷◌, ◌++◌, arith, Bytes, codes,
}
use grace_server.Base.Dict.{lookup}
use grace_server.Base.Keys.{num_key, bytes_key}
use grace_server.Tunnel.Hub.{Hub, Bridge, Reg, Effect, open_bridge}
use grace_server.Tunnel.Hub.Messages.{Encoding}
use grace_server.Tunnel.Hub.Table.{
  Call, adds, removes_stream, opens, pairs, operator_sends, run, IsWf, run-IsWf,
}
use grace_server.Tunnel.Hub.Relay.{
  Arrival, bytes_come, stream_comes, arrivals, sent_bytes, stream_of, Carries, arrivals_relay,
}
use grace_server.Tunnel.Hub.Table.{IsLinked}
use grace_server.Base.Distinct.{Distinct}
use grace_server.Tunnel.Hub.Flush.{arrivals_delivered}
use grace_server.Tunnel.Hub.Registry.{registry, meaning_all, run_refines}
use grace_server.Tunnel.Proxy.{Listener, BridgeConn, handle_connect, refused, done}
use grace_server.Tunnel.Proxy.Connections.{fresh_bridge, handle_connect_lem}

-- Messages are written as their tag and their bytes.
abbrev enc : Encoding
enc = record { session_pb = λ s. s.tag ∷ s.target; data_pb = λ d. d.tag ∷ d.bytes }

abbrev device : Bytes
device = codes "r1"

abbrev waiting : Bridge
waiting = fresh_bridge 1 device 20

abbrev hub : Hub
hub = record {
  targets = (device, record { grpc = 4; stream_id = 1; type = codes "GNMI"; since = 9 }) ∷ [];
  ports = [];
  bridges = (1, waiting) ∷ [];
  next_tag = 1;
}

hub-IsWf : IsWf hub
hub-IsWf = ((refl, omega arith, omega arith, inl refl), tt)

abbrev calls : List Call
calls = operator_sends 1 (5 ∷ []) ∷ pairs 1 4 3 ∷ opens device (some 21) (some 21) ∷ []

run-IsWf_example : IsWf (run enc hub calls).0
run-IsWf_example = run-IsWf enc hub calls hub-IsWf

abbrev opened : Hub × ℕ × List Effect
opened = open_bridge enc hub device (some 21) (some 21)

abbrev events : List Arrival
events = bytes_come (5 ∷ 6 ∷ []) ∷ stream_comes 4 3 ∷ bytes_come (7 ∷ []) ∷ []

arrivals_relay_example :
    (b' : Bridge) × (carried : Bytes) × (lookup 1 (arrivals enc 1 hub events).0.bridges ≡ some b')
    × Carries enc 1 (stream_of waiting) events (arrivals enc 1 hub events).1 carried
    × (carried ++ b'.buffered ≡ [] ++ sent_bytes events)
    × (b'.tag ≡ 1)
    × IsLinked b'
unfolding lookup
arrivals_relay_example = arrivals_relay enc 1 hub waiting events refl refl (inl refl)

arrivals_delivered_example :
    (b' : Bridge) × (lookup 1 (arrivals enc 1 hub events).0.bridges ≡ some b')
    × (b'.buffered ≡ [])
    × Carries enc 1
        (stream_of waiting)
        events
        (arrivals enc 1 hub events).1
        ([] ++ sent_bytes events)
unfolding lookup
arrivals_delivered_example = arrivals_delivered enc 1 hub waiting events refl refl (inl refl) refl

run_refines_example :
    Distinct (run enc hub (adds (codes "r2") [] 5 1 0 ∷ removes_stream 4 ∷ [])).0.targets
    × (registry (run enc hub (adds (codes "r2") [] 5 1 0 ∷ removes_stream 4 ∷ [])).0
        ≡ meaning_all (adds (codes "r2") [] 5 1 0 ∷ removes_stream 4 ∷ []) (registry hub))
unfolding lookup
run_refines_example =
    run_refines enc hub (adds (codes "r2") [] 5 1 0 ∷ removes_stream 4 ∷ []) (refl, tt)

abbrev listener : Listener
listener = record { target = device; conns = (20, record { fd = 20; tag = 1 }) ∷ []; hub = hub }

handle_connect_lem_example :
    ((lookup device hub.targets ≡ none)
      × ((handle_connect enc listener 21).0 ≡ listener)
      × ((handle_connect enc listener 21).1 ≡ refused))
    ⊎ ((reg : Reg) × (lookup device hub.targets ≡ some reg)
        × (tag : ℕ) × (0 < tag)
        × ((handle_connect enc listener 21).1 ≡ done 0)
        × (lookup 21 (handle_connect enc listener 21).0.conns
            ≡ some (record { fd = 21; tag = tag }))
        × (lookup tag hub.bridges ≡ none)
        × (lookup tag (handle_connect enc listener 21).0.hub.bridges
            ≡ some (fresh_bridge tag device 21)))
handle_connect_lem_example = handle_connect_lem enc listener 21 hub-IsWf

abbrev conn : BridgeConn
conn = record { fd = 20; tag = 1 }
