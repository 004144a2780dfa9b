-- ===== src/Openvpn/Diff/Effects.antt =====
-- What the server does for the clients that come and go at the end of a table.
use grace_server.Base.{
  ◌≡◌, refl, sym, ap, ◌∙◌, inl, inr, true, false, List, [], ◌∷◌, ◌++◌, arith, Bytes, codes,
  equal_iff, Bool-cases,
}
use grace_server.Openvpn.Mgmt.{
  State, Effect, mqtt_connect, mqtt_subscribe, publish, push_async, log, member, set_add,
  set_remove, on_client_connect, on_client_disconnect, publish_event, connect_if_new,
  disconnect_if_gone, connect_new, disconnect_gone, end_table,
}
use grace_server.Openvpn.Mgmt.Tracking.{IsTracked, grow, member-set_add, connect_new_lem}
use grace_server.Openvpn.Diff.{Diff, Result, missing}

-- The server's table, as the copy keeps it.
abbrev pub of_server : State → Diff
of_server s = record { in_table = s.in_table; polled = s.polled; active = s.active }

-- What the server does for clients that come and that go.
abbrev pub welcome : List Bytes → List Effect
welcome [] = []
welcome (v ∷ vs) =
    mqtt_connect (codes "ovpn-srv-peer-" ++ v)
    ∷ mqtt_subscribe (codes "fwd/" ++ v)
    ∷ publish (codes "clients/" ++ v) (codes "connected") true
    ∷ welcome vs

abbrev pub farewell : List Bytes → List Effect
farewell [] = []
farewell (v ∷ vs) = publish (codes "clients/" ++ v) [] true ∷ farewell vs

abbrev pub told : Result → List Effect
told r = welcome r.connected ++ farewell r.disconnected

abbrev pub without_logs : List Effect → List Effect
without_logs [] = []
without_logs (log line ∷ es) = without_logs es
without_logs (mqtt_connect c ∷ es) = mqtt_connect c ∷ without_logs es
without_logs (mqtt_subscribe c ∷ es) = mqtt_subscribe c ∷ without_logs es
without_logs (publish t p r ∷ es) = publish t p r ∷ without_logs es
without_logs (push_async a b c ∷ es) = push_async a b c ∷ without_logs es

abbrev pub IsUnique : List Bytes → Type 0
IsUnique [] = Unit
IsUnique (v ∷ vs) = (member v vs ≡ false) × IsUnique vs

-- MQTT is up with the publisher of events, the subscriptions are the active clients', and
-- no address is twice in the table that is being read.
abbrev pub IsReporting : State → Type 0
IsReporting s = IsTracked s × (s.event_mqtt ≡ true) × IsUnique s.polled

-- Addresses, none twice, of which those not active have no subscription.
abbrev pub AreNew : State → List Bytes → Type 0
AreNew s [] = Unit
AreNew s (v ∷ vs) =
    (member v s.active ≡ false → member v s.peers ≡ false) × (member v vs ≡ false) × AreNew s vs

AreNew-set_add :
    (s : State) (v : Bytes) (vs : List Bytes)
    → member v vs ≡ false
    → AreNew s vs
    → AreNew (record s { peers = set_add v s.peers }) vs
unfolding member
AreNew-set_add s v [] m a = tt
AreNew-set_add s v (w ∷ vs) m (n, u, a) = (
  λ q. ground (arith, member-set_add w v s.peers, n q, m, equal_iff v w, equal_iff w v),
  u,
  AreNew-set_add s v vs (ground arith) a,
)

missing_known :
    (v : Bytes) (known vs : List Bytes)
    → member v known ≡ true
    → missing known (v ∷ vs) ≡ missing known vs
unfolding missing
missing_known v known vs q = rw q refl

missing_new :
    (v : Bytes) (known vs : List Bytes)
    → member v known ≡ false
    → missing known (v ∷ vs) ≡ v ∷ missing known vs
unfolding missing
missing_new v known vs q = rw q refl

connect_if_new_known :
    (s : State) (v : Bytes) → member v s.active ≡ true → connect_if_new s v ≡ (s, [])
unfolding connect_if_new
connect_if_new_known s v q = rw q refl

connect_if_new-welcome :
    (s : State) (v : Bytes)
    → s.mqtt ≡ true
    → s.event_mqtt ≡ true
    → member v s.active ≡ false
    → member v s.peers ≡ false
    → connect_if_new s v ≡ (record s { peers = set_add v s.peers }, welcome (v ∷ []))
unfolding connect_if_new on_client_connect publish_event
connect_if_new-welcome s v m e q n = rw (q, m, n, e) refl

connect_new-welcome :
    (s : State) (vs : List Bytes)
    → s.mqtt ≡ true
    → s.event_mqtt ≡ true
    → AreNew s vs
    → (connect_new s vs).1 ≡ welcome (missing s.active vs)
unfolding connect_new missing
connect_new-welcome s [] m e a = refl
connect_new-welcome s (v ∷ vs) m e (n, u, a) =
    let step : State × List Effect → List Effect = λ r. r.1 ++ (connect_new r.0 vs).1 in
    elim (Bool-cases (member v s.active)) [
      | inl q ↦
          ap step (connect_if_new_known s v q)
          ∙ connect_new-welcome s vs m e a
          ∙ ap welcome (sym (missing_known v s.active vs q))
      | inr q ↦
          ap step (connect_if_new-welcome s v m e q (n q))
          ∙ ap (λ es. welcome (v ∷ []) ++ es)
              (connect_new-welcome (record s { peers = set_add v s.peers }) vs m e
                (AreNew-set_add s v vs u a))
          ∙ ap welcome (sym (missing_new v s.active vs q))
    ]

disconnect_if_gone_known :
    (s : State) (v : Bytes) → member v s.polled ≡ true → disconnect_if_gone s v ≡ (s, [])
unfolding disconnect_if_gone
disconnect_if_gone_known s v q = rw q refl

disconnect_if_gone-farewell :
    (s : State) (v : Bytes)
    → s.event_mqtt ≡ true
    → member v s.polled ≡ false
    → disconnect_if_gone s v ≡ (record s { peers = set_remove v s.peers }, farewell (v ∷ []))
unfolding disconnect_if_gone on_client_disconnect publish_event
disconnect_if_gone-farewell s v e q = rw (q, e) refl

disconnect_gone-farewell :
    (s : State) (vs : List Bytes)
    → s.event_mqtt ≡ true
    → (disconnect_gone s vs).1 ≡ farewell (missing s.polled vs)
unfolding disconnect_gone missing
disconnect_gone-farewell s [] e = refl
disconnect_gone-farewell s (v ∷ vs) e =
    let step : State × List Effect → List Effect = λ r. r.1 ++ (disconnect_gone r.0 vs).1 in
    elim (Bool-cases (member v s.polled)) [
      | inl q ↦
          ap step (disconnect_if_gone_known s v q)
          ∙ disconnect_gone-farewell s vs e
          ∙ ap farewell (sym (missing_known v s.polled vs q))
      | inr q ↦
          ap step (disconnect_if_gone-farewell s v e q)
          ∙ ap (λ es. farewell (v ∷ []) ++ es)
              (disconnect_gone-farewell (record s { peers = set_remove v s.peers }) vs e)
          ∙ ap farewell (sym (missing_new v s.polled vs q))
    ]

pub end_table-told :
    (s : State)
    → s.mqtt ≡ true
    → s.event_mqtt ≡ true
    → AreNew (record s { in_table = false }) s.polled
    → (end_table s).1 ≡ welcome (missing s.active s.polled) ++ farewell (missing s.polled s.active)
unfolding end_table
end_table-told s m e a =
    let s0 : State = record s { in_table = false } in
    let s1 : State = record s0 { peers = grow s.active s.peers s.polled } in
    ap (λ es. es ++ (disconnect_gone (connect_new s0 s.polled).0 s.active).1)
      (connect_new-welcome s0 s.polled m e a)
    ∙ ap (λ (t : State). welcome (missing s.active s.polled) ++ (disconnect_gone t s.active).1)
        (connect_new_lem s0 s.polled m)
    ∙ ap (λ es. welcome (missing s.active s.polled) ++ es) (disconnect_gone-farewell s1 s.active e)
