-- ===== src/Service/Close/Live.antt =====
-- The server as a whole: its connections, the hubs that they share, and what reaches it.
use grace_server.Base.{
  ℕ, ◌≡◌, sym, ap, ◌∙◌, inl, inr, false, none, some, List, [], ◌∷◌, arith, Bytes, ◌==◌,
  Option-cases,
}
use grace_server.Base.Dict.{lookup, erase, lookup-insert_ne, lookup-erase_ne}
use grace_server.Base.Every.{All}
use grace_server.Base.Keys.{num_key, bytes_key}
use grace_server.Gnmi.SubHub.{Sub}
use grace_server.Service.{State, Client, Effect}
use grace_server.Service.Streaming as Streaming
use grace_server.Service.Streaming.{start_subscription}
use grace_server.Service.Targets as Targets
use grace_server.Service.Targets.{
  Target, TargetOp, op_add, op_remove, op_other, RegisterOp, of_target, of_subscription, of_session,
  not_set, apply_target, on_register, on_tunnel,
}
use grace_server.Service.Devices as Devices
use grace_server.Service.Devices.{on_open, on_message, render, Payload, probe_id, DeviceResponse}
use grace_server.Service.Close.{Clients, handle_close, connect, erase_client}
use grace_server.Service.Close.Kept.{AllSessions, AllTargets}

pub record World : Type 0 where
  pub clients : Clients
  pub state : State

pub record Codecs : Type 0 where
  pub streaming : Streaming.Codec
  pub targets : Targets.Codec
  pub devices : Devices.Codec

-- What reaches the server on a channel: a connection, a message to a handler, or the end.
pub data Event : Type 0 where
  connects : Client → Event
  subscribes : ℕ → Bytes → Event
  registers : ℕ → ℕ → Bytes → Event
  tunnels : ℕ → Bytes → Event
  device_opens : ℕ → ℕ → Event
  device_answers : ℕ → Bytes → Event
  closes : Event

-- A message to the handlers of a connection.
abbrev pub handle : Codecs → State → Client → Event → State × List Effect
handle c st me (subscribes sid pb) = start_subscription c.streaming st me sid pb
handle c st me (registers sid now pb) = on_register c.targets st me sid now pb
handle c st me (tunnels sid pb) = on_tunnel c.targets st me sid pb
handle c st me (device_opens sid now) = on_open c.devices st me sid now
handle c st me (device_answers sid pb) = on_message c.devices st me sid pb
handle c st me _ = (st, [])

-- On a channel with no connection, a message does nothing.
abbrev pub on_channel : Codecs → World → ℕ → Event → World
on_channel c w ch ev = elim (lookup ch w.clients) [
  | none ↦ w
  | some me ↦ record w { state = (handle c w.state me ev).0 }
]

abbrev pub step : Codecs → World → ℕ → Event → World
step c w ch (connects clnt) = record w { clients = (connect w.clients ch clnt).0 }
step c w ch closes = elim (lookup ch w.clients) [
  | none ↦ w
  | some me ↦ record {
    clients = (erase_client w.clients ch).0;
    state = (handle_close w.state me ch).0;
  }
]
step c w ch ev = on_channel c w ch ev

abbrev pub run : Codecs → World → List (ℕ × Event) → World
run c w [] = w
run c w ((ch, ev) ∷ evs) = run c (step c w ch ev) evs

-- The session is that of a connection that is open.
abbrev pub IsOpen : Clients → ℕ → Type 0
IsOpen clients g = (ch : ℕ) × (me : Client) × (lookup ch clients ≡ some me) × (me.grpc ≡ g)

-- The owner and the session of a subscription are those of a connection that is open.
abbrev pub IsOwned : Clients → Sub → Type 0
IsOwned clients s =
    (ch : ℕ) × (me : Client) × (lookup ch clients ≡ some me)
    × (me.this ≡ s.owner)
    × (me.grpc ≡ s.grpc)

abbrev pub Holds : Clients → State → Type 0
Holds clients st =
    All (IsOwned clients) st.subs
    × AllTargets (IsOpen clients) st.tunnels
    × AllSessions (IsOpen clients) st.mgmt

-- The subscriptions, targets and devices are of open connections; the bridges are left out.
abbrev pub IsLive : World → Type 0
IsLive w = Holds w.clients w.state

pub connect-lookup :
    (clients : Clients) (ch k : ℕ) (clnt me : Client)
    → lookup k clients ≡ some me
    → lookup k (connect clients ch clnt).0 ≡ some me
unfolding connect
connect-lookup clients ch k clnt me e = elim (Option-cases (lookup ch clients)) [
  | inr (old, f) ↦ rw (f, connect) e
  | inl f ↦ rw (f, connect) (lookup-insert_ne ch k clnt clients (λ q. absurd (cc (e, f, q))) ∙ e)
]

-- Another connection than the one that goes is still there.
erase-lookup :
    (clients : Clients) (ch k : ℕ) (gone me : Client)
    → lookup ch clients ≡ some gone
    → lookup k clients ≡ some me
    → (gone ≡ me → ⊥)
    → lookup k (erase ch clients) ≡ some me
erase-lookup clients ch k gone me f e n =
    lookup-erase_ne ch k clients
      (λ q. absurd (n (injective (sym f ∙ ap (λ i. lookup i clients) q ∙ e))))
    ∙ e
  where
    injective : {x y : Client} → some x ≡ some y → x ≡ y
    injective h = ground arith

differs : (m n : ℕ) → (m == n) ≡ false → m ≡ n → ⊥
differs m n h q = absurd (ground arith)

pub IsOpen-erase :
    (clients : Clients) (ch : ℕ) (gone : Client) (g : ℕ)
    → lookup ch clients ≡ some gone
    → IsOpen clients g
    → (g == gone.grpc) ≡ false
    → IsOpen (erase ch clients) g
IsOpen-erase clients ch gone g f (k, me, e, q) n = (
  k,
  me,
  erase-lookup clients ch k gone me f e
      (λ r. differs g gone.grpc n (sym q ∙ sym (ap (λ (x : Client). x.grpc) r))),
  q,
)

pub IsOwned-erase :
    (clients : Clients) (ch : ℕ) (gone : Client) (s : Sub)
    → lookup ch clients ≡ some gone
    → IsOwned clients s
    → (s.owner == gone.this) ≡ false
    → IsOwned (erase ch clients) s
IsOwned-erase clients ch gone s f (k, me, e, o, q) n = (
  k,
  me,
  erase-lookup clients ch k gone me f e
      (λ r. differs s.owner gone.this n (sym o ∙ sym (ap (λ (x : Client). x.this) r))),
  o,
  q,
)
