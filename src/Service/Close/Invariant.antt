-- ===== src/Service/Close/Invariant.antt =====
-- Whose sessions the subscriptions, the targets and the devices have, behind any events.
use grace_server.Base.{
  ℕ, ◌≡◌, refl, inl, inr, Option, none, some, List, [], ◌∷◌, Bytes, equal, Bool-cases, Option-cases,
}
use grace_server.Base.Dict.{lookup}
use grace_server.Base.Every.{All-append, All-map_to, All-insert, All-erase}
use grace_server.Base.Keys.{num_key, bytes_key}
use grace_server.Gnmi.SubHub.{add, remove, owned_by}
use grace_server.Tunnel.Hub as TunnelHub
use grace_server.MgmtHub as MgmtHub
use grace_server.MgmtHub.{note_device, next_notif}
use grace_server.Service.{State, Client}
use grace_server.Service.Streaming.{start_subscription}
use grace_server.Service.Targets.{
  Target, op_add, op_remove, op_other, of_target, of_subscription, of_session, not_set,
  apply_target, on_register, on_tunnel,
}
use grace_server.Service.Targets as Targets
use grace_server.Service.Streaming as Streaming
use grace_server.Service.Devices as Devices
use grace_server.Service.Devices.{
  on_open, on_message, identity_of, render, Payload, cli_response, get_response, subscribe_response,
  set_response, other_type, probe_id, DeviceResponse,
}
use grace_server.Gnmi.{update, sync_response, error}
use grace_server.Gnmi as Gnmi
use grace_server.Service.Close.{Clients, handle_close, connect, erase_client}
use grace_server.Service.Close.Kept.{
  AllSessions-add_session, AllSessions-note_device, AllSessions-set_identity,
  AllTargets-pair_tunnel, AllTargets-close_from_device, All-left,
}
use grace_server.Service.Close.Live.{
  World, Codecs, Event, connects, subscribes, registers, tunnels, device_opens, device_answers,
  closes, handle, on_channel, step, run, IsOpen, IsOwned, Holds, IsLive, connect-lookup,
  IsOpen-erase, IsOwned-erase,
}

module _ (clients : Clients) where
  start_subscription-Holds :
      (c : Streaming.Codec) (st : State) (me : Client) (sid : ℕ) (pb : Bytes)
      → IsOwned clients (record { owner = me.this; grpc = me.grpc; stream_id = 0; paths = [] })
      → Holds clients st
      → Holds clients (start_subscription c st me sid pb).0
  unfolding start_subscription add
  start_subscription-Holds c st me sid pb o (a, b, d) =
      elim (Option-cases (c.parse_subscribe_request pb)) [
        | inl e ↦ rw (e, start_subscription) (a, b, d)
        | inr (sl, e) ↦ elim (Bool-cases sl.streaming) [
          | inl f ↦
              rw (e, start_subscription, f) (All-append (IsOwned clients) st.subs _ a (o, tt), b, d)
          | inr f ↦ rw (e, start_subscription, f) (a, b, d)
        ]
      ]

  apply_target-Holds :
      (st : State) (me : Client) (sid now : ℕ) (t : Target)
      → IsOpen clients me.grpc
      → Holds clients st
      → Holds clients (apply_target st me sid now t).0
  unfolding apply_target TunnelHub.add_target TunnelHub.remove_target
  apply_target-Holds st me sid now t o (a, b, d) = split t.op refl
    where
      split : (op : Targets.TargetOp) → t.op ≡ op → Holds clients (apply_target st me sid now t).0
      split op_add e =
          rw (e, apply_target)
            (a, All-insert (λ e. IsOpen clients e.1.grpc) t.target _ st.tunnels.targets o b, d)
      split op_remove e =
          rw (e, apply_target)
            (a, All-erase (λ e. IsOpen clients e.1.grpc) t.target st.tunnels.targets b, d)
      split (op_other n) e = rw (e, apply_target) (a, b, d)

  on_register-Holds :
      (c : Targets.Codec) (st : State) (me : Client) (sid now : ℕ) (pb : Bytes)
      → IsOpen clients me.grpc
      → Holds clients st
      → Holds clients (on_register c st me sid now pb).0
  unfolding on_register
  on_register-Holds c st me sid now pb o h = split (c.parse_register_op pb) refl
    where
      split :
          (r : Option Targets.RegisterOp)
          → c.parse_register_op pb ≡ r
          → Holds clients (on_register c st me sid now pb).0
      split none e = rw (e, on_register) h
      split (some (of_target t)) e = rw (e, on_register) (apply_target-Holds st me sid now t o h)
      split (some (of_subscription s)) e = rw (e, on_register) h
      split (some (of_session tag accept)) e = rw (e, on_register) h
      split (some not_set) e = rw (e, on_register) h

  on_tunnel-Holds :
      (c : Targets.Codec) (st : State) (me : Client) (sid : ℕ) (pb : Bytes)
      → Holds clients st
      → Holds clients (on_tunnel c st me sid pb).0
  unfolding on_tunnel
  on_tunnel-Holds c st me sid pb (a, b, d) = elim (Option-cases (c.parse_data pb)) [
    | inl e ↦ rw (e, on_tunnel) (a, b, d)
    | inr (msg, e) ↦
        let paired = TunnelHub.pair_tunnel c.encoding st.tunnels msg.tag me.grpc sid in
        let b' =
          AllTargets-pair_tunnel (IsOpen clients) c.encoding st.tunnels msg.tag me.grpc sid b in
        elim (Bool-cases msg.close) [
          | inl f ↦
              rw (e, on_tunnel, f)
                (a, AllTargets-close_from_device (IsOpen clients) paired.0 msg.tag b', d)
          | inr f ↦ rw (e, on_tunnel, f) (a, b', d)
        ]
  ]

  on_open-Holds :
      (c : Devices.Codec) (st : State) (me : Client) (sid now : ℕ)
      → IsOpen clients me.grpc
      → Holds clients st
      → Holds clients (on_open c st me sid now).0
  unfolding on_open
  on_open-Holds c st me sid now o (a, b, d) =
      (a, b, AllSessions-add_session (IsOpen clients) st.mgmt me.grpc sid now o d)

  render-Holds :
      (c : Devices.Codec) (st : State) (rpc_id : Bytes) (p : Payload)
      → Holds clients st
      → Holds clients (render c st rpc_id p).0
  unfolding render next_notif
  render-Holds c st rpc_id (cli_response cli) h = h
  render-Holds c st rpc_id (get_response ns) h = h
  render-Holds c st rpc_id (subscribe_response (update n)) h = h
  render-Holds c st rpc_id (subscribe_response (sync_response b)) h = h
  render-Holds c st rpc_id (subscribe_response (error m)) h = h
  render-Holds c st rpc_id (subscribe_response Gnmi.not_set) h = h
  render-Holds c st rpc_id (set_response n) h = h
  render-Holds c st rpc_id (other_type url) h = h

  on_message-Holds :
      (c : Devices.Codec) (st : State) (me : Client) (sid : ℕ) (pb : Bytes)
      → Holds clients st
      → Holds clients (on_message c st me sid pb).0
  unfolding on_message
  on_message-Holds c st me sid pb (a, b, d) = elim (Option-cases (c.parse_device_response pb)) [
    | inl e ↦ rw (e, on_message) (a, b, d)
    | inr (resp, e) ↦
        let noted : State = record st { mgmt = note_device st.mgmt me.grpc sid resp.device_id } in
        let d' = AllSessions-note_device (IsOpen clients) st.mgmt me.grpc sid resp.device_id d in
        elim (Bool-cases resp.fake) [
          | inl f ↦ rw (e, on_message, f) (a, b, d)
          | inr f ↦ elim (Bool-cases (equal resp.rpc_id probe_id)) [
            | inl g ↦
                rw (e, on_message, f, g)
                  (
                    a,
                    b,
                    AllSessions-set_identity (IsOpen clients) noted.mgmt me.grpc sid
                        (identity_of c.show_double resp.response).0
                        (identity_of c.show_double resp.response).1 d',
                  )
            | inr g ↦
                rw (e, on_message, f, g) (render-Holds c noted resp.rpc_id resp.response (a, b, d'))
          ]
        ]
  ]

connect-Holds :
    (clients : Clients) (st : State) (ch : ℕ) (clnt : Client)
    → Holds clients st
    → Holds (connect clients ch clnt).0 st
connect-Holds clients st ch clnt (a, b, d) =
    let still : (g : ℕ) → IsOpen clients g → IsOpen (connect clients ch clnt).0 g =
      λ g (k, me, e, q). (k, me, connect-lookup clients ch k clnt me e, q) in
    (
      All-map_to (IsOwned clients) (IsOwned (connect clients ch clnt).0)
          (λ s (k, me, e, o, q). (k, me, connect-lookup clients ch k clnt me e, o, q)) st.subs a,
      All-map_to _ _ (λ e. still e.1.grpc) st.tunnels.targets b,
      All-map_to _ _ (λ s. still s.grpc) st.mgmt.sessions d,
    )

handle_close-Holds :
    (clients : Clients) (st : State) (me : Client) (ch : ℕ)
    → lookup ch clients ≡ some me
    → Holds clients st
    → Holds (erase_client clients ch).0 (handle_close st me ch).0
unfolding handle_close erase_client remove TunnelHub.remove_by_stream MgmtHub.remove_by_stream
handle_close-Holds clients st me ch e (a, b, d) = (
  All-left (IsOwned clients) _ (owned_by me.this) st.subs (λ s. IsOwned-erase clients ch me s e) a,
  All-left (λ (r : Bytes × TunnelHub.Reg). IsOpen clients r.1.grpc) _ (TunnelHub.owned_by me.grpc)
      st.tunnels.targets (λ r. IsOpen-erase clients ch me r.1.grpc e) b,
  All-left (λ (s : MgmtHub.Sess). IsOpen clients s.grpc) _ (MgmtHub.on_grpc me.grpc)
      st.mgmt.sessions (λ s. IsOpen-erase clients ch me s.grpc e) d,
)

handle-Holds :
    (c : Codecs) (clients : Clients) (st : State) (ch : ℕ) (me : Client) (ev : Event)
    → lookup ch clients ≡ some me
    → Holds clients st
    → Holds clients (handle c st me ev).0
handle-Holds c clients st ch me (connects clnt) e h = h
handle-Holds c clients st ch me closes e h = h
handle-Holds c clients st ch me (subscribes sid pb) e h =
    start_subscription-Holds clients c.streaming st me sid pb (ch, me, e, refl, refl) h
handle-Holds c clients st ch me (registers sid now pb) e h =
    on_register-Holds clients c.targets st me sid now pb (ch, me, e, refl) h
handle-Holds c clients st ch me (tunnels sid pb) e h =
    on_tunnel-Holds clients c.targets st me sid pb h
handle-Holds c clients st ch me (device_opens sid now) e h =
    on_open-Holds clients c.devices st me sid now (ch, me, e, refl) h
handle-Holds c clients st ch me (device_answers sid pb) e h =
    on_message-Holds clients c.devices st me sid pb h

-- A message, on a channel that may have a connection.
handled : (c : Codecs) (w : World) (ch : ℕ) (ev : Event) → IsLive w → IsLive (on_channel c w ch ev)
handled c w ch ev h = elim (Option-cases (lookup ch w.clients)) [
  | inl e ↦ rw (e, on_channel) h
  | inr (me, e) ↦ rw (e, on_channel) (handle-Holds c w.clients w.state ch me ev e h)
]

step-IsLive : (c : Codecs) (w : World) (ch : ℕ) (ev : Event) → IsLive w → IsLive (step c w ch ev)
step-IsLive c w ch (connects clnt) h = connect-Holds w.clients w.state ch clnt h
step-IsLive c w ch closes h = elim (Option-cases (lookup ch w.clients)) [
  | inl e ↦ rw (e, step) h
  | inr (me, e) ↦ rw (e, step) (handle_close-Holds w.clients w.state me ch e h)
]
step-IsLive c w ch (subscribes sid pb) h = handled c w ch (subscribes sid pb) h
step-IsLive c w ch (registers sid now pb) h = handled c w ch (registers sid now pb) h
step-IsLive c w ch (tunnels sid pb) h = handled c w ch (tunnels sid pb) h
step-IsLive c w ch (device_opens sid now) h = handled c w ch (device_opens sid now) h
step-IsLive c w ch (device_answers sid pb) h = handled c w ch (device_answers sid pb) h

-- Every subscription's owner and session, every registered target's session and every managed
-- device's session are those of a connection that is open, whatever connects, is sent and closes, on
-- any channels, from a server where it is so, such as one with no connection and nothing in its
-- hubs. The session that a tunnel's bridge was paired with is left out.
pub run-IsLive : (c : Codecs) (w : World) (evs : List (ℕ × Event)) → IsLive w → IsLive (run c w evs)
run-IsLive c w [] h = h
run-IsLive c w ((ch, ev) ∷ evs) h = run-IsLive c (step c w ch ev) evs (step-IsLive c w ch ev h)
