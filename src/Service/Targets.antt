-- ===== src/Service/Targets.antt =====
-- The tunnel's methods of `register_gnmi_handlers`: Register, where devices name their targets, and
-- Tunnel, which carries the bytes. `ParseFromString` and `SerializeToString` of the generated
-- classes are parameters.
use grace_server.Base.{
  ℕ, Bool, true, false, Option, none, some, List, [], ◌∷◌, ◌++◌, ◌==◌, if◌then◌else◌, Bytes, codes,
  is_empty, to_string,
}
use grace_server.Tunnel.Hub.Messages.{Data, Encoding}
use grace_server.Tunnel.Hub.{
  add_target, remove_target, size, listener_port, suggest_port, pair_tunnel, from_device,
  close_from_device,
}
use grace_server.Service.{
  State, Client, Effect, stream_send, tunnel_log, tunnel_log_all, of_tunnel_hub,
}

-- `grpctunnel::Target::Op` and `grpctunnel::Subscription::Op`; `op_other` is any other number.
pub data TargetOp : Type 0 where
  op_add op_remove : TargetOp
  op_other : ℕ → TargetOp

-- `grpctunnel::Target`.
pub record Target : Type 0 where
  pub op : TargetOp
  pub accept : Bool
  pub target : Bytes
  pub target_type : Bytes

-- `grpctunnel::Subscription`.
pub record Subscription : Type 0 where
  pub op : TargetOp
  pub accept : Bool
  pub target_type : Bytes

-- The oneof of `grpctunnel::RegisterOp`; of a session, its tag and whether it was accepted.
pub data RegisterOp : Type 0 where
  of_target : Target → RegisterOp
  of_subscription : Subscription → RegisterOp
  of_session : ℕ → Bool → RegisterOp
  not_set : RegisterOp

pub record Codec : Type 0 where
  pub parse_register_op : Bytes → Option RegisterOp
  pub register_op : RegisterOp → Bytes
  pub parse_data : Bytes → Option Data
  pub encoding : Encoding

unfoldable pub on_register_open : State → ℕ → List Effect
unfolding tunnel_log
on_register_open st sid =
    tunnel_log st (codes "[reg] Register stream opened (stream=" ++ to_string sid ++ codes ")")

-- What the operator is told to add to the tunnel's configuration.
unfoldable pub hint : ℕ → Bytes → List Bytes
hint port target =
    (codes "[reg]   " ++ 0xE2 ∷ 0x9A ∷ 0xA0 ∷ codes " no local port maps to this target.")
    ∷ codes "[reg]   Add it to the tunnel config (host docs/tunnel.lua -> /app/tunnel.lua):"
    ∷ (codes "[reg]       listeners = { [\""
        ++ to_string port
        ++ codes "\"] = \""
        ++ target
        ++ codes "\" }")
    ∷ codes "[reg]   then restart:  ./service.sh restart"
    ∷ []

-- The text behind the name is " — ", in UTF-8.
unfoldable pub added_line : Target → ℕ → Bytes
added_line t total =
    codes "[reg] +target '"
    ++ t.target
    ++ codes "' ("
    ++ t.target_type
    ++ codes ") "
    ++ 0xE2 ∷ 0x80 ∷ 0x94 ∷ codes " "
    ++ to_string total
    ++ codes " total"

-- The table of targets behind a `Target`, and the lines logged.
unfoldable pub apply_target : State → Client → ℕ → ℕ → Target → State × List Effect
unfolding add_target remove_target size listener_port suggest_port tunnel_log tunnel_log_all hint
    added_line
apply_target st me sid now t = elim (t.op) [
  | op_add ↦
      let hub = add_target st.tunnels t.target t.target_type me.grpc sid now in
      (
        record st { tunnels = hub },
        tunnel_log st (added_line t (size hub))
            ++ (if listener_port hub t.target == 0
                then tunnel_log_all st (hint (suggest_port hub) t.target)
                else []),
      )
  | op_remove ↦ (
    record st { tunnels = remove_target st.tunnels t.target },
    tunnel_log st (codes "[reg] -target '" ++ t.target ++ codes "'"),
  )
  | op_other n ↦ (st, [])
]

abbrev accept_text : Bool → Bytes
accept_text true = codes " accept"
accept_text false = []

unfoldable pub on_register : Codec → State → Client → ℕ → ℕ → Bytes → State × List Effect
unfolding tunnel_log apply_target
on_register c st me sid now msg_pb = elim (c.parse_register_op msg_pb) [
  | none ↦
      (st, tunnel_log st (codes "[reg] stream=" ++ to_string sid ++ codes " unparsable RegisterOp"))
  | some (of_target t) ↦
      let r = apply_target st me sid now t in
      (
        r.0,
        r.1
            ++ stream_send me.grpc sid (c.register_op (of_target (record t { accept = true })))
              ∷ [],
      )
  | some (of_subscription s) ↦ (
    st,
    stream_send me.grpc sid (c.register_op (of_subscription (record s { accept = true })))
        ∷ tunnel_log st (codes "[reg] subscription ack (type='" ++ s.target_type ++ codes "')"),
  )
  | some (of_session tag accept) ↦
      (st, tunnel_log st (codes "[reg] session tag=" ++ to_string tag ++ accept_text accept))
  | some not_set ↦ (st, [])
]

unfoldable pub on_tunnel_open : State → ℕ → List Effect
unfolding tunnel_log
on_tunnel_open st sid =
    tunnel_log st (codes "[tun] Tunnel stream opened (stream=" ++ to_string sid ++ codes ")")

unfoldable pub on_tunnel : Codec → State → Client → ℕ → Bytes → State × List Effect
unfolding pair_tunnel from_device close_from_device
on_tunnel c st me sid msg_pb = elim (c.parse_data msg_pb) [
  | none ↦ (st, [])
  | some d ↦
      let paired = pair_tunnel c.encoding st.tunnels d.tag me.grpc sid in
      let closed = close_from_device paired.0 d.tag in
      if d.close
      then (record st { tunnels = closed.0 }, of_tunnel_hub paired.1 ++ of_tunnel_hub closed.1)
      else (
        record st { tunnels = paired.0 },
        of_tunnel_hub paired.1
            ++ (if is_empty d.bytes
                then []
                else of_tunnel_hub (from_device paired.0 d.tag d.bytes)),
      )
]
