-- ===== src/Tunnel/Proxy/Connections.antt =====
-- An operator's connection, and the bridge that belongs to it.
use grace_server.Base.{
  ℕ, ◌<◌, ◌≡◌, ◌≢◌, refl, ◌⊎◌, inl, inr, false, Option, none, some, [], arith, subst, Option-cases,
  Bytes, ◌==◌,
}
use grace_server.Base.Dict.{lookup, lookup-insert_self, lookup-erase_self, lookup-erase_ne}
use grace_server.Base.Keys.{num_key, bytes_key}
use grace_server.Tunnel.Hub.Messages.{Encoding}
use grace_server.Tunnel.Hub.{Hub, Reg, Bridge, open_bridge}
use grace_server.Tunnel.Hub.Relay.{bridge_isolation, lookup-close_from_operator}
use grace_server.Tunnel.Hub.Table.{IsWf, open_bridge_fresh}
use grace_server.Tunnel.Proxy.{Listener, BridgeConn, done, refused, handle_connect, bridge_close}

-- The bridge of a connection that has not been paired.
abbrev pub fresh_bridge : ℕ → Bytes → ℕ → Bridge
fresh_bridge tag target channel = record {
  tag = tag;
  target = target;
  to_operator = some channel;
  close_operator = some channel;
  tunnel_grpc = none;
  tunnel_sid = 0;
  paired = false;
  buffered = [];
}

-- A tag is given for a registered target only.
registered :
    (enc : Encoding) (h : Hub) (target : Bytes) (to_op close_op : Option ℕ)
    → 0 < (open_bridge enc h target to_op close_op).1
    → (reg : Reg) × (lookup target h.targets ≡ some reg)
unfolding open_bridge
registered enc h target to_op close_op p = elim (Option-cases (lookup target h.targets)) [
  | inr found ↦ found
  | inl e ↦ absurd (zero_tag (subst (λ o. 0 < o) (unregistered e) p))
]
  where
    zero_tag : 0 < 0 → ⊥
    zero_tag q = omega (arith, q)

    unregistered : lookup target h.targets ≡ none → (open_bridge enc h target to_op close_op).1 ≡ 0
    unregistered e = rw (e, open_bridge) refl

-- With a well-formed hub, a connection is refused exactly if the target is not registered, and then
-- nothing changes. Otherwise, the target being registered, it is listed under its channel with a tag that no bridge had, and the
-- hub has a bridge under that tag whose callbacks lead back to the channel.
pub handle_connect_lem :
    (enc : Encoding) (l : Listener) (channel : ℕ)
    → IsWf l.hub
    → ((lookup l.target l.hub.targets ≡ none)
        × ((handle_connect enc l channel).0 ≡ l)
        × ((handle_connect enc l channel).1 ≡ refused))
      ⊎ ((reg : Reg) × (lookup l.target l.hub.targets ≡ some reg)
          × (tag : ℕ) × (0 < tag)
          × ((handle_connect enc l channel).1 ≡ done 0)
          × (lookup channel (handle_connect enc l channel).0.conns
              ≡ some (record { fd = channel; tag = tag }))
          × (lookup tag l.hub.bridges ≡ none)
          × (lookup tag (handle_connect enc l channel).0.hub.bridges
              ≡ some (fresh_bridge tag l.target channel)))
unfolding handle_connect
handle_connect_lem enc l channel w =
    elim (open_bridge_fresh enc l.hub l.target (some channel) (some channel) w) [
      | inl (e, o) ↦ inl (e, rw o refl, rw o refl)
      | inr (p, q, r) ↦
          let tag = (open_bridge enc l.hub l.target (some channel) (some channel)).1 in
          let z : (tag == 0) ≡ false = ground arith in
          let (reg, found) = registered enc l.hub l.target (some channel) (some channel) p in
          inr
            (reg, found, tag, p, rw z refl, rw z (lookup-insert_self channel _ l.conns), q, rw z r)
    ]

-- When the socket of an operator that has a bridge closes, its connection and its bridge are both
-- gone, and every other connection and bridge is as it was.
pub bridge_close_lem :
    (enc : Encoding) (l : Listener) (c : BridgeConn) (channel other tag : ℕ)
    → c.tag ≢ 0
    → channel ≢ other
    → c.tag ≢ tag
    → (lookup channel (bridge_close enc l c channel).0.conns ≡ none)
      × (lookup c.tag (bridge_close enc l c channel).0.hub.bridges ≡ none)
      × (lookup other (bridge_close enc l c channel).0.conns ≡ lookup other l.conns)
      × (lookup tag (bridge_close enc l c channel).0.hub.bridges ≡ lookup tag l.hub.bridges)
unfolding bridge_close
bridge_close_lem enc l c channel other tag z n m =
    let open_tag : (c.tag == 0) ≡ false = ground arith in
    (
      rw open_tag (lookup-erase_self channel l.conns),
      rw open_tag (lookup-close_from_operator enc l.hub c.tag),
      rw open_tag (lookup-erase_ne channel other l.conns n),
      rw open_tag (bridge_isolation enc l.hub c.tag tag 0 0 [] m).2,
    )
