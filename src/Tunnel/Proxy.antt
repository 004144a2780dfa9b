-- ===== src/Tunnel/Proxy.antt =====
-- app/src/tunnel_proxy.cpp: the local listener for one target, and one bridge object for each
-- operator connection. The two callbacks that a bridge object gives to the hub are named by its
-- channel. A listener and the hub make up the state; log lines are effects.
pub mod Connections
use grace_server.Base.{
  ℕ, ◌+◌, Bool, true, false, not, ◌&&◌, Option, none, some, List, [], ◌∷◌, ◌++◌, length, ◌==◌,
  if◌then◌else◌, Bytes, codes, is_empty, to_string,
}
use grace_server.Base.Dict.{Dict, lookup, insert, erase, is_some}
use grace_server.Base.Keys.{num_key}
use grace_server.Tunnel.Hub.Messages.{Encoding}
use grace_server.Tunnel.Hub.{Hub, Effect, open_bridge, from_operator, close_from_operator}

-- `tunnel_bridge`: its `m_fd` and `m_tag`.
pub record BridgeConn : Type 0 where
  pub fd : ℕ
  pub tag : ℕ

-- `tunnel_gnmi_listener`, with the hub that is one for the process.
pub record Listener : Type 0 where
  pub target : Bytes
  pub conns : Dict ℕ BridgeConn
  pub hub : Hub

pub data Output : Type 0 where
  hub_does : Effect → Output
  log : Bytes → Output

abbrev pub outputs : List Effect → List Output
outputs [] = []
outputs (e ∷ es) = hub_does e ∷ outputs es

-- `std::int32_t` results: 0 or a count, and -1.
pub data Status : Type 0 where
  done : ℕ → Status
  refused : Status

abbrev refused_line : Bytes → Bytes
refused_line target = codes "[tun] refused: target '" ++ target ++ codes "' not connected"

-- The arrow has three bytes in UTF-8.
abbrev bridge_line : ℕ → Bytes → Bytes
bridge_line tag target =
    codes "[tun] bridge tag="
    ++ to_string tag
    ++ codes " "
    ++ (0xe2 ∷ 0x86 ∷ 0x92 ∷ [])
    ++ codes " '"
    ++ target
    ++ codes "'"

module _ (enc : Encoding) where
  -- The listener's `handle_connect`, with the bridge object's constructor.
  unfoldable pub handle_connect : Listener → ℕ → Listener × Status × List Output
  handle_connect l channel =
      let opened = open_bridge enc l.hub l.target (some channel) (some channel) in
      let tag = opened.1 in
      if tag == 0
      then (
        record l { hub = opened.0 },
        refused,
        outputs opened.2 ++ log (refused_line l.target) ∷ [],
      )
      else (
        record l {
          hub = opened.0;
          conns = insert channel (record { fd = channel; tag = tag }) l.conns;
        },
        done 0,
        outputs opened.2 ++ log (bridge_line tag l.target) ∷ [],
      )

  -- `tunnel_bridge::handle_read`.
  unfoldable pub handle_read :
      Listener → BridgeConn → Bytes → Bool → Listener × Status × List Output
  handle_read l c bytes dry_run =
      if dry_run
      then (l, done 0, [])
      else if not (c.tag == 0) && not (is_empty bytes)
      then (let r = from_operator enc l.hub c.tag bytes in
          (record l { hub = r.0 }, done (length bytes), outputs r.1))
      else (l, done (length bytes), [])

  -- The listener's `handle_close`: the number of entries erased.
  unfoldable pub listener_close : Listener → ℕ → Listener × Status
  listener_close l channel = (
    record l { conns = erase channel l.conns },
    done (if is_some (lookup channel l.conns) then 1 else 0),
  )

  -- `tunnel_bridge::handle_close`: the hub first, then the listener, which destroys the bridge.
  unfoldable pub bridge_close : Listener → BridgeConn → ℕ → Listener × Status × List Output
  unfolding listener_close
  bridge_close l c channel =
      if not (c.tag == 0)
      then (let r = close_from_operator enc l.hub c.tag in
          ((listener_close (record l { hub = r.0 }) channel).0, done 0, outputs r.1))
      else ((listener_close l channel).0, done 0, [])

  -- What the second callback does when the hub calls it: the listener drops the connection.
  unfoldable pub on_close_operator : Listener → ℕ → Listener
  unfolding listener_close
  on_close_operator l fd = (listener_close l fd).0
