-- ===== src/Tunnel/Hub.antt =====
-- app/inc/tunnel_hub.hpp: the registered targets and the data bridges. A `grpc_session *` is a
-- number, and the callbacks to an operator's socket are named by its channel; an empty
-- `std::function` is `none`. What a call does to the outside is its list of effects, in order.
-- Tags count up from 1; their 32 bits are not exhausted. The protobuf encodings are parameters.
pub mod Messages
pub mod Table
pub mod Relay
pub mod Close
pub mod Registry
pub mod Flush
use grace_server.Base.{
  ℕ, suc, ◌+◌, Bool, true, false, not, ◌&&◌, Option, none, some, List, [], ◌∷◌, ◌++◌, map, length,
  ◌==◌, if◌then◌else◌, Bytes, is_empty, equal,
}
use grace_server.Base.Dict.{Dict, lookup, insert, erase, is_some, remove_if, select}
use grace_server.Base.Keys.{num_key, bytes_key}
use Messages.{Data, Session, Encoding}

-- `tunnel_hub::reg`.
pub record Reg : Type 0 where
  pub grpc : ℕ
  pub stream_id : ℕ
  pub type : Bytes
  pub since : ℕ

-- `tunnel_hub::bridge`; its two callbacks.
pub record Bridge : Type 0 where
  pub tag : ℕ
  pub target : Bytes
  pub to_operator : Option ℕ
  pub close_operator : Option ℕ
  pub tunnel_grpc : Option ℕ
  pub tunnel_sid : ℕ
  pub paired : Bool
  pub buffered : Bytes

pub record Hub : Type 0 where
  pub targets : Dict Bytes Reg
  pub ports : Dict Bytes ℕ
  pub bridges : Dict ℕ Bridge
  pub next_tag : ℕ

pub record TargetInfo : Type 0 where
  pub target : Bytes
  pub type : Bytes
  pub since : ℕ
  pub local_port : ℕ

-- `stream_send(grpc, sid, pb)`, and the calls of the operator's callbacks.
pub data Effect : Type 0 where
  stream_send : ℕ → ℕ → Bytes → Effect
  to_operator : ℕ → Bytes → Effect
  close_operator : ℕ → Effect

abbrev pub empty_hub : Hub
empty_hub = record { targets = []; ports = []; bridges = []; next_tag = 0 }

unfoldable pub add_target : Hub → Bytes → Bytes → ℕ → ℕ → ℕ → Hub
add_target h target type g sid now = record h {
  targets =
      insert target (record { grpc = g; stream_id = sid; type = type; since = now }) h.targets;
}

unfoldable pub remove_target : Hub → Bytes → Hub
remove_target h target = record h { targets = erase target h.targets }

unfoldable pub has : Hub → Bytes → Bool
has h target = is_some (lookup target h.targets)

unfoldable pub size : Hub → ℕ
size h = length h.targets

unfoldable pub set_listener_port : Hub → Bytes → ℕ → Hub
set_listener_port h target port = record h { ports = insert target port h.ports }

port_or_zero : Option ℕ → ℕ
port_or_zero none = 0
port_or_zero (some p) = p

unfoldable pub listener_port : Hub → Bytes → ℕ
unfolding port_or_zero
listener_port h target = port_or_zero (lookup target h.ports)

suggest : Dict Bytes ℕ → ℕ
suggest ((target, port) ∷ []) = port
suggest _ = 9339

unfoldable pub suggest_port : Hub → ℕ
unfolding suggest
suggest_port h = suggest h.ports

unfoldable pub snapshot : Hub → List TargetInfo
unfolding listener_port
snapshot h = map info h.targets
  where
    info : Bytes × Reg → TargetInfo
    info (target, r) = record {
      target = target;
      type = r.type;
      since = r.since;
      local_port = listener_port h target;
    }

-- The entries of `m_targets` that a stream registered.
abbrev pub owned_by : ℕ → Bytes × Reg → Bool
owned_by g (target, r) = r.grpc == g

abbrev pub bridges_to : Bytes → ℕ × Bridge → Bool
bridges_to target (tag, b) = equal b.target target

-- `if (co) co();`
abbrev pub call_close : Option ℕ → List Effect
call_close none = []
call_close (some op) = close_operator op ∷ []

unfoldable pub close_all : Dict ℕ Bridge → List Effect
close_all [] = []
close_all ((tag, b) ∷ bs) = call_close b.close_operator ++ close_all bs

-- The second loop of `remove_by_stream`: for each target that is gone, its bridges.
unfoldable pub drop_bridges : List Bytes → Dict ℕ Bridge → Dict ℕ Bridge × List Effect
unfolding close_all
drop_bridges [] bs = (bs, [])
drop_bridges (t ∷ gone) bs =
    let rest = drop_bridges gone (remove_if (bridges_to t) bs) in
    (rest.0, close_all (select (bridges_to t) bs) ++ rest.1)

abbrev pub names : Dict Bytes Reg → List Bytes
names = map λ e. e.0

unfoldable pub remove_by_stream : Hub → ℕ → Hub × List Bytes × List Effect
unfolding drop_bridges
remove_by_stream h g =
    let gone = names (select (owned_by g) h.targets) in
    let dropped = drop_bridges gone h.bridges in
    (record h { targets = remove_if (owned_by g) h.targets; bridges = dropped.0 }, gone, dropped.1)

module _ (enc : Encoding) where
  -- `send_data` and `send_close`.
  unfoldable pub send : Bridge → Data → List Effect
  send b d = elim b.tunnel_grpc [
    | none ↦ []
    | some g ↦ if b.paired then stream_send g b.tunnel_sid (enc.data_pb d) ∷ [] else []
  ]

  unfoldable pub send_data : Bridge → Bytes → List Effect
  unfolding send
  send_data b bytes = send b (record { tag = b.tag; bytes = bytes; close = false })

  unfoldable pub send_close : Bridge → List Effect
  unfolding send
  send_close b = send b (record { tag = b.tag; bytes = []; close = true })

  -- The tag, or 0 if the target is not connected.
  unfoldable pub open_bridge : Hub → Bytes → Option ℕ → Option ℕ → Hub × ℕ × List Effect
  open_bridge h target to_op close_op = elim (lookup target h.targets) [
    | none ↦ (h, 0, [])
    | some r ↦
        let tag = h.next_tag + 1 in
        let b : Bridge = record {
          tag = tag;
          target = target;
          to_operator = to_op;
          close_operator = close_op;
          tunnel_grpc = none;
          tunnel_sid = 0;
          paired = false;
          buffered = [];
        } in
        let s : Session = record { tag = tag; target = target; target_type = r.type } in
        (
          record h { bridges = insert tag b h.bridges; next_tag = tag },
          tag,
          stream_send r.grpc r.stream_id (enc.session_pb s) ∷ [],
        )
  ]

  -- The bridge that `pair_tunnel` leaves, and what it flushes.
  unfoldable pub pair : Bridge → ℕ → ℕ → Bridge × List Effect
  unfolding send_data
  pair b g sid =
      let p = record b { tunnel_grpc = some g; tunnel_sid = sid; paired = true } in
      if not (is_empty p.buffered)
      then (record p { buffered = [] }, send_data p p.buffered)
      else (p, [])

  unfoldable pub pair_tunnel : Hub → ℕ → ℕ → ℕ → Hub × List Effect
  unfolding pair
  pair_tunnel h tag g sid = elim (lookup tag h.bridges) [
    | none ↦ (h, [])
    | some b ↦ (record h { bridges = insert tag (pair b g sid).0 h.bridges }, (pair b g sid).1)
  ]

  unfoldable pub accept_bytes : Bridge → Bytes → Bridge × List Effect
  unfolding send_data
  accept_bytes b bytes =
      if not b.paired
      then (record b { buffered = b.buffered ++ bytes }, [])
      else (b, send_data b bytes)

  unfoldable pub from_operator : Hub → ℕ → Bytes → Hub × List Effect
  unfolding accept_bytes
  from_operator h tag bytes = elim (lookup tag h.bridges) [
    | none ↦ (h, [])
    | some b ↦ (
      record h { bridges = insert tag (accept_bytes b bytes).0 h.bridges },
      (accept_bytes b bytes).1,
    )
  ]

  unfoldable pub close_from_operator : Hub → ℕ → Hub × List Effect
  unfolding send_close
  close_from_operator h tag = elim (lookup tag h.bridges) [
    | none ↦ (h, [])
    | some b ↦ (record h { bridges = erase tag h.bridges }, if b.paired then send_close b else [])
  ]

abbrev write_operator : Option ℕ → Bytes → List Effect
write_operator none bytes = []
write_operator (some op) bytes = to_operator op bytes ∷ []

unfoldable pub from_device : Hub → ℕ → Bytes → List Effect
from_device h tag bytes = elim (lookup tag h.bridges) [
  | none ↦ []
  | some b ↦ write_operator b.to_operator bytes
]

unfoldable pub close_from_device : Hub → ℕ → Hub × List Effect
close_from_device h tag = elim (lookup tag h.bridges) [
  | none ↦ (h, [])
  | some b ↦ (record h { bridges = erase tag h.bridges }, call_close b.close_operator)
]
