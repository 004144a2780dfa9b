-- ===== src/Tunnel/Hub/Table.antt =====
-- The table of bridges: its keys, and what a paired bridge has.
use grace_server.Base.{
  ℕ, ◌+◌, ◌≤◌, ◌<◌, ◌≡◌, refl, ◌⊎◌, inl, inr, true, false, Option, none, some, List, [], ◌∷◌, ◌++◌,
  arith, Bytes, Option-cases, Bool-cases, is_empty,
}
use grace_server.Base.Dict.{Dict, lookup, is_some, select, lookup-insert_self}
use grace_server.Base.Every.{
  All, All-remove_if, All-map_to, All-insert, All-erase, All-lookup, All-lookup-none,
}
use grace_server.Base.Keys.{num_key, bytes_key}
use grace_server.Tunnel.Hub.Messages.{Encoding}
use grace_server.Tunnel.Hub.{
  Hub, Bridge, Effect, add_target, remove_target, set_listener_port, open_bridge, pair, pair_tunnel,
  accept_bytes, from_operator, from_device, close_from_operator, close_from_device,
  remove_by_stream, drop_bridges, bridges_to, names, owned_by,
}

-- The calls of the hub that change it.
pub data Call : Type 0 where
  adds : Bytes → Bytes → ℕ → ℕ → ℕ → Call
  removes : Bytes → Call
  removes_stream : ℕ → Call
  sets_port : Bytes → ℕ → Call
  opens : Bytes → Option ℕ → Option ℕ → Call
  pairs : ℕ → ℕ → ℕ → Call
  operator_sends : ℕ → Bytes → Call
  device_sends : ℕ → Bytes → Call
  operator_closes device_closes : ℕ → Call

-- The hub behind a call, and the effects.
unfoldable pub step : Encoding → Hub → Call → Hub × List Effect
step enc h (adds target type g sid now) = (add_target h target type g sid now, [])
step enc h (removes target) = (remove_target h target, [])
step enc h (removes_stream g) = ((remove_by_stream h g).0, (remove_by_stream h g).2)
step enc h (sets_port target port) = (set_listener_port h target port, [])
step enc h (opens target to_op close_op) =
    ((open_bridge enc h target to_op close_op).0, (open_bridge enc h target to_op close_op).2)
step enc h (pairs tag g sid) = pair_tunnel enc h tag g sid
step enc h (operator_sends tag bytes) = from_operator enc h tag bytes
step enc h (device_sends tag bytes) = (h, from_device h tag bytes)
step enc h (operator_closes tag) = close_from_operator enc h tag
step enc h (device_closes tag) = close_from_device h tag

-- Calls in turn, and the effects of all of them.
unfoldable pub run : Encoding → Hub → List Call → Hub × List Effect
run enc h [] = (h, [])
run enc h (c ∷ cs) =
    ((run enc (step enc h c).0 cs).0, (step enc h c).1 ++ (run enc (step enc h c).0 cs).1)

-- A bridge that is paired has a stream, and has flushed what it had buffered.
abbrev pub IsLinked : Bridge → Type 0
IsLinked b = (b.paired ≡ false) ⊎ ((b.buffered ≡ []) × (is_some b.tunnel_grpc ≡ true))

abbrev pub Good : ℕ → ℕ × Bridge → Type 0
Good n (k, b) = (b.tag ≡ k) × (0 < k) × (k ≤ n) × IsLinked b

abbrev pub IsWf : Hub → Type 0
IsWf h = All (Good h.next_tag) h.bridges

Good-mono : (n : ℕ) (e : ℕ × Bridge) → Good n e → Good (n + 1) e
Good-mono n (k, b) (t, p, l, k') = (t, p, omega arith, k')

Good-pair :
    (enc : Encoding) (n k : ℕ) (b : Bridge) (g sid : ℕ)
    → Good n (k, b)
    → Good n (k, (pair enc b g sid).0)
unfolding pair
Good-pair enc n k b g sid (t, p, l, _) = elim (Bool-cases (is_empty b.buffered)) [
  | inl e ↦ rw e (t, p, l, inr (ground arith, refl))
  | inr e ↦ rw e (t, p, l, inr (refl, refl))
]

Good-accept_bytes :
    (enc : Encoding) (n k : ℕ) (b : Bridge) (bytes : Bytes)
    → Good n (k, b)
    → Good n (k, (accept_bytes enc b bytes).0)
unfolding accept_bytes
Good-accept_bytes enc n k b bytes (t, p, l, s) = ground arith

drop_bridges-All :
    (n : ℕ) (gone : List Bytes) (bs : Dict ℕ Bridge)
    → All (Good n) bs
    → All (Good n) (drop_bridges gone bs).0
unfolding drop_bridges
drop_bridges-All n [] bs a = a
drop_bridges-All n (t ∷ gone) bs a =
    drop_bridges-All n gone _ (All-remove_if (Good n) (bridges_to t) bs a)

open_bridge-IsWf :
    (enc : Encoding) (h : Hub) (target : Bytes) (to_op close_op : Option ℕ)
    → IsWf h
    → IsWf (open_bridge enc h target to_op close_op).0
unfolding open_bridge
open_bridge-IsWf enc h target to_op close_op w = elim (Option-cases (lookup target h.targets)) [
  | inl e ↦ rw (e, open_bridge) w
  | inr (r, e) ↦
      rw (e, open_bridge)
        (All-insert (Good (h.next_tag + 1)) _ _ h.bridges (refl, omega arith, omega arith, inl refl)
          (All-map_to (Good h.next_tag) (Good (h.next_tag + 1)) (Good-mono h.next_tag) h.bridges w))
]

pair_tunnel-IsWf :
    (enc : Encoding) (h : Hub) (tag g sid : ℕ) → IsWf h → IsWf (pair_tunnel enc h tag g sid).0
unfolding pair_tunnel
pair_tunnel-IsWf enc h tag g sid w = elim (Option-cases (lookup tag h.bridges)) [
  | inl e ↦ rw (e, pair_tunnel) w
  | inr (b, e) ↦
      rw (e, pair_tunnel)
        (All-insert (Good h.next_tag) _ _ h.bridges
          (Good-pair enc h.next_tag tag b g sid (All-lookup (Good h.next_tag) tag b h.bridges e w))
          w)
]

from_operator-IsWf :
    (enc : Encoding) (h : Hub) (tag : ℕ) (bytes : Bytes)
    → IsWf h
    → IsWf (from_operator enc h tag bytes).0
unfolding from_operator
from_operator-IsWf enc h tag bytes w = elim (Option-cases (lookup tag h.bridges)) [
  | inl e ↦ rw (e, from_operator) w
  | inr (b, e) ↦
      rw (e, from_operator)
        (All-insert (Good h.next_tag) _ _ h.bridges
          (Good-accept_bytes enc h.next_tag tag b bytes
            (All-lookup (Good h.next_tag) tag b h.bridges e w))
          w)
]

close_from_operator-IsWf :
    (enc : Encoding) (h : Hub) (tag : ℕ) → IsWf h → IsWf (close_from_operator enc h tag).0
unfolding close_from_operator
close_from_operator-IsWf enc h tag w = elim (Option-cases (lookup tag h.bridges)) [
  | inl e ↦ rw (e, close_from_operator) w
  | inr (b, e) ↦ rw (e, close_from_operator) (All-erase (Good h.next_tag) tag h.bridges w)
]

close_from_device-IsWf : (h : Hub) (tag : ℕ) → IsWf h → IsWf (close_from_device h tag).0
unfolding close_from_device
close_from_device-IsWf h tag w = elim (Option-cases (lookup tag h.bridges)) [
  | inl e ↦ rw (e, close_from_device) w
  | inr (b, e) ↦ rw (e, close_from_device) (All-erase (Good h.next_tag) tag h.bridges w)
]

remove_by_stream-IsWf : (h : Hub) (g : ℕ) → IsWf h → IsWf (remove_by_stream h g).0
unfolding remove_by_stream
remove_by_stream-IsWf h g w =
    drop_bridges-All h.next_tag (names (select (owned_by g) h.targets)) h.bridges w

step-IsWf : (enc : Encoding) (h : Hub) (c : Call) → IsWf h → IsWf (step enc h c).0
unfolding step add_target remove_target set_listener_port
step-IsWf enc h (adds target type g sid now) w = w
step-IsWf enc h (removes target) w = w
step-IsWf enc h (removes_stream g) w = remove_by_stream-IsWf h g w
step-IsWf enc h (sets_port target port) w = w
step-IsWf enc h (opens target to_op close_op) w = open_bridge-IsWf enc h target to_op close_op w
step-IsWf enc h (pairs tag g sid) w = pair_tunnel-IsWf enc h tag g sid w
step-IsWf enc h (operator_sends tag bytes) w = from_operator-IsWf enc h tag bytes w
step-IsWf enc h (device_sends tag bytes) w = w
step-IsWf enc h (operator_closes tag) w = close_from_operator-IsWf enc h tag w
step-IsWf enc h (device_closes tag) w = close_from_device-IsWf h tag w

-- After any calls, from a well-formed hub such as the empty one, each bridge stands under its own
-- tag, tags lie between 1 and the last one given out, and a paired bridge has its stream and
-- nothing left in its buffer.
pub run-IsWf : (enc : Encoding) (h : Hub) (cs : List Call) → IsWf h → IsWf (run enc h cs).0
unfolding run
run-IsWf enc h [] w = w
run-IsWf enc h (c ∷ cs) w = run-IsWf enc (step enc h c).0 cs (step-IsWf enc h c w)

-- In a well-formed hub, `open_bridge` answers 0 exactly if the target is not connected, and then
-- changes nothing. Otherwise its tag is new: no bridge had it, and the bridge under it waits to be
-- paired.
pub open_bridge_fresh :
    (enc : Encoding) (h : Hub) (target : Bytes) (to_op close_op : Option ℕ)
    → IsWf h
    → ((lookup target h.targets ≡ none) × (open_bridge enc h target to_op close_op ≡ (h, 0, [])))
      ⊎ ((0 < (open_bridge enc h target to_op close_op).1)
          × (lookup (open_bridge enc h target to_op close_op).1 h.bridges ≡ none)
          × (lookup
                (open_bridge enc h target to_op close_op).1
                (open_bridge enc h target to_op close_op).0.bridges
              ≡ some (record {
                tag = (open_bridge enc h target to_op close_op).1;
                target = target;
                to_operator = to_op;
                close_operator = close_op;
                tunnel_grpc = none;
                tunnel_sid = 0;
                paired = false;
                buffered = [];
              })))
unfolding open_bridge
open_bridge_fresh enc h target to_op close_op w = elim (Option-cases (lookup target h.targets)) [
  | inl e ↦ rw (e, open_bridge) (inl (refl, refl))
  | inr (r, e) ↦
      let fresh =
        All-lookup-none (Good h.next_tag) (h.next_tag + 1) h.bridges (λ v g. omega arith) w in
      rw (e, open_bridge)
        (inr (omega arith, fresh, lookup-insert_self (h.next_tag + 1) _ h.bridges))
]
