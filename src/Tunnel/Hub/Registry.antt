-- ===== src/Tunnel/Hub/Registry.antt =====
-- The hub's targets as a table from names to registrations.
use grace_server.Base.{
  ◌≡◌, refl, ap, ◌∙◌, subst, inl, inr, Bool, Option, none, some, List, [], ◌∷◌, Bytes, equal,
  if◌then◌else◌, Bool-cases, Option-cases,
}
use grace_server.Base.Dict.{Dict, lookup, remove_if, lookup-insert, lookup-erase}
use grace_server.Base.Distinct.{Distinct, insert-Distinct, erase-Distinct}
use grace_server.Base.Keys.{Key, num_key, bytes_key}
use grace_server.Tunnel.Hub.Messages.{Encoding}
use grace_server.Tunnel.Hub.{
  Hub, Reg, add_target, remove_target, remove_by_stream, owned_by, open_bridge, pair_tunnel,
  from_operator, close_from_operator, close_from_device, set_listener_port,
}
use grace_server.Tunnel.Hub.Table.{
  Call, adds, removes, removes_stream, sets_port, opens, pairs, operator_sends, device_sends,
  operator_closes, device_closes, step, run,
}

abbrev pub keep_unless {ℓ κ} : {K : Type ℓ} {V : Type κ} → (K × V → Bool) → K → Option V → Option V
keep_unless t k none = none
keep_unless t k (some v) = if t (k, v) then none else some v

module _ {ℓ κ} {K : Type ℓ} {V : Type κ} ⦃e : Key K⦄ (t : K × V → Bool) where
  lookup-remove_if :
      (k : K) (m : Dict K V) → Distinct m → lookup k (remove_if t m) ≡ keep_unless t k (lookup k m)
  unfolding lookup remove_if
  lookup-remove_if k [] d = refl
  lookup-remove_if k ((j, w) ∷ m) (n, d) = elim (Bool-cases (e.beq j k)) [
    | inl q ↦
        let same = (e.beq_iff j k).0 q in
        let absent : lookup k m ≡ none = subst (λ i. lookup i m ≡ none) same n in
        let t_same : t (j, w) ≡ t (k, w) = ap (λ i. t (i, w)) same in
        elim (Bool-cases (t (k, w))) [
          | inl p ↦ rw (q, t_same, p) (lookup-remove_if k m d ∙ ap (keep_unless t k) absent)
          | inr p ↦ rw (q, t_same, p, q) refl
        ]
    | inr q ↦ elim (Bool-cases (t (j, w))) [
      | inl p ↦ rw (q, p) (lookup-remove_if k m d)
      | inr p ↦ rw (q, p, q) (lookup-remove_if k m d)
    ]
  ]

  remove_if-Distinct : (m : Dict K V) → Distinct m → Distinct (remove_if t m)
  unfolding remove_if
  remove_if-Distinct [] d = d
  remove_if-Distinct ((j, w) ∷ m) (n, d) = elim (Bool-cases (t (j, w))) [
    | inl p ↦ rw p (remove_if-Distinct m d)
    | inr p ↦ rw p (lookup-remove_if j m d ∙ ap (keep_unless t j) n, remove_if-Distinct m d)
  ]

-- The abstract table.
abbrev pub Registry : Type 0
Registry = Bytes → Option Reg

-- The table that a hub stands for.
abbrev pub registry : Hub → Registry
registry h t = lookup t h.targets

-- What each call of the hub means for the table.
abbrev pub meaning : Call → Registry → Registry
meaning (adds target type g sid now) r t =
    if equal target t
    then some (record { grpc = g; stream_id = sid; type = type; since = now })
    else r t
meaning (removes target) r t = if equal target t then none else r t
meaning (removes_stream g) r t = keep_unless (owned_by g) t (r t)
meaning _ r t = r t

abbrev pub meaning_all : List Call → Registry → Registry
meaning_all [] r = r
meaning_all (c ∷ cs) r = meaning_all cs (meaning c r)

-- The calls about bridges leave the targets.
step-targets :
    (enc : Encoding) (h : Hub) (c : Call)
    → Distinct h.targets
    → Distinct (step enc h c).0.targets
      × ((t : Bytes) → registry (step enc h c).0 t ≡ meaning c (registry h) t)
unfolding step add_target remove_target remove_by_stream set_listener_port open_bridge pair_tunnel
    from_operator close_from_operator close_from_device
step-targets enc h (adds target type g sid now) d =
    (insert-Distinct target _ h.targets d, λ t. lookup-insert target t _ h.targets)
step-targets enc h (removes target) d =
    (erase-Distinct target h.targets d, λ t. lookup-erase target t h.targets)
step-targets enc h (removes_stream g) d =
    (remove_if-Distinct (owned_by g) h.targets d, λ t. lookup-remove_if (owned_by g) t h.targets d)
step-targets enc h (sets_port target port) d = (d, λ t. refl)
step-targets enc h (opens target to_op close_op) d = elim (Option-cases (lookup target h.targets)) [
  | inl e ↦ rw (e, open_bridge) (d, λ t. refl)
  | inr (r, e) ↦ rw (e, open_bridge) (d, λ t. refl)
]
step-targets enc h (pairs tag g sid) d = elim (Option-cases (lookup tag h.bridges)) [
  | inl e ↦ rw (e, pair_tunnel) (d, λ t. refl)
  | inr (b, e) ↦ rw (e, pair_tunnel) (d, λ t. refl)
]
step-targets enc h (operator_sends tag bytes) d = elim (Option-cases (lookup tag h.bridges)) [
  | inl e ↦ rw (e, from_operator) (d, λ t. refl)
  | inr (b, e) ↦ rw (e, from_operator) (d, λ t. refl)
]
step-targets enc h (device_sends tag bytes) d = (d, λ t. refl)
step-targets enc h (operator_closes tag) d = elim (Option-cases (lookup tag h.bridges)) [
  | inl e ↦ rw (e, close_from_operator) (d, λ t. refl)
  | inr (b, e) ↦ rw (e, close_from_operator) (d, λ t. refl)
]
step-targets enc h (device_closes tag) d = elim (Option-cases (lookup tag h.bridges)) [
  | inl e ↦ rw (e, close_from_device) (d, λ t. refl)
  | inr (b, e) ↦ rw (e, close_from_device) (d, λ t. refl)
]

-- The hub implements a table of targets: whatever calls are made of a hub that holds each name
-- once, such as the empty one, it still does, and it stands for the table that the calls'
-- meanings lead to, from the one that it stood for. There a new registration of a name replaces the
-- old one, the end of a stream takes exactly the names registered over it, and calls about bridges
-- and ports do nothing.
pub run_refines :
    (enc : Encoding) (h : Hub) (cs : List Call)
    → Distinct h.targets
    → Distinct (run enc h cs).0.targets × (registry (run enc h cs).0 ≡ meaning_all cs (registry h))
unfolding run
run_refines enc h [] d = (d, refl)
run_refines enc h (c ∷ cs) d =
    let (d', q) = step-targets enc h c d in
    let (d'', r) = run_refines enc (step enc h c).0 cs d' in
    (d'', r ∙ ap (meaning_all cs) (λ i t. q t i))
