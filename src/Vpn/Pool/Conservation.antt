-- ===== src/Vpn/Pool/Conservation.antt =====
-- The addresses of the pool, free and given out.
use mathlib.Core.List.{
  Perm, Mem, Nodup, perm_middle, Nodup-cons, Nodup-nil, mem-cons, not-mem-nil, mem-cons_self,
  mem-cons_of_mem, mem-append_left,
}
use mathlib.Core.List.Perm
use mathlib.Core.Logic.Or
use grace_server.Vpn.Pool.Filling.{range}
use grace_server.Base.{
  zero, suc, ◌+◌, append-nil, ℕ, ◌^◌, ◌<◌, ◌≡◌, refl, sym, subst, inl, inr, none, some, List, [],
  ◌∷◌, ◌++◌, arith, ltb, ◌==◌, Bool-cases, Option-cases,
}
use grace_server.Base.Dict.{Dict, lookup, erase}
use grace_server.Base.Distinct.{
  Distinct, values, insert-Distinct, erase-Distinct, values-insert, values-erase,
}
use grace_server.Base.Keys.{num_key}
use grace_server.Vpn.Pool.{
  Pool, Inet, set_insert, assign_address, release, channel_of, find_channel, to_u32,
}

abbrev pub owned : Pool → List ℕ
owned p = p.free ++ values p.assigned

-- A channel has one address, and an address one holder.
pub record IsPool (p : Pool) : Type 0 where
  pub keys : Distinct p.assigned
  pub once : Nodup (owned p)

pub data Event : Type 0 where
  assigns releases : ℕ → Event

abbrev pub step : Pool → Event → Pool
step p (assigns ch) = (assign_address p ch).0
step p (releases ch) = release p ch

abbrev pub run : Pool → List Event → Pool
run p [] = p
run p (e ∷ es) = run (step p e) es

-- An address is assigned to a channel that holds none, as a new connection's channel.
abbrev pub IsFresh : Pool → Event → Type 0
IsFresh p (assigns ch) = lookup ch p.assigned ≡ none
IsFresh p (releases ch) = Unit

abbrev pub AllFresh : Pool → List Event → Type 0
AllFresh p [] = Unit
AllFresh p (e ∷ es) = IsFresh p e × AllFresh (step p e) es

set_insert-perm : (a : ℕ) (xs : List ℕ) → ¬ Mem a xs → Perm (set_insert a xs) (a ∷ xs)
unfolding set_insert
set_insert-perm a [] n = Perm.rfl
set_insert-perm a (x ∷ xs) n = elim (Bool-cases (ltb a x)) [
  | inl l ↦ rw l Perm.rfl
  | inr l ↦ elim (Bool-cases (a == x)) [
    | inl e ↦ absurd (n (subst (λ y. Mem a (y ∷ xs)) (ground arith) mem-cons_self))
    | inr e ↦
        rw (l, e)
          (Perm.trans (Perm.cons x (set_insert-perm a xs (λ m. n (mem-cons_of_mem x m))))
            (Perm.swap a x xs))
  ]
]

pub assign_address_exhausted : (p : Pool) (ch : ℕ) → p.free ≡ [] → (assign_address p ch).0 ≡ p
unfolding assign_address
assign_address_exhausted p ch e = ground arith

assign_address-perm :
    (p : Pool) (free : List ℕ) (ch : ℕ)
    → p.free ≡ free
    → lookup ch p.assigned ≡ none
    → Perm (owned (assign_address p ch).0) (owned p)
unfolding assign_address
assign_address-perm p [] ch e h =
    subst (λ q. Perm (owned q) (owned p)) (sym (assign_address_exhausted p ch e)) Perm.rfl
assign_address-perm p (a ∷ rest) ch e h =
    rw (e, assign_address)
      (Perm.trans (Perm.append_left rest (values-insert ch a p.assigned h))
        (perm_middle rest (values p.assigned)))

assign_address-keys :
    (p : Pool) (free : List ℕ) (ch : ℕ)
    → p.free ≡ free
    → Distinct p.assigned
    → Distinct (assign_address p ch).0.assigned
unfolding assign_address
assign_address-keys p [] ch e d = rw (e, assign_address) d
assign_address-keys p (a ∷ rest) ch e d = rw (e, assign_address) (insert-Distinct ch a p.assigned d)

-- The address that a channel holds is not free.
held_not_free : (p : Pool) (ch a : ℕ) → IsPool p → lookup ch p.assigned ≡ some a → ¬ Mem a p.free
held_not_free p ch a v e m =
    let rest = values (erase ch p.assigned) in
    let moved =
      Perm.trans (Perm.append_left p.free (values-erase ch a p.assigned v.keys e))
        (perm_middle p.free rest) in
    (Nodup-cons.0 (Perm.nodup moved v.once)).0 (mem-append_left rest m)

release-perm : (p : Pool) (ch : ℕ) → IsPool p → Perm (owned (release p ch)) (owned p)
unfolding release
release-perm p ch v = elim (Option-cases (lookup ch p.assigned)) [
  | inl e ↦ rw (e, release) Perm.rfl
  | inr (a, e) ↦
      let rest = values (erase ch p.assigned) in
      rw (e, release)
        (Perm.trans (Perm.append_right rest (set_insert-perm a p.free (held_not_free p ch a v e))) (
          Perm.symm (
            Perm.trans (Perm.append_left p.free (values-erase ch a p.assigned v.keys e))
              (perm_middle p.free rest))))
]

release-keys : (p : Pool) (ch : ℕ) → Distinct p.assigned → Distinct (release p ch).assigned
unfolding release
release-keys p ch d = elim (Option-cases (lookup ch p.assigned)) [
  | inl e ↦ rw (e, release) d
  | inr (a, e) ↦ rw (e, release) (erase-Distinct ch p.assigned d)
]

step-perm : (p : Pool) (e : Event) → IsPool p → IsFresh p e → Perm (owned (step p e)) (owned p)
step-perm p (assigns ch) v f = assign_address-perm p p.free ch refl f
step-perm p (releases ch) v f = release-perm p ch v

pub step-IsPool : (p : Pool) (e : Event) → IsPool p → IsFresh p e → IsPool (step p e)
step-IsPool p (assigns ch) v f = record {
  keys = assign_address-keys p p.free ch refl v.keys;
  once = Perm.nodup (Perm.symm (step-perm p (assigns ch) v f)) v.once;
}
step-IsPool p (releases ch) v f = record {
  keys = release-keys p ch v.keys;
  once = Perm.nodup (Perm.symm (release-perm p ch v)) v.once;
}

-- From a well-formed pool, after any assignments to channels that hold no address and any releases,
-- the addresses that are free or held are those of the start, each once, and each channel holds at
-- most one.
pub run-owned :
    (p : Pool) (es : List Event)
    → IsPool p
    → AllFresh p es
    → Perm (owned (run p es)) (owned p) × IsPool (run p es)
run-owned p [] v f = (Perm.rfl, v)
run-owned p (e ∷ es) v (f, fs) =
    let (q, w) = run-owned (step p e) es (step-IsPool p e v f) fs in
    (Perm.trans q (step-perm p e v f), w)

value-mem : (ch a : ℕ) (m : Dict ℕ ℕ) → lookup ch m ≡ some a → Mem a (values m)
unfolding lookup
value-mem ch a [] e = absurd (cc e)
value-mem ch a ((j, b) ∷ m) e = elim (Bool-cases (j == ch)) [
  | inl q ↦ subst (λ x. Mem a (x ∷ values m)) (ground arith) mem-cons_self
  | inr q ↦ mem-cons_of_mem b (value-mem ch a m (ground arith))
]

channel_of-lookup :
    (ch a : ℕ) (m : Dict ℕ ℕ)
    → Distinct m
    → Nodup (values m)
    → lookup ch m ≡ some a
    → channel_of a m ≡ some ch
unfolding lookup channel_of
channel_of-lookup ch a [] d n e = absurd (cc e)
channel_of-lookup ch a ((j, b) ∷ m) (k, d) n e = elim (Bool-cases (j == ch)) [
  | inl q ↦ ground arith
  | inr q ↦
      let there : lookup ch m ≡ some a = unfold lookup in ground arith in
      elim (Bool-cases (b == a)) [
        | inl z ↦ absurd (
            (Nodup-cons.0 n).0
              (subst (λ x. Mem x (values m)) (ground arith) (value-mem ch a m there)))
        | inr z ↦ rw z (channel_of-lookup ch a m d (Nodup-cons.0 n).1 there)
      ]
]

-- In a well-formed pool, the channel found for the dotted form of a 32-bit address that a channel
-- holds is that channel.
pub find_channel-assigned :
    (inet : Inet) (p : Pool) (ch a : ℕ)
    → IsPool p
    → a < 2 ^ 32
    → lookup ch p.assigned ≡ some a
    → find_channel inet p (inet.ntop a) ≡ some ch
unfolding find_channel to_u32
find_channel-assigned inet p ch a v h e =
    rw (inet.pton-ntop a h)
      (channel_of-lookup ch a p.assigned v.keys (values-Nodup p.free (values p.assigned) v.once) e)
  where
    values-Nodup : (xs ys : List ℕ) → Nodup (xs ++ ys) → Nodup ys
    values-Nodup [] ys n = n
    values-Nodup (x ∷ xs) ys n = values-Nodup xs ys (Nodup-cons.0 n).1

range-below : (lo n a : ℕ) → a < lo → ¬ Mem a (range lo n)
range-below lo zero a h m = not-mem-nil m
range-below lo (suc n) a h m =
    Or.elim (λ x y. absurd x) (mem-cons.0 m) (λ e. omega arith)
      (range-below (lo + 1) n a (omega arith))

range-Nodup : (lo n : ℕ) → Nodup (range lo n)
range-Nodup lo zero = Nodup-nil
range-Nodup lo (suc n) =
    Nodup-cons.1 (range-below (lo + 1) n lo (omega arith), range-Nodup (lo + 1) n)

-- A pool as the constructor makes it is well formed.
pub range-IsPool : (lo n : ℕ) → IsPool (record { free = range lo n; assigned = [] })
range-IsPool lo n = record {
  keys = tt;
  once = subst Nodup (sym (append-nil (range lo n))) (range-Nodup lo n);
}
