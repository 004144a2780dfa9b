-- ===== src/Base/Distinct.antt =====
-- Maps that hold each key once, and the values that they hold.
use mathlib.Core.List.{List, [], ◌∷◌, Perm}
use mathlib.Core.List.Perm
use mathlib.Core.Logic.{inl, inr}
use mathlib.Core.Option.{none, some}
use mathlib.Core.Path.{◌≡◌, refl, subst}
use native.Mathlib.Omega.{arith}
use grace_server.Base.Dict.{Dict, lookup, insert, erase, lookup-insert, lookup-erase}
use grace_server.Base.Keys.{Key}
use grace_server.Base.Tests.{Bool-cases}

abbrev pub values {ℓ κ} : {K : Type ℓ} {V : Type κ} → Dict K V → List V
values [] = []
values ((k, v) ∷ m) = v ∷ values m

module _ {ℓ κ} {K : Type ℓ} {V : Type κ} ⦃e : Key K⦄ where
  abbrev pub Distinct : Dict K V → Type κ
  Distinct [] = Unit
  Distinct ((k, v) ∷ m) = (lookup k m ≡ none) × Distinct m

  pub insert-Distinct : (k : K) (v : V) (m : Dict K V) → Distinct m → Distinct (insert k v m)
  unfolding insert
  insert-Distinct k v [] d = (unfold lookup in refl, tt)
  insert-Distinct k v ((j, w) ∷ m) (n, d) = elim (Bool-cases (e.beq j k)) [
    | inl q ↦ rw q (subst (λ i. lookup i m ≡ none) ((e.beq_iff j k).0 q) n, d)
    | inr q ↦ rw q (
      ground (arith, lookup-insert k j v m, e.beq_iff j k, e.beq_iff k j),
      insert-Distinct k v m d,
    )
  ]

  pub erase_absent : (k : K) (m : Dict K V) → lookup k m ≡ none → erase k m ≡ m
  unfolding lookup erase
  erase_absent k [] h = refl
  erase_absent k ((j, w) ∷ m) h = ground (arith, erase_absent k m)

  pub erase-Distinct : (k : K) (m : Dict K V) → Distinct m → Distinct (erase k m)
  unfolding erase
  erase-Distinct k [] d = d
  erase-Distinct k ((j, w) ∷ m) (n, d) = elim (Bool-cases (e.beq j k)) [
    | inl q ↦ rw q (erase-Distinct k m d)
    | inr q ↦ rw q (ground (arith, lookup-erase k j m), erase-Distinct k m d)
  ]

  -- A new key adds its value.
  pub values-insert :
      (k : K) (v : V) (m : Dict K V)
      → lookup k m ≡ none
      → Perm (values (insert k v m)) (v ∷ values m)
  unfolding lookup insert
  values-insert k v [] h = Perm.rfl
  values-insert k v ((j, w) ∷ m) h = elim (Bool-cases (e.beq j k)) [
    | inl q ↦ absurd (ground arith)
    | inr q ↦ rw q (Perm.trans (Perm.cons w (values-insert k v m (ground arith))) (Perm.swap v w _))
  ]

  -- A key that goes takes its value along.
  pub values-erase :
      (k : K) (v : V) (m : Dict K V)
      → Distinct m
      → lookup k m ≡ some v
      → Perm (values m) (v ∷ values (erase k m))
  unfolding lookup erase
  values-erase k v [] d h = absurd (cc h)
  values-erase k v ((j, w) ∷ m) (n, d) h = elim (Bool-cases (e.beq j k)) [
    | inl q ↦
        let gone = erase_absent k m (subst (λ i. lookup i m ≡ none) ((e.beq_iff j k).0 q) n) in
        rw (q, gone) (Perm.cons' (ground arith) Perm.rfl)
    | inr q ↦
        rw q (Perm.trans (Perm.cons w (values-erase k v m d (ground arith))) (Perm.swap v w _))
  ]
