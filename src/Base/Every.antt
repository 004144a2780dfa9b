-- ===== src/Base/Every.antt =====
-- A predicate that holds of every item, and what the operations on maps keep of it.
use mathlib.Core.Bool.{Bool, false}
use mathlib.Core.List.{List, [], ◌∷◌, ◌++◌}
use mathlib.Core.Option.{none, some}
use mathlib.Core.Path.{◌≡◌, refl, subst}
use mathlib.Core.Logic.{inl, inr}
use native.Mathlib.Omega.{arith}
use grace_server.Base.Dict.{Dict, lookup, insert, erase, remove_if}
use grace_server.Base.Keys.{Key}
use grace_server.Base.Tests.{Bool-cases}

abbrev pub All {ℓ κ} : {A : Type ℓ} → (A → Type κ) → List A → Type κ
All P [] = Unit
All P (x ∷ xs) = P x × All P xs

module _ {ℓ κ} {A : Type ℓ} (P : A → Type κ) where
  pub All-append : (xs ys : List A) → All P xs → All P ys → All P (xs ++ ys)
  All-append [] ys h k = k
  All-append (x ∷ xs) ys h k = (h.0, All-append xs ys h.1 k)

  pub All-remove_if : (t : A → Bool) (xs : List A) → All P xs → All P (remove_if t xs)
  unfolding remove_if
  All-remove_if t [] h = h
  All-remove_if t (x ∷ xs) h = elim (Bool-cases (t x)) [
    | inl e ↦ rw e (All-remove_if t xs h.1)
    | inr e ↦ rw e (h.0, All-remove_if t xs h.1)
  ]

  pub All-map_to {λ'} :
      (Q : A → Type λ') → ((x : A) → P x → Q x) → (xs : List A) → All P xs → All Q xs
  All-map_to Q f [] h = tt
  All-map_to Q f (x ∷ xs) h = (f x h.0, All-map_to Q f xs h.1)

pub All-both {ℓ κ μ ν} :
    {A : Type ℓ} {P : A → Type κ} {Q : A → Type μ} (R : A → Type ν)
    → ((x : A) → P x → Q x → R x)
    → (xs : List A) → All P xs
    → All Q xs
    → All R xs
All-both R f [] h k = tt
All-both R f (x ∷ xs) h k = (f x h.0 k.0, All-both R f xs h.1 k.1)

pub All-intro {ℓ κ} : {A : Type ℓ} (P : A → Type κ) → ((x : A) → P x) → (xs : List A) → All P xs
All-intro P f [] = tt
All-intro P f (x ∷ xs) = (f x, All-intro P f xs)

-- None of the items that stay is chosen by the test.
pub remove_if-none {ℓ} :
    {A : Type ℓ} (t : A → Bool) (xs : List A) → All (λ x. t x ≡ false) (remove_if t xs)
unfolding remove_if
remove_if-none t [] = tt
remove_if-none t (x ∷ xs) = elim (Bool-cases (t x)) [
  | inl e ↦ rw e (remove_if-none t xs)
  | inr e ↦ rw e (e, remove_if-none t xs)
]

module _ {ℓ κ μ} {K : Type ℓ} {V : Type κ} ⦃e : Key K⦄ (P : K × V → Type μ) where
  pub All-insert : (k : K) (v : V) (m : Dict K V) → P (k, v) → All P m → All P (insert k v m)
  unfolding insert
  All-insert k v [] p h = (p, tt)
  All-insert k v ((j, w) ∷ m) p h = elim (Bool-cases (e.beq j k)) [
    | inl q ↦ rw q (p, h.1)
    | inr q ↦ rw q (h.0, All-insert k v m p h.1)
  ]

  pub All-erase : (k : K) (m : Dict K V) → All P m → All P (erase k m)
  unfolding erase
  All-erase k [] h = h
  All-erase k ((j, w) ∷ m) h = elim (Bool-cases (e.beq j k)) [
    | inl q ↦ rw q (All-erase k m h.1)
    | inr q ↦ rw q (h.0, All-erase k m h.1)
  ]

  pub All-lookup : (k : K) (v : V) (m : Dict K V) → lookup k m ≡ some v → All P m → P (k, v)
  unfolding lookup
  All-lookup k v [] h a = absurd (cc h)
  All-lookup k v ((j, w) ∷ m) h a = elim (Bool-cases (e.beq j k)) [
    | inl q ↦
        let same : (j, w) ≡ (k, v) = ground (arith, (e.beq_iff j k).0 q, h) in subst P same a.0
    | inr q ↦ All-lookup k v m (ground arith) a.1
  ]

  -- A key that no entry may have is not found.
  pub All-lookup-none :
      (k : K) (m : Dict K V) → ((v : V) → P (k, v) → ⊥) → All P m → lookup k m ≡ none
  unfolding lookup
  All-lookup-none k [] n a = refl
  All-lookup-none k ((j, w) ∷ m) n a = elim (Bool-cases (e.beq j k)) [
    | inl q ↦ absurd (n w (subst (λ i. P (i, w)) ((e.beq_iff j k).0 q) a.0))
    | inr q ↦ rw q (All-lookup-none k m n a.1)
  ]
