-- ===== src/Base/Dict.antt =====
-- `std::map` and `std::unordered_map` as association lists. The program does not rely on the
-- order of an unordered map; here a new key goes to the end.
use mathlib.Core.Bool.{Bool, true, false}
use mathlib.Core.List.{List, [], ◌∷◌}
use mathlib.Core.Option.{Option, none, some}
use mathlib.Core.Logic.{◌≢◌}
use mathlib.Core.Path.{◌≡◌, refl}
use native.Mathlib.Omega.{arith}
use grace_server.Base.Keys.{Key, beq_refl}
use grace_server.Base.Tests.{if◌then◌else◌}

abbrev pub Dict {ℓ κ} : Type ℓ → Type κ → Type (ℓ ⊔ κ)
Dict K V = List (K × V)

abbrev pub is_some {ℓ} : {A : Type ℓ} → Option A → Bool
is_some none = false
is_some (some a) = true

module _ {ℓ κ} {K : Type ℓ} {V : Type κ} ⦃e : Key K⦄ where
  -- `m.find(k)`.
  unfoldable pub lookup : K → Dict K V → Option V
  lookup k [] = none
  lookup k ((j, v) ∷ m) = if e.beq j k then some v else lookup k m

  -- `m[k] = v`.
  unfoldable pub insert : K → V → Dict K V → Dict K V
  insert k v [] = (k, v) ∷ []
  insert k v ((j, w) ∷ m) = if e.beq j k then (k, v) ∷ m else (j, w) ∷ insert k v m

  -- `m.erase(k)`.
  unfoldable pub erase : K → Dict K V → Dict K V
  erase k [] = []
  erase k ((j, w) ∷ m) = if e.beq j k then erase k m else (j, w) ∷ erase k m

  pub lookup-insert :
      (k j : K) (v : V) (m : Dict K V)
      → lookup j (insert k v m) ≡ (if e.beq k j then some v else lookup j m)
  unfolding lookup insert
  lookup-insert k j v [] = refl
  lookup-insert k j v ((i, w) ∷ m) =
      ground (arith, e.beq_iff k j, e.beq_iff i k, e.beq_iff i j, lookup-insert k j v m)

  pub lookup-erase :
      (k j : K) (m : Dict K V) → lookup j (erase k m) ≡ (if e.beq k j then none else lookup j m)
  unfolding lookup erase
  lookup-erase k j [] = ground arith
  lookup-erase k j ((i, w) ∷ m) =
      ground (arith, e.beq_iff k j, e.beq_iff i k, e.beq_iff i j, lookup-erase k j m)

module _ {ℓ κ} {K : Type ℓ} {V : Type κ} ⦃e : Key K⦄ where
  pub lookup-insert_self : (k : K) (v : V) (m : Dict K V) → lookup k (insert k v m) ≡ some v
  lookup-insert_self k v m = rw (lookup-insert k k v m, beq_refl k)

  pub lookup-insert_ne :
      (k j : K) (v : V) (m : Dict K V) → k ≢ j → lookup j (insert k v m) ≡ lookup j m
  lookup-insert_ne k j v m n = ground (arith, lookup-insert k j v m, e.beq_iff k j)

  pub lookup-erase_self : (k : K) (m : Dict K V) → lookup k (erase k m) ≡ none
  lookup-erase_self k m = rw (lookup-erase k k m, beq_refl k)

  pub lookup-erase_ne : (k j : K) (m : Dict K V) → k ≢ j → lookup j (erase k m) ≡ lookup j m
  lookup-erase_ne k j m n = ground (arith, lookup-erase k j m, e.beq_iff k j)

-- `erase_if`: keeps the entries that the test does not choose.
unfoldable pub remove_if {ℓ} : {A : Type ℓ} → (A → Bool) → List A → List A
remove_if t [] = []
remove_if t (x ∷ xs) = if t x then remove_if t xs else x ∷ remove_if t xs

-- Those that it chooses.
unfoldable pub select {ℓ} : {A : Type ℓ} → (A → Bool) → List A → List A
select t [] = []
select t (x ∷ xs) = if t x then x ∷ select t xs else select t xs
