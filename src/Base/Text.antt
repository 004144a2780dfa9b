-- ===== src/Base/Text.antt =====
-- Byte strings: a `std::string` is the list of its bytes, and a literal is the list of its codes.
use Prim.Native.Char.{code}
use Prim.Native.Nat.{ℕ}
use Prim.Native.String.{String}
use mathlib.Core.Bool.{Bool, true, false, ◌&&◌}
use mathlib.Core.List.{List, [], ◌∷◌, ◌++◌}
use mathlib.Core.Logic.{◌↔◌}
use mathlib.Core.Option.{Option, none, some}
use mathlib.Core.Path.{◌≡◌, refl}
use native.Mathlib.Omega.{arith}
use grace_server.Base.Tests.{◌==◌, if◌then◌else◌}

abbrev pub Bytes : Type 0
Bytes = List ℕ

abbrev pub codes : String → Bytes
codes String.[] = []
codes (String.◌∷◌ c s) = code c ∷ codes s

-- `a == b` on strings.
unfoldable pub equal : Bytes → Bytes → Bool
equal [] [] = true
equal (x ∷ xs) (y ∷ ys) = x == y && equal xs ys
equal _ _ = false

pub equal_iff : (s t : Bytes) → (equal s t ≡ true) ↔ (s ≡ t)
unfolding equal
equal_iff (c ∷ s) (d ∷ t) = ground (arith, equal_iff s t)
equal_iff _ _ = ground arith

-- `s.empty()`, of a string or a vector.
abbrev pub is_empty {ℓ} : {A : Type ℓ} → List A → Bool
is_empty [] = true
is_empty (x ∷ xs) = false

-- `s.rfind(p, 0) == 0`: `p` is a prefix of `s`.
unfoldable pub starts_with : Bytes → Bytes → Bool
starts_with s [] = true
starts_with [] (y ∷ ys) = false
starts_with (x ∷ xs) (y ∷ ys) = x == y && starts_with xs ys

pub starts_with_iff : (s p : Bytes) → (starts_with s p ≡ true) ↔ ((r : Bytes) × (s ≡ p ++ r))
unfolding starts_with
starts_with_iff s [] = (λ _. (s, refl), λ _. refl)
starts_with_iff [] (y ∷ ys) = (λ h. absurd (ground arith), λ h. ground arith)
starts_with_iff (x ∷ xs) (y ∷ ys) = (
  λ h. let (r, e) = (starts_with_iff xs ys).0 (ground arith) in (r, ground arith),
  λ h. ground (arith, (starts_with_iff xs ys).1 (h.0, ground arith)),
)

-- Splits at the first byte `c`: what stands before it and what stands after it.
unfoldable pub split_at : ℕ → Bytes → Option (Bytes × Bytes)
split_at c [] = none
split_at c (x ∷ xs) =
    if x == c
    then some ([], xs)
    else elim (split_at c xs) [ none ↦ none | some (a, b) ↦ some (x ∷ a, b) ]

-- Splits at the last byte that a test chooses.
unfoldable pub split_last : (ℕ → Bool) → Bytes → Option (Bytes × Bytes)
split_last t [] = none
split_last t (x ∷ xs) = elim (split_last t xs) [
  | some (before, after) ↦ some (x ∷ before, after)
  | none ↦ if t x then some ([], xs) else none
]
