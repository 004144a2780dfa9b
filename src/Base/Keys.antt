-- ===== src/Base/Keys.antt =====
-- Types whose values a map can be keyed by.
use grace_server.Base.Text.{Bytes, equal, equal_iff}
use grace_server.Base.Tests.{◌==◌, ==_iff}
use Prim.Native.Nat.{ℕ}
use mathlib.Core.Bool.{Bool, true}
use mathlib.Core.Logic.{◌↔◌}
use mathlib.Core.Path.{◌≡◌, refl}

pub record Key {ℓ} (A : Type ℓ) : Type ℓ where
  pub beq : A → A → Bool
  pub beq_iff : (j k : A) → (beq j k ≡ true) ↔ (j ≡ k)

abbrev num_beq : ℕ → ℕ → Bool
num_beq a b = a == b

instance abbrev pub num_key : Key ℕ
num_key = record { beq = num_beq; beq_iff = ==_iff }

instance abbrev pub bytes_key : Key Bytes
bytes_key = record { beq = equal; beq_iff = equal_iff }

pub beq_refl {ℓ} : {A : Type ℓ} ⦃e : Key A⦄ (k : A) → e.beq k k ≡ true
beq_refl ⦃e⦄ k = (e.beq_iff k k).1 refl
