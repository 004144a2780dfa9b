-- ===== src/Base/Decimal.antt =====
-- `std::to_string` of a number that is not negative.
use Prim.Native.Nat.{ℕ, zero, suc, ◌+◌, ◌/◌, ◌%◌}
use mathlib.Core.List.{[], ◌∷◌, ◌++◌}
use grace_server.Base.Tests.{ltb, if◌then◌else◌}
use grace_server.Base.Text.{Bytes}

-- A number has at most as many digits as its value plus one.
unfoldable pub digits_fuel : ℕ → ℕ → Bytes
digits_fuel zero n = []
digits_fuel (suc fuel) n =
    let front = digits_fuel fuel (n / 10) in
    if ltb n 10 then (b'0' + n) ∷ [] else front ++ (b'0' + n % 10) ∷ []

unfoldable pub to_string : ℕ → Bytes
unfolding digits_fuel
to_string n = digits_fuel (suc n) n
