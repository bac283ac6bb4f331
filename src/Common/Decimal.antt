-- ===== src/Common/Decimal.antt =====
-- `std::to_string` of an unsigned number, and `operator<<` on one: its decimal digits.
use Prim.Native.Nat.{ℕ, zero, suc, ◌+◌, ◌/◌, ◌%◌}
use mathlib.Core.List.{[], ◌∷◌, ◌++◌}
use c_modern.Common.Tests.{ltb, if◌then◌else◌}
use c_modern.Common.Text.{Bytes}

-- The fuel bounds the number of digits.
unfoldable pub decimal_of : ℕ → ℕ → Bytes
decimal_of zero n = []
decimal_of (suc fuel) n =
    let front = decimal_of fuel (n / 10) in
    if ltb n 10 then (b'0' + n) ∷ [] else front ++ (b'0' + n % 10) ∷ []

unfoldable pub decimal : ℕ → Bytes
unfolding decimal_of
decimal n = decimal_of (suc n) n
