-- ===== src/Base/Decimal.antt =====
-- `%d` and `%lld` of printf: decimal text of an integer.
use Prim.Native.Nat.{ℕ, zero, suc, ◌+◌, ◌/◌, ◌%◌}
use mathlib.Core.List.{[], ◌∷◌, ◌++◌}
use emmbus2influx.Base.Int.{ℤ, pos, negsuc}
use emmbus2influx.Base.Tests.{ltb, if◌then◌else◌}
use emmbus2influx.Base.Texts.{Bytes}

unfoldable pub digits_fuel : ℕ → ℕ → Bytes
digits_fuel zero n = []
digits_fuel (suc fuel) n =
    let front = digits_fuel fuel (n / 10) in
    let last : Bytes = (b'0' + n % 10) ∷ [] in if ltb n 10 then last else front ++ last

unfoldable pub print_nat : ℕ → Bytes
unfolding digits_fuel
print_nat n = digits_fuel (suc n) n

unfoldable pub print_int : ℤ → Bytes
unfolding print_nat
print_int (pos n) = print_nat n
print_int (negsuc n) = b'-' ∷ print_nat (suc n)
