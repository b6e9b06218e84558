-- ===== src/Base/Words.antt =====
-- The machine integers: values are natural numbers, and checked arithmetic is written out.
use Prim.Native.Nat.{ℕ, ◌+◌, ◌-◌, ◌*◌}
use mathlib.Core.Option.{Option, none, some}
use xelis_wallet_flutter.Base.Tests.{leb, if◌then◌else◌}

abbrev pub u8_max : ℕ
u8_max = 255

abbrev pub u32_max : ℕ
u32_max = 4294967295

abbrev pub u64_max : ℕ
u64_max = 18446744073709551615

abbrev pub u128_max : ℕ
u128_max = 340282366920938463463374607431768211455

-- `value.checked_add(other)`, `checked_mul`, `checked_sub` and `try_from` at the width given by
-- its largest value.
abbrev pub fit : ℕ → ℕ → Option ℕ
fit max n = if leb n max then some n else none

abbrev pub checked_add : ℕ → ℕ → ℕ → Option ℕ
checked_add max a b = fit max (a + b)

abbrev pub checked_mul : ℕ → ℕ → ℕ → Option ℕ
checked_mul max a b = fit max (a * b)

abbrev pub checked_sub : ℕ → ℕ → Option ℕ
checked_sub a b = if leb b a then some (a - b) else none
