-- ===== src/Base/Word.antt =====
-- Unsigned machine integers as native numbers. A method takes the largest value of its type first:
-- `checked_add max_u64 a b` is `a.checked_add(b)` at u64. Values are kept below that bound by the
-- operations; `max_u256` serves U256, whose methods of these names behave as those of u64.
use Prim.Native.Nat.{ℕ, ◌+◌, ◌-◌, ◌*◌, ◌/◌, ◌^◌}
use mathlib.Core.Option.{Option, none, some}
use frontier.Base.Tests.{leb, ◌==◌, if◌then◌else◌}

abbrev pub max_u32 : ℕ
max_u32 = 4294967295

abbrev pub max_u64 : ℕ
max_u64 = 18446744073709551615

abbrev pub max_u128 : ℕ
max_u128 = 340282366920938463463374607431768211455

abbrev pub max_u256 : ℕ
max_u256 = 2 ^ 256 - 1

abbrev pub checked_add : ℕ → ℕ → ℕ → Option ℕ
checked_add top a b = if leb (a + b) top then some (a + b) else none

abbrev pub checked_mul : ℕ → ℕ → ℕ → Option ℕ
checked_mul top a b = if leb (a * b) top then some (a * b) else none

abbrev pub checked_sub : ℕ → ℕ → Option ℕ
checked_sub a b = if leb b a then some (a - b) else none

abbrev pub checked_div : ℕ → ℕ → Option ℕ
checked_div a b = if b == 0 then none else some (a / b)

abbrev pub saturating_add : ℕ → ℕ → ℕ → ℕ
saturating_add top a b = if leb (a + b) top then a + b else top

abbrev pub saturating_mul : ℕ → ℕ → ℕ → ℕ
saturating_mul top a b = if leb (a * b) top then a * b else top

abbrev pub saturating_sub : ℕ → ℕ → ℕ
saturating_sub a b = a - b

abbrev pub unwrap_or : Option ℕ → ℕ → ℕ
unwrap_or none d = d
unwrap_or (some a) d = a
