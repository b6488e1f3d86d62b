-- ===== src/Base/Words.antt =====
-- uint64_t and uint32_t values are natural numbers; an operation that can wrap says so by `%`.
use Prim.Native.Nat.{ℕ, ◌+◌, ◌-◌, ◌*◌, ◌%◌, ◌^◌, ◌<◌, min}
use mathlib.Core.Path.{◌≡◌}
use native.Mathlib.Omega.{arith}
use account_services.Base.Tests.{ltb, if◌then◌else◌}

abbrev pub u32_mod : ℕ
u32_mod = 2 ^ 32

abbrev pub u64_mod : ℕ
u64_mod = 2 ^ 64

abbrev pub u32_max : ℕ
u32_max = 2 ^ 32 - 1

abbrev pub u128_mod : ℕ
u128_mod = 2 ^ 128

abbrev pub u64_max : ℕ
u64_max = 2 ^ 64 - 1

-- uint64_t a + b and a - b
abbrev pub add64 : ℕ → ℕ → ℕ
add64 a b = (a + b) % u64_mod

abbrev pub sub64 : ℕ → ℕ → ℕ
sub64 a b = (a + u64_mod - b) % u64_mod

abbrev pub mul64 : ℕ → ℕ → ℕ
mul64 a b = (a * b) % u64_mod

-- uint32_t a + b
abbrev pub add32 : ℕ → ℕ → ℕ
add32 a b = (a + b) % u32_mod

-- saturating_add of src/order/order_book.cpp
unfoldable pub saturating_add : ℕ → ℕ → ℕ
saturating_add lhs rhs = if ltb (u64_max - rhs) lhs then u64_max else add64 lhs rhs

-- On 64-bit values it is the sum, cut at the largest value.
pub saturating_add_lem :
    (a b : ℕ) → a < u64_mod → b < u64_mod → saturating_add a b ≡ min u64_max (a + b)
unfolding saturating_add
saturating_add_lem a b ha hb = ground arith

pub saturating_add-lt : (a b : ℕ) → saturating_add a b < u64_mod
unfolding saturating_add
saturating_add-lt a b = ground arith
