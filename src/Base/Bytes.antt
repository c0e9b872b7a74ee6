-- ===== src/Base/Bytes.antt =====
-- Conversions of the C integer types, as wrap-around on native numbers.
use Prim.Native.Nat.{ℕ, ◌+◌, ◌-◌, ◌%◌, ◌^◌, ◌<◌}
use mathlib.Core.Path.{◌≡◌}
use native.Mathlib.Omega.{arith}
use osassignment_hk.Base.Tests.{ltb, ◌==◌, if◌then◌else◌}
use osassignment_hk.Base.Partial.{Outcome, ok, fault}

-- A BYTE is a signed char, kept as its pattern below 256. As an int or a uint32_t it is extended by
-- its sign.
unfoldable pub extend_byte : ℕ → ℕ
extend_byte b = if ltb b 128 then b else b + (2 ^ 32 - 2 ^ 8)

-- The conversion of a uint32_t or an int to BYTE.
abbrev pub to_byte : ℕ → ℕ
to_byte w = w % 2 ^ 8

pub to_byte-extend_byte : (b : ℕ) → b < 2 ^ 8 → to_byte (extend_byte b) ≡ b
unfolding extend_byte
to_byte-extend_byte b h = ground arith

-- The conversion of an unsigned long, or of a uint32_t, to int. An int is kept as the unsigned long to
-- which it converts: below 2 ^ 31, or from 2 ^ 64 - 2 ^ 31 on if it is negative.
unfoldable pub as_int : ℕ → ℕ
as_int n = if ltb (n % 2 ^ 32) (2 ^ 31) then n % 2 ^ 32 else n % 2 ^ 32 + (2 ^ 64 - 2 ^ 32)

-- The sum of two numbers of type int, or a fault if it overflows.
unfoldable pub add_int : ℕ → ℕ → Outcome ℕ
unfolding as_int
add_int a b = let sum = (a + b) % 2 ^ 64 in if sum == as_int sum then ok sum else fault

pub as_int_small : (n : ℕ) → n < 2 ^ 31 → as_int n ≡ n
unfolding as_int
as_int_small n small = ground arith

pub add_int_small : (a b : ℕ) → a + b < 2 ^ 31 → add_int a b ≡ ok (a + b)
unfolding add_int as_int
add_int_small a b small = ground arith
