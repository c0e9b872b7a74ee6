-- ===== src/Bitops.antt =====
-- include/bitops.h, and the operators on bit fields of include/mm.h. Words are of 32 bits.
pub mod Fields
pub mod Nbits
use osassignment_hk.Base.{ℕ, ◌+◌, ◌-◌, ◌*◌, ◌/◌, ◌%◌, ◌^◌, ◌==◌, if◌then◌else◌, bit_and, bit_or}

-- ~0U
abbrev pub all_ones : ℕ
all_ones = 2 ^ 32 - 1

-- ~mask
abbrev pub bit_not : ℕ → ℕ
bit_not mask = all_ones - mask

-- v << n
abbrev pub shl : ℕ → ℕ → ℕ
shl v n = v * 2 ^ n % 2 ^ 32

-- v >> n
abbrev pub shr : ℕ → ℕ → ℕ
shr v n = v / 2 ^ n

-- DIV_ROUND_UP
unfoldable pub div_round_up : ℕ → ℕ → ℕ
div_round_up n d = (n + d - 1) / d

-- BIT
unfoldable pub bit : ℕ → ℕ
bit nr = shl 1 nr

-- GENMASK, with BITS_PER_LONG 32
unfoldable pub genmask : ℕ → ℕ → ℕ
genmask h l = bit_and (shl all_ones l) (shr all_ones (32 - h - 1))

-- NBITS2 to NBITS32, and NBITS
unfoldable pub nbits2 : ℕ → ℕ
nbits2 n = if bit_and n 2 == 0 then 0 else 1

unfoldable pub nbits4 : ℕ → ℕ
unfolding nbits2
nbits4 n = if bit_and n 0xC == 0 then nbits2 n else 2 + nbits2 (shr n 2)

unfoldable pub nbits8 : ℕ → ℕ
unfolding nbits4
nbits8 n = if bit_and n 0xF0 == 0 then nbits4 n else 4 + nbits4 (shr n 4)

unfoldable pub nbits16 : ℕ → ℕ
unfolding nbits8
nbits16 n = if bit_and n 0xFF00 == 0 then nbits8 n else 8 + nbits8 (shr n 8)

unfoldable pub nbits32 : ℕ → ℕ
unfolding nbits16
nbits32 n = if bit_and n 0xFFFF0000 == 0 then nbits16 n else 16 + nbits16 (shr n 16)

unfoldable pub nbits : ℕ → ℕ
unfolding nbits32
nbits n = if n == 0 then 0 else nbits32 n

-- SETBIT, CLRBIT, SETVAL and GETVAL: the new value of `v`, or the field of `v`.
unfoldable pub setbit : ℕ → ℕ → ℕ
setbit v mask = bit_or v mask

unfoldable pub clrbit : ℕ → ℕ → ℕ
clrbit v mask = bit_and v (bit_not mask)

unfoldable pub setval : ℕ → ℕ → ℕ → ℕ → ℕ
setval v value mask offst = bit_or (bit_and v (bit_not mask)) (bit_and (shl value offst) mask)

unfoldable pub getval : ℕ → ℕ → ℕ → ℕ
getval v mask offst = shr (bit_and v mask) offst
