-- ===== src/Bitops/Nbits.antt =====
-- NBITS gives the place of the highest bit of a word, the whole part of its binary logarithm.
use native.Mathlib.Nat.{pow-suc}
use osassignment_hk.Base.{
  ℕ, zero, suc, ◌+◌, ◌*◌, ◌/◌, ◌^◌, ◌≤◌, ◌<◌, ◌≡◌, ◌≢◌, ap, false, ◌==◌, ==_iff, if◌then◌else◌,
  Bool-cases, inl, inr, bit_and, arith,
}
use osassignment_hk.Base.Bits.{two_pow_pos}
use osassignment_hk.Bitops.{shr, nbits2, nbits4, nbits8, nbits16, nbits32, nbits}
use osassignment_hk.Bitops.Fields.{bit_and-field}

-- `k` is the place of the highest bit of `n`.
abbrev pub Highest : ℕ → ℕ → Type 0
Highest n k = (2 ^ k ≤ n) × (n < 2 ^ k * 2)

pow_add : (j k : ℕ) → 2 ^ (j + k) ≡ 2 ^ j * 2 ^ k
pow_add zero k = let e : 0 + k ≡ k = omega arith in rw e (omega arith)
pow_add (suc j) k =
    let e : suc j + k ≡ suc (j + k) = omega arith in
    rw (e, pow-suc 2 (j + k), pow-suc 2 j) (omega (arith, ap (λ (t : ℕ). t * 2) (pow_add j k)))

above : (p n t : ℕ) → 0 < p → t ≤ n / p → p * t ≤ n
above p n t h le = grind arith

below : (p n t : ℕ) → 0 < p → n / p < t → n < p * t
below p n t h lt = grind arith

Highest-shift : (j n k : ℕ) → Highest (n / 2 ^ j) k → Highest n (j + k)
Highest-shift j n k (lo, hi) =
    let p = 2 ^ j in
    rw (pow_add j k) (
      above p n (2 ^ k) (two_pow_pos j) lo,
      omega (arith, below p n (2 ^ k * 2) (two_pow_pos j) hi),
    )

nbits2-Highest : (n : ℕ) → 0 < n → n < 2 ^ 2 → Highest n (nbits2 n)
unfolding nbits2
nbits2-Highest n pos lt = elim (Bool-cases (bit_and n 2 == 0)) [
  | inl z ↦ rw z (omega (arith, bit_and-field 1 1 n, (==_iff _ _).0 z))
  | inr nz ↦
      let some_bit : bit_and n 2 ≢ 0 = ground arith in
      rw nz (omega (arith, bit_and-field 1 1 n, some_bit))
]

module _ (w mask n : ℕ) (f : ℕ → ℕ) where
  -- One round: look at the upper half of `n`, or at the lower one if the upper one is zero.
  halve-Highest :
      ((m : ℕ) → 0 < m → m < 2 ^ w → Highest m (f m))
      → (bit_and n mask ≡ 0 → n < 2 ^ w)
      → (bit_and n mask ≢ 0 → 0 < n / 2 ^ w)
      → n / 2 ^ w < 2 ^ w
      → 0 < n
      → Highest n (if bit_and n mask == 0 then f n else w + f (shr n w))
  halve-Highest half when_zero when_not top pos = elim (Bool-cases (bit_and n mask == 0)) [
    | inl z ↦ rw z (half n pos (when_zero ((==_iff _ _).0 z)))
    | inr nz ↦
        let some_bit : bit_and n mask ≢ 0 = ground arith in
        rw nz (Highest-shift w n (f (shr n w)) (half (n / 2 ^ w) (when_not some_bit) top))
  ]

nbits4-Highest : (n : ℕ) → 0 < n → n < 2 ^ 4 → Highest n (nbits4 n)
unfolding nbits4
nbits4-Highest n pos lt =
    halve-Highest 2 0xC n nbits2 nbits2-Highest (λ z. omega (arith, bit_and-field 2 2 n))
      (λ nz. omega (arith, bit_and-field 2 2 n)) (omega arith) pos

nbits8-Highest : (n : ℕ) → 0 < n → n < 2 ^ 8 → Highest n (nbits8 n)
unfolding nbits8
nbits8-Highest n pos lt =
    halve-Highest 4 0xF0 n nbits4 nbits4-Highest (λ z. omega (arith, bit_and-field 4 4 n))
      (λ nz. omega (arith, bit_and-field 4 4 n)) (omega arith) pos

nbits16-Highest : (n : ℕ) → 0 < n → n < 2 ^ 16 → Highest n (nbits16 n)
unfolding nbits16
nbits16-Highest n pos lt =
    halve-Highest 8 0xFF00 n nbits8 nbits8-Highest (λ z. omega (arith, bit_and-field 8 8 n))
      (λ nz. omega (arith, bit_and-field 8 8 n)) (omega arith) pos

nbits32-Highest : (n : ℕ) → 0 < n → n < 2 ^ 32 → Highest n (nbits32 n)
unfolding nbits32
nbits32-Highest n pos lt =
    halve-Highest 16 0xFFFF0000 n nbits16 nbits16-Highest
      (λ z. omega (arith, bit_and-field 16 16 n)) (λ nz. omega (arith, bit_and-field 16 16 n))
      (omega arith) pos

-- For a word of 32 bits other than 0, NBITS is the place of its highest bit, the whole part of its
-- binary logarithm.
pub nbits-Highest : (n : ℕ) → 0 < n → n < 2 ^ 32 → Highest n (nbits n)
unfolding nbits
nbits-Highest n pos lt =
    let positive : (n == 0) ≡ false = ground arith in rw positive (nbits32-Highest n pos lt)
