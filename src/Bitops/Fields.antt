-- ===== src/Bitops/Fields.antt =====
-- A contiguous mask reads and writes a field of digits.
use osassignment_hk.Base.{
  ℕ, zero, suc, ◌+◌, ◌-◌, ◌*◌, ◌/◌, ◌%◌, ◌^◌, ◌≤◌, ◌<◌, ◌≡◌, refl, ap, ◌∙◌, Bool, true, ◌&&◌, ◌==◌,
  ==_iff, bit_and, arith,
}
use osassignment_hk.Base.Bits.{
  bit_and-ones, bit_and-shift, bit_and-complement, bit_and-disjoint, bit_or-add-bit_and,
}
use osassignment_hk.Bitops.{bit_not, shl, genmask, setbit, clrbit, setval, getval}

-- The `w` bits of `v` from bit `o` on, in their place.
abbrev pub field : ℕ → ℕ → ℕ → ℕ
field w o v = v / 2 ^ o % 2 ^ w * 2 ^ o

pub bit_and-field : (w o v : ℕ) → bit_and v ((2 ^ w - 1) * 2 ^ o) ≡ field w o v
bit_and-field w o v =
    bit_and-shift o v (2 ^ w - 1) ∙ ap (λ t. t * 2 ^ o) (bit_and-ones w (v / 2 ^ o))

-- `mask` is the mask of the `w` bits from bit `o` on, in a word.
pub record IsMask (w o mask : ℕ) : Type 0 where
  pub shape : mask ≡ (2 ^ w - 1) * 2 ^ o
  pub fits : mask < 2 ^ 32
  pub apart : bit_and (bit_not mask) mask ≡ 0

module _ {w o mask : ℕ} (m : IsMask w o mask) (v : ℕ) where
  pub masked : bit_and v mask ≡ field w o v
  masked = rw m.shape (bit_and-field w o v)

  pub getval_lem : getval v mask o ≡ field w o v / 2 ^ o
  unfolding getval
  getval_lem = ap (λ t. t / 2 ^ o) masked

  pub unmasked : v < 2 ^ 32 → bit_and v (bit_not mask) + field w o v ≡ v
  unmasked h = omega (arith, bit_and-complement 32 v mask h m.fits, masked)

  pub clrbit_lem : v < 2 ^ 32 → clrbit v mask + field w o v ≡ v
  unfolding clrbit
  clrbit_lem h = unmasked h

module _ {w o mask : ℕ} (m : IsMask w o mask) where
  pub setbit_lem : (v : ℕ) → setbit v mask + field w o v ≡ v + mask
  unfolding setbit
  setbit_lem v = omega (arith, bit_or-add-bit_and v mask, masked m v)

  -- The field becomes the low bits of the value, and the other bits stay.
  pub setval_lem :
      (v value : ℕ) → v < 2 ^ 32 → setval v value mask o + field w o v ≡ v + field w o (shl value o)
  unfolding setval
  setval_lem v value h = omega (
    arith,
    bit_or-add-bit_and (bit_and v (bit_not mask)) (bit_and (shl value o) mask),
    bit_and-disjoint v (shl value o) (bit_not mask) mask m.apart,
    unmasked m v h,
    masked m (shl value o),
  )

tested : (ℕ → Bool) → ℕ → Bool
tested test zero = true
tested test (suc limit) = tested test limit && test limit

tested_lem :
    (test : ℕ → Bool) (limit at : ℕ) → at < limit → tested test limit ≡ true → test at ≡ true
unfolding tested
tested_lem test zero at below whole = absurd (omega arith)
tested_lem test (suc limit) at below whole = ground (arith, tested_lem test limit at)

genmask_table :
    tested (λ h. tested (λ l. genmask h l == (2 ^ (h + 1 - l) - 1) * 2 ^ l) (h + 1)) 32 ≡ true
unfolding tested genmask
genmask_table = refl

-- For l ≤ h < 32, GENMASK(h, l) has the bits from l to h, both included, and no other.
pub genmask_lem : (h l : ℕ) → l ≤ h → h < 32 → genmask h l ≡ (2 ^ (h + 1 - l) - 1) * 2 ^ l
genmask_lem h l le lt =
    let row = tested_lem _ 32 h lt genmask_table in
    (==_iff _ _).0 (tested_lem _ (h + 1) l (omega arith) row)
