-- ===== src/Pte/Laws.antt =====
-- What the operations on a page table entry do to its fields.
use osassignment_hk.Base.{◌↔◌, ℕ, ◌+◌, ◌*◌, ◌/◌, ◌%◌, ◌^◌, ◌<◌, ◌≡◌, true, arith}
use osassignment_hk.Bitops.{setbit, clrbit, setval}
use osassignment_hk.Bitops.Fields.{getval_lem, clrbit_lem, setbit_lem, setval_lem, masked}
use osassignment_hk.Pte.{
  present_mask, swapped_mask, swptyp_mask, page_present, pte_fpn, pte_swp, offst, pgn, pagesz,
  pte_set_fpn, pte_set_swap,
}
use osassignment_hk.Pte.Masks.{
  present-IsMask, swapped-IsMask, fpn-IsMask, swptyp-IsMask, swpoff-IsMask, offst-IsMask,
  pgn-IsMask,
}

pub pte_fpn_lem : (pte : ℕ) → pte_fpn pte ≡ pte % 2 ^ 13
unfolding pte_fpn
pte_fpn_lem pte = omega (arith, getval_lem fpn-IsMask pte)

pub pte_swp_lem : (pte : ℕ) → pte_swp pte ≡ pte / 2 ^ 5 % 2 ^ 21
unfolding pte_swp
pte_swp_lem pte = omega (arith, getval_lem swpoff-IsMask pte)

pub offst_lem : (x : ℕ) → offst x ≡ x % 2 ^ 8
unfolding offst
offst_lem x = omega (arith, getval_lem offst-IsMask x)

pub pgn_lem : (x : ℕ) → pgn x ≡ x / 2 ^ 8 % 2 ^ 14
unfolding pgn
pgn_lem x = omega (arith, getval_lem pgn-IsMask x)

-- An address of the 22 bits of the bus is its page number times the page size plus its offset.
pub pgn-offst : (x : ℕ) → x < 2 ^ 22 → pgn x * pagesz + offst x ≡ x
pgn-offst x h = omega (arith, pgn_lem x, offst_lem x)

pub page_present_iff : (pte : ℕ) → (page_present pte ≡ true) ↔ (pte / 2 ^ 31 % 2 ≡ 1)
unfolding page_present
page_present_iff pte = ground (arith, masked present-IsMask pte)

-- The frame and the flags change, and the bits between them stay.
pub pte_set_fpn_parts :
    (pte fpn : ℕ)
    → pte < 2 ^ 32
    → pte_set_fpn pte fpn ≡ 2 ^ 31 + pte / 2 ^ 13 % 2 ^ 17 * 2 ^ 13 + fpn % 2 ^ 13
unfolding pte_set_fpn
pte_set_fpn_parts pte fpn h =
    let a = setbit pte present_mask in
    let a_parts = setbit_lem present-IsMask pte in
    let a_fits : a < 2 ^ 32 = omega arith in
    let b = clrbit a swapped_mask in
    let b_parts = clrbit_lem swapped-IsMask a a_fits in
    let b_fits : b < 2 ^ 32 = omega arith in
    let c_parts = setval_lem fpn-IsMask b fpn b_fits in omega (arith, a_parts, b_parts, c_parts)

pub pte_set_swap_parts :
    (pte swptyp swpoff : ℕ)
    → pte < 2 ^ 32
    → pte_set_swap pte swptyp swpoff
      ≡ 2 ^ 31 + 2 ^ 30 + pte / 2 ^ 26 % 2 ^ 4 * 2 ^ 26 + swpoff % 2 ^ 21 * 2 ^ 5 + swptyp % 2 ^ 5
unfolding pte_set_swap
pte_set_swap_parts pte swptyp swpoff h =
    let a = setbit pte present_mask in
    let a_parts = setbit_lem present-IsMask pte in
    let a_fits : a < 2 ^ 32 = omega arith in
    let b = setbit a swapped_mask in
    let b_parts = setbit_lem swapped-IsMask a in
    let b_fits : b < 2 ^ 32 = omega arith in
    let c = setval b swptyp swptyp_mask 0 in
    let c_parts = setval_lem swptyp-IsMask b swptyp b_fits in
    let c_fits : c < 2 ^ 32 = omega arith in
    let d_parts = setval_lem swpoff-IsMask c swpoff c_fits in
    omega (arith, a_parts, b_parts, c_parts, d_parts)

-- The entry `q` says that its page is in frame `fpn`, and the bits 13 to 29 are those of `pte`.
pub record Online (pte fpn q : ℕ) : Type 0 where
  pub fits : q < 2 ^ 32
  pub present : page_present q ≡ true
  pub not_swapped : q / 2 ^ 30 % 2 ≡ 0
  pub frame : pte_fpn q ≡ fpn
  pub kept : q / 2 ^ 13 % 2 ^ 17 ≡ pte / 2 ^ 13 % 2 ^ 17

-- For an entry of 32 bits and a frame number of 13, the entry that `pte_set_fpn` leaves is present
-- and not swapped, PAGING_PTE_FPN reads the frame number back, and the bits 13 to 29 are as they
-- were.
pub pte_set_fpn-Online :
    (pte fpn : ℕ) → pte < 2 ^ 32 → fpn < 2 ^ 13 → Online pte fpn (pte_set_fpn pte fpn)
pte_set_fpn-Online pte fpn h g =
    let parts = pte_set_fpn_parts pte fpn h in
    record {
      fits = omega arith;
      present = (page_present_iff (pte_set_fpn pte fpn)).1 (omega arith);
      not_swapped = omega arith;
      frame = omega (arith, pte_fpn_lem (pte_set_fpn pte fpn));
      kept = omega arith;
    }

-- What `pte_set_swap` has to leave; the entry still counts as present.
pub record Swapped (pte swptyp swpoff q : ℕ) : Type 0 where
  pub fits : q < 2 ^ 32
  pub still_present : page_present q ≡ true
  pub swapped : q / 2 ^ 30 % 2 ≡ 1
  pub offset : pte_swp q ≡ swpoff
  pub device : q % 2 ^ 5 ≡ swptyp
  pub kept : q / 2 ^ 26 % 2 ^ 4 ≡ pte / 2 ^ 26 % 2 ^ 4

-- For an entry of 32 bits, a swap type of 5 and a swap offset of 21, the entry that `pte_set_swap`
-- leaves is marked as swapped, PAGING_PTE_SWP reads the offset back, the low five bits are the
-- type, and the bits 26 to 29 are as they were. PAGING_PAGE_PRESENT stays true.
pub pte_set_swap-Swapped :
    (pte swptyp swpoff : ℕ)
    → pte < 2 ^ 32
    → swptyp < 2 ^ 5
    → swpoff < 2 ^ 21
    → Swapped pte swptyp swpoff (pte_set_swap pte swptyp swpoff)
pte_set_swap-Swapped pte swptyp swpoff h t o =
    let parts = pte_set_swap_parts pte swptyp swpoff h in
    record {
      fits = omega arith;
      still_present = (page_present_iff (pte_set_swap pte swptyp swpoff)).1 (omega arith);
      swapped = omega arith;
      offset = omega (arith, pte_swp_lem (pte_set_swap pte swptyp swpoff));
      device = omega arith;
      kept = omega arith;
    }

-- On an entry that `pte_set_swap` has marked as swapped (32 bits, a swap type of 5), PAGING_PTE_FPN
-- does not fail: it reads the low eight bits of the swap offset and the swap type as a frame
-- number.
pub pte_fpn-pte_set_swap :
    (pte swptyp swpoff : ℕ)
    → pte < 2 ^ 32
    → swptyp < 2 ^ 5
    → pte_fpn (pte_set_swap pte swptyp swpoff) ≡ swpoff % 2 ^ 8 * 2 ^ 5 + swptyp
pte_fpn-pte_set_swap pte swptyp swpoff h t =
    omega
      (arith, pte_set_swap_parts pte swptyp swpoff h, pte_fpn_lem (pte_set_swap pte swptyp swpoff))
