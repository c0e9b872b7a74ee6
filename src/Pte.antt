-- ===== src/Pte.antt =====
-- The page table entries: the masks and macros of include/mm.h, and `init_pte`, `pte_set_swap` and
-- `pte_set_fpn` of src/mm.c. An entry is a word of 32 bits.
pub mod Masks
pub mod Laws
pub mod Init
mod Tests
use osassignment_hk.Base.{
  ℕ, ◌+◌, ◌-◌, ◌*◌, ◌/◌, ◌%◌, ◌^◌, ◌<◌, ◌≡◌, ap, ltb, true, Outcome, ok, ◌>>=◌, >>=-step, ◌∙◌,
  if_true, arith, Bool, not, ◌==◌, if◌then◌else◌, bit_and, Ret, success, failure,
}
use osassignment_hk.Base.Bytes.{add_int, add_int_small}
use osassignment_hk.Bitops.{div_round_up, bit, genmask, nbits, setbit, clrbit, setval, getval}

-- PAGING_CPU_BUS_WIDTH and PAGING_PAGESZ
abbrev pub cpu_bus_width : ℕ
cpu_bus_width = 22

abbrev pub pagesz : ℕ
pagesz = 256

-- PAGING_PAGE_ALIGNSZ
unfoldable pub page_alignsz : ℕ → ℕ
unfolding div_round_up
page_alignsz sz = div_round_up sz pagesz * pagesz

-- `(t / PAGING_PAGESZ) * PAGING_PAGESZ` for a `t` of type int, which is rounded towards 0
unfoldable pub whole_pages : ℕ → ℕ
whole_pages t =
    if ltb t (2 ^ 31)
    then t / pagesz * pagesz
    else (2 ^ 64 - (2 ^ 64 - t) / pagesz * pagesz) % 2 ^ 64

-- PAGING_PAGE_ALIGNSZ of an int, which first adds PAGING_PAGESZ
unfoldable pub page_alignsz_int : ℕ → Outcome ℕ
unfolding whole_pages
page_alignsz_int sz = do n ← add_int sz pagesz; ok (whole_pages ((n + (2 ^ 64 - 1)) % 2 ^ 64))

pub page_alignsz_int_small :
    (sz : ℕ) → sz + pagesz < 2 ^ 31 → page_alignsz_int sz ≡ ok (page_alignsz sz)
unfolding page_alignsz_int page_alignsz div_round_up whole_pages
page_alignsz_int_small sz small =
    >>=-step _ (add_int_small sz pagesz small)
    ∙ ap ok (
        let back : (sz + pagesz + (2 ^ 64 - 1)) % 2 ^ 64 ≡ sz + pagesz - 1 = omega arith in
        let positive : ltb (sz + pagesz - 1) (2 ^ 31) ≡ true = ground arith in
        ap whole_pages back ∙ if_true _ _ positive)

-- PAGING_MAX_PGN
unfoldable pub max_pgn : ℕ
unfolding div_round_up bit
max_pgn = div_round_up (bit cpu_bus_width) pagesz

-- PAGING_PTE_PRESENT_MASK, PAGING_PTE_SWAPPED_MASK, PAGING_PTE_DIRTY_MASK
unfoldable pub present_mask : ℕ
unfolding bit
present_mask = bit 31

unfoldable pub swapped_mask : ℕ
unfolding bit
swapped_mask = bit 30

unfoldable pub dirty_mask : ℕ
unfolding bit
dirty_mask = bit 28

-- PAGING_PTE_FPN_MASK, PAGING_PTE_SWPTYP_MASK, PAGING_PTE_SWPOFF_MASK
unfoldable pub fpn_mask : ℕ
unfolding genmask
fpn_mask = genmask 12 0

unfoldable pub swptyp_mask : ℕ
unfolding genmask
swptyp_mask = genmask 4 0

unfoldable pub swpoff_mask : ℕ
unfolding genmask
swpoff_mask = genmask 25 5

-- PAGING_OFFST_MASK and PAGING_PGN_MASK
unfoldable pub offst_mask : ℕ
unfolding genmask nbits
offst_mask = genmask (nbits pagesz - 1) 0

unfoldable pub pgn_mask : ℕ
unfolding genmask nbits
pgn_mask = genmask (cpu_bus_width - 1) (nbits pagesz)

-- PAGING_PAGE_PRESENT, as a condition
unfoldable pub page_present : ℕ → Bool
unfolding present_mask
page_present pte = not (bit_and pte present_mask == 0)

-- PAGING_PTE_FPN, which is also PAGING_FPN
unfoldable pub pte_fpn : ℕ → ℕ
unfolding getval fpn_mask
pte_fpn pte = getval pte fpn_mask 0

-- PAGING_PTE_SWP, with PAGING_SWPFPN_OFFSET
unfoldable pub pte_swp : ℕ → ℕ
unfolding getval swpoff_mask
pte_swp pte = getval pte swpoff_mask 5

-- PAGING_OFFST
unfoldable pub offst : ℕ → ℕ
unfolding getval offst_mask
offst x = getval x offst_mask 0

-- PAGING_PGN
unfoldable pub pgn : ℕ → ℕ
unfolding getval pgn_mask nbits
pgn x = getval x pgn_mask (nbits pagesz)

-- The code that `init_pte` returns, and the entry that it leaves.
unfoldable pub init_pte : ℕ → ℕ → ℕ → ℕ → ℕ → ℕ → ℕ → Ret × ℕ
unfolding setbit clrbit setval present_mask swapped_mask dirty_mask fpn_mask swptyp_mask swpoff_mask
init_pte pte pre fpn drt swp swptyp swpoff =
    if pre == 0
    then (success, pte)
    else if swp == 0
    then if fpn == 0
      then (failure, pte)
      else (let pte = setbit pte present_mask in
          let pte = clrbit pte swapped_mask in
          let pte = clrbit pte dirty_mask in (success, setval pte fpn fpn_mask 0))
    else let pte = setbit pte present_mask in
      let pte = setbit pte swapped_mask in
      let pte = clrbit pte dirty_mask in
      let pte = setval pte swptyp swptyp_mask 0 in (success, setval pte swpoff swpoff_mask 5)

-- The entry that `pte_set_swap` leaves; it always returns 0.
unfoldable pub pte_set_swap : ℕ → ℕ → ℕ → ℕ
unfolding setbit setval present_mask swapped_mask swptyp_mask swpoff_mask
pte_set_swap pte swptyp swpoff =
    let pte = setbit pte present_mask in
    let pte = setbit pte swapped_mask in
    let pte = setval pte swptyp swptyp_mask 0 in setval pte swpoff swpoff_mask 5

-- The entry that `pte_set_fpn` leaves; it always returns 0.
unfoldable pub pte_set_fpn : ℕ → ℕ → ℕ
unfolding setbit clrbit setval present_mask swapped_mask fpn_mask
pte_set_fpn pte fpn =
    let pte = setbit pte present_mask in
    let pte = clrbit pte swapped_mask in setval pte fpn fpn_mask 0
