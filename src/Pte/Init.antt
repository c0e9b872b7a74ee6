-- ===== src/Pte/Init.antt =====
-- `init_pte` on each of its branches.
use osassignment_hk.Base.{
  ℕ, ◌/◌, ◌%◌, ◌^◌, ◌<◌, ◌≡◌, ◌≢◌, ◌∙◌, ℕ_discrete, true, Ret, success, failure, arith,
}
use osassignment_hk.Bitops.{setbit, clrbit, setval}
use osassignment_hk.Bitops.Fields.{clrbit_lem, setbit_lem, setval_lem}
use osassignment_hk.Pte.{
  present_mask, swapped_mask, dirty_mask, fpn_mask, swptyp_mask, swpoff_mask, page_present, pte_fpn,
  pte_swp, init_pte,
}
use osassignment_hk.Pte.Masks.{
  present-IsMask, swapped-IsMask, dirty-IsMask, fpn-IsMask, swptyp-IsMask, swpoff-IsMask,
}
use osassignment_hk.Pte.Laws.{page_present_iff, pte_fpn_lem, pte_swp_lem}

-- The ways in which `init_pte` ends.
pub data Inits (pte pre fpn swp swptyp swpoff : ℕ) (r : Ret × ℕ) : Type 0 where
  absent : pre ≡ 0 → r ≡ (success, pte) → Inits pte pre fpn swp swptyp swpoff r
  refused : pre ≢ 0 → swp ≡ 0 → fpn ≡ 0 → r ≡ (failure, pte) → Inits pte pre fpn swp swptyp swpoff r
  online :
      (q : ℕ)
      → pre ≢ 0
      → swp ≡ 0
      → fpn ≢ 0
      → r ≡ (success, q)
      → page_present q ≡ true
      → q / 2 ^ 30 % 2 ≡ 0
      → q / 2 ^ 28 % 2 ≡ 0
      → pte_fpn q ≡ fpn
      → Inits pte pre fpn swp swptyp swpoff r
  swapped :
      (q : ℕ)
      → pre ≢ 0
      → swp ≢ 0
      → r ≡ (success, q)
      → page_present q ≡ true
      → q / 2 ^ 30 % 2 ≡ 1
      → q / 2 ^ 28 % 2 ≡ 0
      → pte_swp q ≡ swpoff
      → q % 2 ^ 5 ≡ swptyp
      → Inits pte pre fpn swp swptyp swpoff r

module _ (pte : ℕ) (h : pte < 2 ^ 32) where
  online_entry :
      (fpn : ℕ)
      → fpn < 2 ^ 13
      → let q =
          setval
            (clrbit (clrbit (setbit pte present_mask) swapped_mask) dirty_mask)
            fpn
            fpn_mask
            0 in
        (q / 2 ^ 31 % 2 ≡ 1) × (q / 2 ^ 30 % 2 ≡ 0) × (q / 2 ^ 28 % 2 ≡ 0) × (q % 2 ^ 13 ≡ fpn)
  unfolding present_mask
  online_entry fpn g =
      let a = setbit pte present_mask in
      let a_parts = setbit_lem present-IsMask pte in
      let a_fits : a < 2 ^ 32 = omega arith in
      let b = clrbit a swapped_mask in
      let b_parts = clrbit_lem swapped-IsMask a a_fits in
      let b_fits : b < 2 ^ 32 = omega arith in
      let c = clrbit b dirty_mask in
      let c_parts = clrbit_lem dirty-IsMask b b_fits in
      let c_fits : c < 2 ^ 32 = omega arith in
      let d_parts = setval_lem fpn-IsMask c fpn c_fits in
      (omega arith, omega arith, omega arith, omega arith)

  swapped_entry :
      (swptyp swpoff : ℕ)
      → swptyp < 2 ^ 5
      → swpoff < 2 ^ 21
      → let q =
          setval
            (setval
              (clrbit (setbit (setbit pte present_mask) swapped_mask) dirty_mask)
              swptyp
              swptyp_mask
              0)
            swpoff
            swpoff_mask
            5 in
        (q / 2 ^ 31 % 2 ≡ 1)
        × (q / 2 ^ 30 % 2 ≡ 1)
        × (q / 2 ^ 28 % 2 ≡ 0)
        × (q / 2 ^ 5 % 2 ^ 21 ≡ swpoff)
        × (q % 2 ^ 5 ≡ swptyp)
  unfolding present_mask swapped_mask
  swapped_entry swptyp swpoff t o =
      let a = setbit pte present_mask in
      let a_parts = setbit_lem present-IsMask pte in
      let a_fits : a < 2 ^ 32 = omega arith in
      let b = setbit a swapped_mask in
      let b_parts = setbit_lem swapped-IsMask a in
      let b_fits : b < 2 ^ 32 = omega arith in
      let c = clrbit b dirty_mask in
      let c_parts = clrbit_lem dirty-IsMask b b_fits in
      let c_fits : c < 2 ^ 32 = omega arith in
      let d = setval c swptyp swptyp_mask 0 in
      let d_parts = setval_lem swptyp-IsMask c swptyp c_fits in
      let d_fits : d < 2 ^ 32 = omega arith in
      let e_parts = setval_lem swpoff-IsMask d swpoff d_fits in
      (omega arith, omega arith, omega arith, omega arith, omega arith)

module _ (pte pre fpn drt swp swptyp swpoff : ℕ) (here : pre ≢ 0) where
  runs_online :
      swp ≡ 0
      → fpn ≢ 0
      → init_pte pte pre fpn drt swp swptyp swpoff ≡ (
        success,
        setval (clrbit (clrbit (setbit pte present_mask) swapped_mask) dirty_mask) fpn fpn_mask 0,
      )
  unfolding init_pte
  runs_online z nz = ground arith

  runs_swapped :
      swp ≢ 0
      → init_pte pte pre fpn drt swp swptyp swpoff ≡ (
        success,
        setval
            (setval
              (clrbit (setbit (setbit pte present_mask) swapped_mask) dirty_mask)
              swptyp
              swptyp_mask
              0)
            swpoff
            swpoff_mask
            5,
      )
  unfolding init_pte
  runs_swapped nz = ground arith

  runs_refused : swp ≡ 0 → fpn ≡ 0 → init_pte pte pre fpn drt swp swptyp swpoff ≡ (failure, pte)
  unfolding init_pte
  runs_refused z zf = ground arith

runs_absent :
    (pte pre fpn drt swp swptyp swpoff : ℕ)
    → pre ≡ 0
    → init_pte pte pre fpn drt swp swptyp swpoff ≡ (success, pte)
unfolding init_pte
runs_absent pte pre fpn drt swp swptyp swpoff z = ground arith

-- For an entry of 32 bits and fields in their widths, `init_pte` leaves the entry as it was if the
-- page is not present; refuses frame 0 and leaves the entry; and otherwise returns 0 and an entry
-- that is present and not dirty, either not swapped with the frame in its field, or swapped with the
-- swap type and the swap offset in theirs.
pub init_pte-Inits :
    (pte pre fpn drt swp swptyp swpoff : ℕ)
    → pte < 2 ^ 32
    → fpn < 2 ^ 13
    → swptyp < 2 ^ 5
    → swpoff < 2 ^ 21
    → Inits pte pre fpn swp swptyp swpoff (init_pte pte pre fpn drt swp swptyp swpoff)
init_pte-Inits pte pre fpn drt swp swptyp swpoff h g t o = elim (ℕ_discrete pre 0) [
  | yes z ↦ absent z (runs_absent pte pre fpn drt swp swptyp swpoff z)
  | no here ↦ elim (ℕ_discrete swp 0) [
    | no nz ↦
        let (present, marked, clean, offset, device) = swapped_entry pte h swptyp swpoff t o in
        swapped _ here nz (runs_swapped pte pre fpn drt swp swptyp swpoff here nz)
          ((page_present_iff _).1 present) marked clean (pte_swp_lem _ ∙ offset) device
    | yes z ↦ elim (ℕ_discrete fpn 0) [
      | yes zf ↦ refused here z zf (runs_refused pte pre fpn drt swp swptyp swpoff here z zf)
      | no nz ↦
          let (present, not_swapped, clean, frame) = online_entry pte h fpn g in
          online _ here z nz (runs_online pte pre fpn drt swp swptyp swpoff here z nz)
            ((page_present_iff _).1 present) not_swapped clean (pte_fpn_lem _ ∙ frame)
    ]
  ]
]
