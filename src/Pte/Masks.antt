-- ===== src/Pte/Masks.antt =====
-- The masks of a page table entry are fields, and each operation on an entry in numbers.
use osassignment_hk.Base.{refl, arith}
use osassignment_hk.Bitops.Fields.{IsMask}
use osassignment_hk.Pte.{
  present_mask, swapped_mask, dirty_mask, fpn_mask, swptyp_mask, swpoff_mask, offst_mask, pgn_mask,
}

pub present-IsMask : IsMask 1 31 present_mask
unfolding present_mask
present-IsMask = record { shape = refl; fits = omega arith; apart = refl }

pub swapped-IsMask : IsMask 1 30 swapped_mask
unfolding swapped_mask
swapped-IsMask = record { shape = refl; fits = omega arith; apart = refl }

pub dirty-IsMask : IsMask 1 28 dirty_mask
unfolding dirty_mask
dirty-IsMask = record { shape = refl; fits = omega arith; apart = refl }

pub fpn-IsMask : IsMask 13 0 fpn_mask
unfolding fpn_mask
fpn-IsMask = record { shape = refl; fits = omega arith; apart = refl }

pub swptyp-IsMask : IsMask 5 0 swptyp_mask
unfolding swptyp_mask
swptyp-IsMask = record { shape = refl; fits = omega arith; apart = refl }

pub swpoff-IsMask : IsMask 21 5 swpoff_mask
unfolding swpoff_mask
swpoff-IsMask = record { shape = refl; fits = omega arith; apart = refl }

pub offst-IsMask : IsMask 8 0 offst_mask
unfolding offst_mask
offst-IsMask = record { shape = refl; fits = omega arith; apart = refl }

pub pgn-IsMask : IsMask 14 8 pgn_mask
unfolding pgn_mask
pgn-IsMask = record { shape = refl; fits = omega arith; apart = refl }
