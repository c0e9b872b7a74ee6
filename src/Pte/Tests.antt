-- ===== src/Pte/Tests.antt =====
-- Page table entries in figures, and the theorems at them.
use osassignment_hk.Base.{◌≡◌, refl, success, failure, arith}
use osassignment_hk.Bitops.{nbits}
use osassignment_hk.Bitops.Nbits.{Highest, nbits-Highest}
use osassignment_hk.Pte.{page_alignsz, max_pgn, init_pte, pte_set_swap, pte_set_fpn}
use osassignment_hk.Pte.Laws.{Swapped, pte_set_swap-Swapped}

entries :
    (pte_set_fpn 0 5 ≡ 0x80000005)
    × (pte_set_swap 0x80000005 0 3 ≡ 0xC0000060)
    × (init_pte 0xFFFFFFFF 1 0 0 0 0 0 ≡ (failure, 0xFFFFFFFF))
    × (init_pte 0 1 7 0 0 0 0 ≡ (success, 0x80000007))
unfolding pte_set_fpn pte_set_swap init_pte
entries = (refl, refl, refl, refl)

sizes : (page_alignsz 300 ≡ 512) × (page_alignsz 256 ≡ 256) × (max_pgn ≡ 16384) × (nbits 256 ≡ 8)
unfolding page_alignsz max_pgn nbits
sizes = (refl, refl, refl, refl)

nbits-Highest_example : Highest 300 (nbits 300)
nbits-Highest_example = nbits-Highest 300 (omega arith) (omega arith)

pte_set_swap-Swapped_example : Swapped 0x80000005 0 3 (pte_set_swap 0x80000005 0 3)
pte_set_swap-Swapped_example =
    pte_set_swap-Swapped 0x80000005 0 3 (omega arith) (omega arith) (omega arith)
