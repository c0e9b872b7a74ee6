-- ===== src/Paging/Example.antt =====
-- A process with one area of two pages, for the tests of the memory.
use osassignment_hk.Base.{◌+◌, ◌≡◌, refl, ◌==◌, if◌then◌else◌, [], ◌∷◌, some, ok, ◌≤◌, arith}
use osassignment_hk.Pte.{pte_set_fpn, max_pgn}
use osassignment_hk.Memphy.{Memphy}
use osassignment_hk.Mm.{Rg, Vma, Mm, Caller}
use osassignment_hk.MmVm.{get_vma_by_num}
use osassignment_hk.Libmem.{Junk}

-- Frames 2 and 3 of four are free.
abbrev pub ram : Memphy
ram = record {
  storage = λ addr. 0;
  maxsz = 1024;
  rdmflg = 1;
  cursor = 0;
  free_fp_list = 2 ∷ 3 ∷ [];
  used_fp_list = [];
}

abbrev pub region : Rg
region = record { rg_start = 0; rg_end = 300 }

abbrev pub other_region : Rg
other_region = record { rg_start = 300; rg_end = 400 }

abbrev pub area : Vma
area = record {
  vm_id = 0;
  vm_start = 0;
  vm_end = 512;
  sbrk = 512;
  vm_freerg_list = record { rg_start = 400; rg_end = 512 } ∷ [];
}

-- Page 0 is in frame 1 and page 1 in frame 0; page 2 is in swap.
abbrev pub memory : Mm
memory = record {
  pgd = λ p. if p == 0 then pte_set_fpn 0 1 else if p == 1 then pte_set_fpn 0 0 else 0;
  mmap = area ∷ [];
  symrgtbl = λ r. if r == 0 then region else other_region;
  fifo_pgn = 1 ∷ 0 ∷ [];
}

abbrev pub process : Caller
process = record { mm = memory; mram = ram; active_mswp = record ram { free_fp_list = 0 ∷ [] } }

abbrev pub junk : Junk
junk = record { vicpgn = 0; swpfpn = 0; value = 0; addr = 0 }

pub area_found : get_vma_by_num (area ∷ []) 0 ≡ ok (some (0, area))
unfolding get_vma_by_num
area_found = refl

pub low_enough : 2 + 1 ≤ max_pgn
unfolding max_pgn
low_enough = omega arith
