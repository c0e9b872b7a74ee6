-- ===== src/MmVm.antt =====
-- src/mm-vm.c: the areas of a process. A function that changes an area in place returns the list.
pub mod Limit
use osassignment_hk.Base.{
  ℕ, zero, suc, ◌+◌, ◌-◌, ◌/◌, ◌%◌, ◌^◌, Bool, true, false, not, ◌&&◌, ◌||◌, ltb, leb, ◌==◌,
  if◌then◌else◌, set, List, [], ◌∷◌, Option, none, some, Ret, success, failure, Outcome, ok, fault,
  ◌>>=◌,
}
use osassignment_hk.Base.Bytes.{as_int}
use osassignment_hk.Pte.{pagesz, page_alignsz_int}
use osassignment_hk.Memphy.{Memphy}
use osassignment_hk.Mm.{Rg, Vma, Mm, Caller, vm_map_ram, swap_cp_page}

-- The walk of `get_vma_by_num` from area number `i` on: the number of the area that it finds, and the
-- area. Past the last area it reads `vm_id` through NULL.
unfoldable pub find_vma : ℕ → List Vma → ℕ → Outcome (Option (ℕ × Vma))
find_vma i [] vmaid = fault
find_vma i (vma ∷ rest) vmaid =
    let later = find_vma (i + 1) rest vmaid in
    if ltb vma.vm_id vmaid then later else ok (some (i, vma))

unfoldable pub get_vma_by_num : List Vma → ℕ → Outcome (Option (ℕ × Vma))
unfolding find_vma
get_vma_by_num [] vmaid = ok none
get_vma_by_num (vma ∷ rest) vmaid = find_vma 0 (vma ∷ rest) vmaid

-- `__mm_swap_page`; it always returns 0.
unfoldable pub mm_swap_page : ℕ → Caller → ℕ → ℕ → Outcome Caller
unfolding swap_cp_page
mm_swap_page junk caller vicfpn swpfpn = do
  (mram, mswp) ← swap_cp_page junk caller.mram vicfpn caller.active_mswp swpfpn
  ok (record caller { mram = mram; active_mswp = mswp })

-- The region that `get_vm_area_node_at_brk` allocates, if it finds the area.
unfoldable pub area_at_brk : Option (ℕ × Vma) → ℕ → Option Rg
area_at_brk none alignedsz = none
area_at_brk (some (i, vma)) alignedsz =
    some (record { rg_start = vma.sbrk; rg_end = (vma.sbrk + alignedsz) % 2 ^ 64 })

-- The argument `size` is not used.
unfoldable pub get_vm_area_node_at_brk : Caller → ℕ → ℕ → ℕ → Outcome (Option Rg)
unfolding get_vma_by_num area_at_brk
get_vm_area_node_at_brk caller vmaid size alignedsz = do
  found ← get_vma_by_num caller.mm.mmap vmaid
  ok (area_at_brk found alignedsz)

-- OVERLAP
unfoldable pub overlap : ℕ → ℕ → ℕ → ℕ → Bool
overlap x1 x2 y1 y2 = leb x1 y2 && leb y1 x2

-- Its limits are given as the ints to which the caller's convert.
unfoldable pub validate_overlap_vm_area : List Vma → ℕ → ℕ → ℕ → Ret
unfolding overlap
validate_overlap_vm_area [] vmaid vmastart vmaend = success
validate_overlap_vm_area (vma ∷ rest) vmaid vmastart vmaend =
    if not (vma.vm_id == vmaid) && overlap vma.vm_start vma.vm_end vmastart vmaend
    then failure
    else validate_overlap_vm_area rest vmaid vmastart vmaend

abbrev pub set_vma : Caller → ℕ → Vma → Caller
set_vma caller i vma = record caller { mm = record caller.mm { mmap = set caller.mm.mmap i vma } }

-- The end of `inc_vma_limit`: if the mapping failed, the limits of the area are set back.
unfoldable pub settle : ℕ → Vma → Ret × Rg × Caller → Ret × Caller
settle i vma (success, area, caller) = (success, caller)
settle i vma (failure, area, caller) = (
  failure,
  set_vma caller i (record vma { vm_end = as_int vma.vm_end; sbrk = as_int vma.vm_end }),
)

-- `inc_amt / PAGING_PAGESZ` as the number of rounds of a loop: a negative number makes none.
unfoldable pub pages_of : ℕ → ℕ
pages_of inc_amt = if ltb inc_amt (2 ^ 31) then inc_amt / pagesz else 0

-- `inc_vma_limit` when it has the area `vma`, number `i` of the list, and its new part `area`.
unfoldable pub grow : Caller → ℕ → ℕ → Option (ℕ × Vma) → Option Rg → Outcome (Ret × Caller)
unfolding validate_overlap_vm_area vm_map_ram settle as_int pages_of
grow caller vmaid inc_amt none area = ok (failure, caller)
grow caller vmaid inc_amt (some (i, vma)) none = ok (failure, caller)
grow caller vmaid inc_amt (some (i, vma)) (some area) =
    elim (validate_overlap_vm_area caller.mm.mmap vmaid (as_int area.rg_start)
      (as_int area.rg_end)) [
        | failure ↦ ok (failure, caller)
        | success ↦ do
          r ←
              vm_map_ram
                (set_vma caller i (record vma { vm_end = area.rg_end; sbrk = area.rg_end }))
                (as_int area.rg_start) (as_int area.rg_end) (as_int vma.vm_end) (pages_of inc_amt)
                area
          ok (settle i vma r)
      ]

-- `vmaid` and `inc_sz` are of type int.
unfoldable pub inc_vma_limit : Caller → ℕ → ℕ → Outcome (Ret × Caller)
unfolding page_alignsz_int get_vm_area_node_at_brk get_vma_by_num grow
inc_vma_limit caller vmaid inc_sz = do
  inc_amt ← page_alignsz_int inc_sz
  area ← get_vm_area_node_at_brk caller vmaid inc_sz inc_amt
  found ← get_vma_by_num caller.mm.mmap vmaid
  grow caller vmaid inc_amt found area
