-- ===== src/Libmem.antt =====
-- src/libmem.c: the memory library of a process: regions on its heap, and bytes in its pages. The lock
-- `mmvm_lock` is not modelled: each function runs alone. `syscall(caller, 17, ...)` is `sys_memmap`.
pub mod FirstFit
pub mod Alloc
pub mod Exhausted
mod Tests
use osassignment_hk.Base.{
  ℕ, zero, suc, ◌+◌, ◌-◌, ◌*◌, ◌%◌, ◌^◌, Bool, true, false, ltb, leb, ◌==◌, ◌||◌, if◌then◌else◌,
  update, set, List, [], ◌∷◌, Option, none, some, Ret, success, failure, Outcome, ok, fault, ◌>>=◌,
}
use osassignment_hk.Base.Bytes.{extend_byte, to_byte, as_int, add_int}
use osassignment_hk.Pte.{
  pagesz, page_alignsz_int, max_pgn, page_present, pte_fpn, pte_swp, pgn, offst, pte_set_swap,
  pte_set_fpn,
}
use osassignment_hk.Memphy.{Memphy, get_freefp, put_freefp, write}
use osassignment_hk.Mm.{
  Rg, Vma, Mm, Caller, max_symtbl_sz, init_vm_rg, enlist_vm_rg_node, enlist_pgn_node,
}
use osassignment_hk.MmVm.{get_vma_by_num, set_vma}
use osassignment_hk.SysMem.{ScRegs, sys_memmap, inc_op, swp_op, io_read, io_write}

-- What the variables hold that a callee leaves unset when it fails.
pub record Junk : Type 0 where
  pub vicpgn : ℕ
  pub swpfpn : ℕ
  pub value : ℕ
  pub addr : ℕ

-- `enlist_vm_freerg_list` on the areas of a process: its code, and the areas.
unfoldable pub enlist_vm_freerg_list : List Vma → Rg → Outcome (Ret × List Vma)
enlist_vm_freerg_list [] rg_elmt = fault
enlist_vm_freerg_list (vma ∷ rest) rg_elmt =
    if leb rg_elmt.rg_end rg_elmt.rg_start
    then ok (failure, vma ∷ rest)
    else ok (success, record vma { vm_freerg_list = rg_elmt ∷ vma.vm_freerg_list } ∷ rest)

-- `get_symrg_byid`: the number of the entry to which it points. It lets the number past the last one
-- through.
unfoldable pub get_symrg_byid : ℕ → Option ℕ
get_symrg_byid rgid = if ltb max_symtbl_sz rgid then none else some rgid

-- An entry of `symrgtbl`, read and written.
unfoldable pub get_symrg : Mm → ℕ → Outcome Rg
get_symrg mm rgid = if ltb rgid max_symtbl_sz then ok (mm.symrgtbl rgid) else fault

unfoldable pub set_symrg : Caller → ℕ → Rg → Outcome Caller
set_symrg caller rgid rg =
    if ltb rgid max_symtbl_sz
    then ok
        (record caller { mm = record caller.mm { symrgtbl = update caller.mm.symrgtbl rgid rg } })
    else fault

-- `rgit->rg_end - rgit->rg_start`, of unsigned long
unfoldable pub width : Rg → ℕ
width rg = (rg.rg_end + 2 ^ 64 - rg.rg_start) % 2 ^ 64

-- The walk of `get_free_vmrg_area`: the region that it cuts off, and the list that it leaves.
unfoldable pub first_fit : ℕ → List Rg → Option (Rg × List Rg)
unfolding width
first_fit size [] = none
first_fit size (rg ∷ rest) =
    if leb size (width rg)
    then some (
      record { rg_start = rg.rg_start; rg_end = rg.rg_start + size },
      record rg { rg_start = rg.rg_start + size } ∷ rest,
    )
    else elim (first_fit size rest) [ none ↦ none | some (newrg, rest') ↦ some (newrg, rg ∷ rest') ]

-- What the walk leaves of the area.
unfoldable pub cut_out : Caller → ℕ → Vma → Option (Rg × List Rg) → Option Rg × Caller
cut_out caller i vma none = (none, caller)
cut_out caller i vma (some (newrg, rest)) =
    (some newrg, set_vma caller i (record vma { vm_freerg_list = rest }))

-- `get_free_vmrg_area` on the area that it found. If nothing fits, nobody reads the region.
unfoldable pub fit_in : Caller → Option (ℕ × Vma) → ℕ → Outcome (Option Rg × Caller)
unfolding first_fit cut_out
fit_in caller none size = fault
fit_in caller (some (i, vma)) size = ok (cut_out caller i vma (first_fit size vma.vm_freerg_list))

-- `get_free_vmrg_area`: `none` for -1, and the region in `*newrg` for 0.
unfoldable pub get_free_vmrg_area : Caller → ℕ → ℕ → Outcome (Option Rg × Caller)
unfolding get_vma_by_num fit_in
get_free_vmrg_area caller vmaid size = do
  found ← get_vma_by_num caller.mm.mmap vmaid
  fit_in caller found size

-- `enlist_vm_rg_node(&cur->vm_freerg_list, ...)` on the area that was found
unfoldable pub enlist_in : Caller → Option (ℕ × Vma) → Rg → Outcome Caller
unfolding enlist_vm_rg_node
enlist_in caller none rg = fault
enlist_in caller (some (i, vma)) rg =
    ok (set_vma caller i (record vma { vm_freerg_list = enlist_vm_rg_node vma.vm_freerg_list rg }))

-- `cur_vma->sbrk`
unfoldable pub sbrk_of : Option (ℕ × Vma) → Outcome ℕ
sbrk_of none = fault
sbrk_of (some (i, vma)) = ok vma.sbrk

-- The last part of `__alloc`, with what the second search found.
unfoldable pub record_region : ℕ → ℕ → Option Rg → Caller → Outcome (Ret × ℕ × Caller)
unfolding set_symrg
record_region rgid alloc_addr none caller = ok (failure, alloc_addr, caller)
record_region rgid alloc_addr (some rg) caller = do
  caller ← set_symrg caller rgid rg
  ok (success, rg.rg_start, caller)

-- `__alloc` after the first search found nothing. The test `syscall(...) < -1` never holds. `vmaid` and
-- `size` are of type int, and so are `old_sbrk` and `inc_sz`.
unfoldable pub extend_heap : Junk → Caller → ℕ → ℕ → ℕ → ℕ → Outcome (Ret × ℕ × Caller)
unfolding get_vma_by_num sbrk_of sys_memmap enlist_in get_free_vmrg_area record_region
    page_alignsz_int as_int add_int
extend_heap junk caller vmaid rgid size alloc_addr = do
  cur_vma ← get_vma_by_num caller.mm.mmap vmaid
  old_sbrk ← sbrk_of cur_vma
  inc_sz ← page_alignsz_int size
  (_, regs, caller) ←
      sys_memmap junk.value caller
        (record { a1 = inc_op; a2 = vmaid % 2 ^ 32; a3 = inc_sz % 2 ^ 32 })
  cur ← get_vma_by_num caller.mm.mmap vmaid
  end ← add_int (as_int old_sbrk) inc_sz
  caller ← enlist_in caller cur (init_vm_rg (as_int old_sbrk) end)
  (rg, caller) ← get_free_vmrg_area caller vmaid size
  record_region rgid alloc_addr rg caller

-- `__alloc` after the first search.
unfoldable pub alloc_found : Junk → ℕ → ℕ → ℕ → ℕ → Option Rg × Caller → Outcome (Ret × ℕ × Caller)
unfolding record_region extend_heap
alloc_found junk vmaid rgid size alloc_addr (none, caller) =
    extend_heap junk caller vmaid rgid size alloc_addr
alloc_found junk vmaid rgid size alloc_addr (some newrg, caller) =
    record_region rgid alloc_addr (some newrg) caller

-- `__alloc`: its code, `*alloc_addr` (given with what it holds), and the process.
unfoldable pub alloc : Junk → Caller → ℕ → ℕ → ℕ → ℕ → Outcome (Ret × ℕ × Caller)
unfolding get_free_vmrg_area alloc_found
alloc junk caller vmaid rgid size alloc_addr = do
  r ← get_free_vmrg_area caller vmaid size
  alloc_found junk vmaid rgid size alloc_addr r

unfoldable pub set_mmap : Caller → Ret × List Vma → Ret × Caller
set_mmap caller (r, mmap) = (r, record caller { mm = record caller.mm { mmap = mmap } })

-- `__free` when it has the entry of the symbol table.
unfoldable pub free_entry : Caller → ℕ → Option ℕ → Outcome (Ret × Caller)
unfolding get_symrg enlist_vm_freerg_list set_mmap as_int
free_entry caller rgid none = ok (failure, caller)
free_entry caller rgid (some entry) = if leb max_symtbl_sz rgid then ok (failure, caller) else do
  rg ← get_symrg caller.mm entry
  r ← enlist_vm_freerg_list caller.mm.mmap (init_vm_rg rg.rg_start rg.rg_end)
  ok (set_mmap caller r)

-- `__free`; the argument `vmaid` is not used.
unfoldable pub free : Caller → ℕ → ℕ → Outcome (Ret × Caller)
unfolding get_symrg_byid free_entry
free caller vmaid rgid = free_entry caller rgid (get_symrg_byid rgid)

-- `size` is a uint32_t, which `__alloc` takes as an int.
unfoldable pub liballoc : Junk → Caller → ℕ → ℕ → Outcome (Ret × Caller)
unfolding alloc as_int
liballoc junk proc size reg_index = do
  (rc, _, proc) ← alloc junk proc 0 reg_index (as_int size) junk.addr
  ok (rc, proc)

unfoldable pub libfree : Caller → ℕ → Outcome (Ret × Caller)
unfolding free
libfree proc reg_index = free proc 0 reg_index
