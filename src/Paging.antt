-- ===== src/Paging.antt =====
-- src/libmem.c: the access to bytes through the page table, the choice of a victim, and the release of
-- the frames of a process. The pointer `mm` of these functions is always `caller->mm`.
pub mod Access
pub mod Victim
pub mod Ram
pub mod Fault
pub mod Bounds
pub mod Example
mod Tests
use osassignment_hk.Base.{
  ℕ, zero, suc, ◌+◌, ◌*◌, ltb, if◌then◌else◌, update, List, [], ◌∷◌, Option, none, some, Ret,
  success, failure, Outcome, ok, fault, ◌>>=◌,
}
use osassignment_hk.Base.Bytes.{extend_byte, to_byte}
use osassignment_hk.Pte.{
  pagesz, max_pgn, page_present, pte_fpn, pte_swp, pgn, offst, pte_set_swap, pte_set_fpn,
}
use osassignment_hk.Memphy.{Memphy, get_freefp, put_freefp, write}
use osassignment_hk.Mm.{Rg, Vma, Mm, Caller, enlist_pgn_node}
use osassignment_hk.MmVm.{get_vma_by_num}
use osassignment_hk.SysMem.{ScRegs, sys_memmap, swp_op, io_read, io_write}
use osassignment_hk.Libmem.{Junk, get_symrg_byid, get_symrg}

-- The list of pages without its last one, and that one.
unfoldable pub unlink_last : ℕ → List ℕ → ℕ × List ℕ
unlink_last pg [] = (pg, [])
unlink_last pg (next ∷ rest) = let (last, kept) = unlink_last next rest in (last, pg ∷ kept)

unfoldable pub victim_of : Mm → ℕ → List ℕ → Ret × ℕ × Mm
unfolding unlink_last
victim_of mm retpgn [] = (failure, retpgn, mm)
victim_of mm retpgn (pg ∷ rest) =
    let (last, kept) = unlink_last pg rest in (success, last, record mm { fifo_pgn = kept })

-- `find_victim_page`: its code, `*retpgn` (given with what it holds), and the memory.
unfoldable pub find_victim_page : Mm → ℕ → Ret × ℕ × Mm
unfolding victim_of
find_victim_page mm retpgn = victim_of mm retpgn mm.fifo_pgn

-- `pgd[pgn]`, read and written
unfoldable pub get_pte : Mm → ℕ → Outcome ℕ
get_pte mm pgn = if ltb pgn max_pgn then ok (mm.pgd pgn) else fault

unfoldable pub set_pte : Mm → ℕ → ℕ → Outcome Mm
set_pte mm pgn pte =
    if ltb pgn max_pgn then ok (record mm { pgd = update mm.pgd pgn pte }) else fault

-- The part of `pg_getpage` for a page that is not present, behind the two system calls.
unfoldable pub page_in : Caller → ℕ → ℕ → ℕ → ℕ → Outcome Caller
unfolding get_pte set_pte enlist_pgn_node
page_in caller pgn vicpgn vicfpn swpfpn = do
  vicpte ← get_pte caller.mm vicpgn
  mm ← set_pte caller.mm vicpgn (pte_set_swap vicpte 0 swpfpn)
  old ← get_pte mm pgn
  mm ← set_pte mm pgn (pte_set_fpn old vicfpn)
  ok (record caller { mm = record mm { fifo_pgn = enlist_pgn_node mm.fifo_pgn pgn } })

-- The part for a page that is not present. `pte` is its entry.
unfoldable pub swap_page : Junk → Caller → ℕ → ℕ → Outcome (Ret × Caller)
unfolding find_victim_page get_freefp get_pte sys_memmap page_in
swap_page junk caller pgn pte =
    let (_, vicpgn, mm) = find_victim_page caller.mm junk.vicpgn in
    let (_, swpfpn, mswp) = get_freefp caller.active_mswp junk.swpfpn in
    let caller = record caller { mm = mm; active_mswp = mswp } in
    do
      vicpte ← get_pte caller.mm vicpgn
      (rc, _, caller) ←
          sys_memmap junk.value caller (record { a1 = swp_op; a2 = pte_fpn vicpte; a3 = swpfpn })
      elim rc [
        | failure ↦ ok (failure, caller)
        | success ↦ do
          (rc', _, caller) ←
              sys_memmap junk.value caller
                (record { a1 = swp_op; a2 = pte_fpn pte; a3 = pte_fpn vicpte })
          elim rc' [
            | failure ↦ ok (failure, caller)
            | success ↦ do
              caller ← page_in caller pgn vicpgn (pte_fpn vicpte) swpfpn
              ok (success, caller)
          ]
      ]

-- The end of `pg_getpage`: `*fpn` is set if the page is in.
unfoldable pub frame_of : ℕ → Ret × Caller → Outcome (Ret × ℕ × Caller)
unfolding get_pte
frame_of pgn (failure, caller) = ok (failure, 0, caller)
frame_of pgn (success, caller) = do pte ← get_pte caller.mm pgn; ok (success, pte_fpn pte, caller)

-- `pg_getpage`: its code, `*fpn` (which nobody reads after a failure), and the process.
unfoldable pub pg_getpage : Junk → Caller → ℕ → Outcome (Ret × ℕ × Caller)
unfolding get_pte swap_page frame_of
pg_getpage junk caller pgn = do
  pte ← get_pte caller.mm pgn
  r ← if page_present pte then ok (success, caller) else swap_page junk caller pgn pte
  frame_of pgn r

-- `pg_getval`: its code, `*data` (given with what it holds), and the process.
unfoldable pub pg_getval : Junk → Caller → ℕ → ℕ → Outcome (Ret × ℕ × Caller)
unfolding pg_getpage sys_memmap
pg_getval junk caller addr value = do
  (rc, fpn, caller) ← pg_getpage junk caller (pgn addr)
  elim rc [
    | failure ↦ ok (failure, value, caller)
    | success ↦ do
      (rc', regs, caller) ←
          sys_memmap junk.value caller
            (record { a1 = io_read; a2 = fpn * pagesz + offst addr; a3 = junk.value })
      elim rc' [
        | failure ↦ ok (failure, value, caller)
        | success ↦ ok (success, to_byte regs.a3, caller)
      ]
  ]

-- `pg_setval`, which writes the byte twice.
unfoldable pub pg_setval : Junk → Caller → ℕ → ℕ → Outcome (Ret × Caller)
unfolding pg_getpage sys_memmap write
pg_setval junk caller addr value = do
  (rc, fpn, caller) ← pg_getpage junk caller (pgn addr)
  elim rc [
    | failure ↦ ok (failure, caller)
    | success ↦ do
      (rc', _, caller) ←
          sys_memmap junk.value caller
            (record { a1 = io_write; a2 = fpn * pagesz + offst addr; a3 = extend_byte value })
      elim rc' [
        | failure ↦ ok (failure, caller)
        | success ↦ do
          (_, mram) ← write caller.mram (fpn * pagesz + offst addr) value
          ok (success, record caller { mram = mram })
      ]
  ]

-- The address that `__read` and `__write` use, if the region and the area are there.
unfoldable pub address_of : Caller → ℕ → ℕ → ℕ → Outcome (Option ℕ)
unfolding get_symrg_byid get_symrg get_vma_by_num
address_of caller vmaid rgid offset = do
  cur_vma ← get_vma_by_num caller.mm.mmap vmaid
  elim (get_symrg_byid rgid) [
    | none ↦ ok none
    | some entry ↦ elim cur_vma [
      | none ↦ ok none
      | some _ ↦ do rg ← get_symrg caller.mm entry; ok (some (rg.rg_start + offset))
    ]
  ]

-- `__read`, which drops the code of `pg_getval`.
unfoldable pub read_region : Junk → Caller → ℕ → ℕ → ℕ → ℕ → Outcome (Ret × ℕ × Caller)
unfolding address_of pg_getval
read_region junk caller vmaid rgid offset value = do
  at ← address_of caller vmaid rgid offset
  elim at [
    | none ↦ ok (failure, value, caller)
    | some addr ↦ do (_, v, caller) ← pg_getval junk caller addr value; ok (success, v, caller)
  ]

-- `__write`, which drops the code of `pg_setval`.
unfoldable pub write_region : Junk → Caller → ℕ → ℕ → ℕ → ℕ → Outcome (Ret × Caller)
unfolding address_of pg_setval
write_region junk caller vmaid rgid offset value = do
  at ← address_of caller vmaid rgid offset
  elim at [
    | none ↦ ok (failure, caller)
    | some addr ↦ do (_, caller) ← pg_setval junk caller addr value; ok (success, caller)
  ]

-- `libread`: its code, `*destination`, and the process.
unfoldable pub libread : Junk → Caller → ℕ → ℕ → Outcome (Ret × ℕ × Caller)
unfolding read_region
libread junk proc source offset = do
  (val, value, proc) ← read_region junk proc 0 source offset junk.value
  ok (val, extend_byte value, proc)

unfoldable pub libwrite : Junk → Caller → ℕ → ℕ → ℕ → Outcome (Ret × Caller)
unfolding write_region
libwrite junk proc value destination offset = write_region junk proc 0 destination offset value

-- The loop of `free_pcb_memph` over `pagenum`, with the rounds that are left.
unfoldable pub free_loop : ℕ → ℕ → Caller → Caller
unfolding put_freefp
free_loop zero pagenum caller = caller
free_loop (suc n) pagenum caller =
    let pte = caller.mm.pgd pagenum in
    free_loop n (pagenum + 1) (
      if page_present pte
      then record caller { active_mswp = put_freefp caller.active_mswp (pte_swp pte) }
      else record caller { mram = put_freefp caller.mram (pte_fpn pte) })

-- `free_pcb_memph`; it always returns 0.
unfoldable pub free_pcb_memph : Caller → Caller
unfolding free_loop
free_pcb_memph caller = free_loop max_pgn 0 caller
