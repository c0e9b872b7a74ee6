-- ===== src/Mm.antt =====
-- include/os-mm.h and src/mm.c: the memory of a process, and the mapping of pages to frames.
-- Addresses and sizes are numbers below 2 ^ 31, where the conversions between int, uint32_t and
-- unsigned long keep the value. `junk` is what uninitialised memory holds.
pub mod Map
pub mod Swap
pub mod Print
use osassignment_hk.Base.{
  ℕ, zero, suc, ◌+◌, ◌-◌, ◌*◌, ltb, ◌==◌, if◌then◌else◌, update, List, [], ◌∷◌, Option, none, some,
  Ret, success, failure, Outcome, ok, fault, ◌>>=◌,
}
use osassignment_hk.Base.Bytes.{as_int}
use osassignment_hk.Pte.{pagesz, max_pgn, pgn, pte_set_fpn}
use osassignment_hk.Memphy.{Memphy, get_freefp, read, write}

-- PAGING_MAX_SYMTBL_SZ
abbrev pub max_symtbl_sz : ℕ
max_symtbl_sz = 30

-- `struct vm_rg_struct`; a list of regions is a list.
pub record Rg : Type 0 where
  pub rg_start : ℕ
  pub rg_end : ℕ

-- `struct vm_area_struct`
pub record Vma : Type 0 where
  pub vm_id : ℕ
  pub vm_start : ℕ
  pub vm_end : ℕ
  pub sbrk : ℕ
  pub vm_freerg_list : List Rg

-- `struct mm_struct`. The list `mmap` is that of the areas, and `fifo_pgn` has the newest page first.
pub record Mm : Type 0 where
  pub pgd : ℕ → ℕ
  pub mmap : List Vma
  pub symrgtbl : ℕ → Rg
  pub fifo_pgn : List ℕ

-- A process as the memory code sees it: `mm`, `mram` and `active_mswp` of its PCB.
pub record Caller : Type 0 where
  pub mm : Mm
  pub mram : Memphy
  pub active_mswp : Memphy

-- Its arguments are of type int.
abbrev pub init_vm_rg : ℕ → ℕ → Rg
init_vm_rg rg_start rg_end = record { rg_start = as_int rg_start; rg_end = as_int rg_end }

unfoldable pub enlist_vm_rg_node : List Rg → Rg → List Rg
enlist_vm_rg_node rglist rgnode = rgnode ∷ rglist

unfoldable pub enlist_pgn_node : List ℕ → ℕ → List ℕ
enlist_pgn_node plist pgn = pgn ∷ plist

-- `init_mm` over a struct and a page directory that are not initialised; it always returns 0.
unfoldable pub init_mm : Mm → Mm
unfolding enlist_vm_rg_node
init_mm mm =
    let vma0 : Vma = record {
      vm_id = 0;
      vm_start = 0;
      vm_end = 0;
      sbrk = 0;
      vm_freerg_list = enlist_vm_rg_node [] (init_vm_rg 0 0);
    } in
    record mm { mmap = vma0 ∷ [] }

-- The loop of `vmap_page_range` over the page directory, with the rounds that are left. `i` counts
-- the pages that are mapped. The result says whether there were frames enough.
unfoldable pub map_loop : ℕ → ℕ → ℕ → List ℕ → (ℕ → ℕ) → Outcome (Ret × ℕ × (ℕ → ℕ))
map_loop zero first i frames pgd = ok (success, i, pgd)
map_loop (suc n) first i [] pgd = ok (failure, i, pgd)
map_loop (suc n) first i (fpn ∷ frames) pgd =
    let rest =
      map_loop n first (i + 1) frames
        (update pgd (first + i) (pte_set_fpn (pgd (first + i)) fpn)) in
    if ltb (first + i) max_pgn then rest else fault

-- The region and the memory that `vmap_page_range` leaves when its loop has ended.
unfoldable pub map_end : ℕ → ℕ → Mm → Ret × ℕ × (ℕ → ℕ) → Outcome (Ret × Rg × Mm)
unfolding enlist_pgn_node
map_end addr pgnum mm (success, pgit, pgd) = ok (
  success,
  record { rg_start = addr; rg_end = addr + pgnum * pagesz },
  record mm { pgd = pgd; fifo_pgn = enlist_pgn_node mm.fifo_pgn (pgn addr + pgit) },
)
map_end addr pgnum mm (failure, i, pgd) =
    ok (failure, record { rg_start = addr; rg_end = addr + i * pagesz }, record mm { pgd = pgd })

unfoldable pub vmap_page_range : Mm → ℕ → ℕ → List ℕ → Outcome (Ret × Rg × Mm)
unfolding map_loop map_end
vmap_page_range mm addr pgnum frames = do
  r ← map_loop pgnum (pgn addr) 0 frames mm.pgd
  map_end addr pgnum mm r

-- The loop of `alloc_pages_range`, with the rounds that are left and the list so far: its result,
-- `*frm_lst`, and the device. The frames are linked newest first.
unfoldable pub alloc_loop : ℕ → List ℕ → Memphy → Ret × List ℕ × Memphy
unfolding get_freefp
alloc_loop zero frm_lst mram = (success, frm_lst, mram)
alloc_loop (suc n) frm_lst mram =
    let (r, fpn, mram') = get_freefp mram 0 in
    elim r [ success ↦ alloc_loop n (fpn ∷ frm_lst) mram' | failure ↦ (failure, frm_lst, mram') ]

unfoldable pub alloc_pages_range : Memphy → ℕ → Ret × List ℕ × Memphy
unfolding alloc_loop
alloc_pages_range mram req_pgnum = alloc_loop req_pgnum [] mram

-- `vm_map_ram` when it has the answer of `alloc_pages_range`. It drops that of `vmap_page_range`.
unfoldable pub map_ram : Caller → ℕ → ℕ → Rg → Ret × List ℕ × Memphy → Outcome (Ret × Rg × Caller)
unfolding vmap_page_range
map_ram caller mapstart incpgnum ret_rg (failure, frm_lst, mram) =
    ok (failure, ret_rg, record caller { mram = mram })
map_ram caller mapstart incpgnum ret_rg (success, frm_lst, mram) = do
  (_, rg, mm) ← vmap_page_range caller.mm mapstart incpgnum frm_lst
  ok (success, rg, record caller { mm = mm; mram = mram })

-- The arguments `astart` and `aend` are not used.
unfoldable pub vm_map_ram : Caller → ℕ → ℕ → ℕ → ℕ → Rg → Outcome (Ret × Rg × Caller)
unfolding alloc_pages_range map_ram
vm_map_ram caller astart aend mapstart incpgnum ret_rg =
    map_ram caller mapstart incpgnum ret_rg (alloc_pages_range caller.mram incpgnum)

-- The loop of `__swap_cp_page` over `cellidx`, with the rounds that are left. `junk` is what `data`
-- holds before it is read.
unfoldable pub cp_loop : ℕ → ℕ → ℕ → Memphy → ℕ → Memphy → ℕ → Outcome (Memphy × Memphy)
unfolding read write
cp_loop junk zero cellidx mpsrc srcfpn mpdst dstfpn = ok (mpsrc, mpdst)
cp_loop junk (suc n) cellidx mpsrc srcfpn mpdst dstfpn = do
  (_, b, mpsrc) ← read mpsrc (srcfpn * pagesz + cellidx) junk
  (_, mpdst) ← write mpdst (dstfpn * pagesz + cellidx) b
  cp_loop junk n (cellidx + 1) mpsrc srcfpn mpdst dstfpn

-- `__swap_cp_page` between two devices; it always returns 0.
unfoldable pub swap_cp_page : ℕ → Memphy → ℕ → Memphy → ℕ → Outcome (Memphy × Memphy)
unfolding cp_loop
swap_cp_page junk mpsrc srcfpn mpdst dstfpn = cp_loop junk pagesz 0 mpsrc srcfpn mpdst dstfpn
