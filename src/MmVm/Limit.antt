-- ===== src/MmVm/Limit.antt =====
-- The growth of an area by `inc_vma_limit`.
use osassignment_hk.Base.{
  ℕ, ◌%◌, ◌+◌, ◌/◌, ◌≤◌, ◌<◌, ◌≡◌, ap, ◌∙◌, ◌++◌, >>=-step, List, length-append, [], ◌∷◌, length,
  set, set-set, ◌^◌, some, Ret, success, failure, Outcome, ok, ◌>>=◌, arith,
}
use osassignment_hk.Pte.{page_alignsz_int_small, pagesz, max_pgn, pgn, page_alignsz}
use osassignment_hk.Base.Bytes.{as_int, as_int_small}
use osassignment_hk.Memphy.{Memphy}
use osassignment_hk.Mm.{Rg, Vma, Caller, alloc_pages_range, map_ram, vm_map_ram}
use osassignment_hk.Mm.Map.{
  granted, exhausted, newest_first, left_free, mapped, alloc_pages_range-Grants,
  vmap_page_range_maps,
}
use osassignment_hk.MmVm.{
  get_vma_by_num, area_at_brk, get_vm_area_node_at_brk, validate_overlap_vm_area, set_vma, settle,
  pages_of, grow, inc_vma_limit,
}

-- The request meets area `vma`, number `i` of the process, its new part overlaps no other, and sizes and
-- addresses are in the range of int.
pub record Meets (caller : Caller) (vmaid inc_sz i : ℕ) (vma : Vma) : Type 0 where
  pub found : get_vma_by_num caller.mm.mmap vmaid ≡ ok (some (i, vma))
  pub apart :
      validate_overlap_vm_area caller.mm.mmap vmaid vma.sbrk (vma.sbrk + page_alignsz inc_sz)
      ≡ success
  pub size_int : inc_sz + pagesz < 2 ^ 31
  pub end_int : vma.vm_end < 2 ^ 31
  pub new_int : vma.sbrk + page_alignsz inc_sz < 2 ^ 31

-- The process after the area was changed, with the list of free frames that is left.
abbrev pub limited : Caller → ℕ → Vma → List ℕ → Caller
limited caller i vma free = set_vma (record caller { mram = left_free caller.mram free }) i vma

exhausted_alloc :
    (mram : Memphy) (n : ℕ)
    → length mram.free_fp_list < n
    → (l : List ℕ) × (alloc_pages_range mram n ≡ (failure, l, left_free mram []))
exhausted_alloc mram n short = elim (alloc_pages_range-Grants mram n) [
  | granted taken rest whole len e ↦
      absurd (omega (arith, ap length whole, length-append taken rest, short))
  | exhausted _ e ↦ (newest_first mram.free_fp_list [], e)
]

granted_alloc :
    (mram : Memphy) (n : ℕ)
    → n ≤ length mram.free_fp_list
    → (taken rest : List ℕ) × (mram.free_fp_list ≡ taken ++ rest)
      × (length taken ≡ n)
      × (alloc_pages_range mram n ≡ (success, newest_first taken [], left_free mram rest))
granted_alloc mram n enough = elim (alloc_pages_range-Grants mram n) [
  | granted taken rest whole len e ↦ (taken, rest, whole, len, e)
  | exhausted short e ↦ absurd (omega arith)
]

newest_first-length : (l acc : List ℕ) → length (newest_first l acc) ≡ length l + length acc
newest_first-length [] acc = omega arith
newest_first-length (x ∷ l) acc = omega (arith, newest_first-length l (x ∷ acc))

module _ (caller : Caller) (vmaid inc_sz i : ℕ) (vma : Vma)
    (m : Meets caller vmaid inc_sz i vma) where
  amount : ℕ
  amount = page_alignsz inc_sz

  extended : Vma
  unfolding amount
  extended = record vma { vm_end = vma.sbrk + amount; sbrk = vma.sbrk + amount }

  new_part : Rg
  unfolding amount
  new_part = record { rg_start = vma.sbrk; rg_end = vma.sbrk + amount }

  -- The conversions to int change nothing.
  grow_int :
      grow caller vmaid amount
        (some (i, vma))
        (some (record { rg_start = vma.sbrk; rg_end = (vma.sbrk + amount) % 2 ^ 64 }))
      ≡ (elim (validate_overlap_vm_area caller.mm.mmap vmaid vma.sbrk (vma.sbrk + amount)) [
        | failure ↦ ok (failure, caller)
        | success ↦
            vm_map_ram
              (set_vma caller i extended)
              vma.sbrk
              (vma.sbrk + amount)
              vma.vm_end
              (amount / pagesz)
              new_part
            >>= λ r. ok (settle i vma r)
      ])
  unfolding grow pages_of amount extended new_part
  grow_int =
      let word : (vma.sbrk + amount) % 2 ^ 64 ≡ vma.sbrk + amount = omega (arith, m.new_int) in
      let low : as_int vma.sbrk ≡ vma.sbrk = as_int_small vma.sbrk (omega (arith, m.new_int)) in
      let high : as_int ((vma.sbrk + amount) % 2 ^ 64) ≡ vma.sbrk + amount =
        ap as_int word ∙ as_int_small (vma.sbrk + amount) m.new_int in
      let old : as_int vma.vm_end ≡ vma.vm_end = as_int_small vma.vm_end m.end_int in
      let pages : pages_of amount ≡ amount / pagesz = ground (arith, m.new_int) in
      λ k.
        elim (validate_overlap_vm_area caller.mm.mmap vmaid (low k) (high k))
          as (λ _. Outcome (Ret × Caller)) [
            | failure ↦ ok (failure, caller)
            | success ↦
                vm_map_ram (set_vma caller i (record vma { vm_end = word k; sbrk = word k }))
                  (low k) (high k) (old k) (pages k)
                  (record { rg_start = vma.sbrk; rg_end = word k })
                >>= λ r. ok (settle i vma r)
          ]

  inc_vma_limit_maps : inc_vma_limit caller vmaid inc_sz ≡ (
      vm_map_ram
        (set_vma caller i extended)
        vma.sbrk
        (vma.sbrk + amount)
        vma.vm_end
        (amount / pagesz)
        new_part
      >>= λ r. ok (settle i vma r))
  unfolding inc_vma_limit get_vm_area_node_at_brk area_at_brk grow amount extended new_part
  inc_vma_limit_maps =
      >>=-step _ (page_alignsz_int_small inc_sz m.size_int)
      ∙ >>=-step _ (>>=-step _ m.found)
      ∙ >>=-step _ m.found
      ∙ grow_int
      ∙ (λ k. elim (m.apart k) as (λ _. Outcome (Ret × Caller)) [
        | failure ↦ ok (failure, caller)
        | success ↦
            vm_map_ram (set_vma caller i extended) vma.sbrk (vma.sbrk + amount) vma.vm_end
              (amount / pagesz) new_part
            >>= λ r. ok (settle i vma r)
      ])

  pub inc_vma_limit_exhausted :
      length caller.mram.free_fp_list < page_alignsz inc_sz / pagesz
      → inc_vma_limit caller vmaid inc_sz
        ≡ ok (failure, limited caller i (record vma { sbrk = vma.vm_end }) [])
  unfolding vm_map_ram map_ram settle amount
  inc_vma_limit_exhausted short =
      let (l, e) = exhausted_alloc caller.mram (page_alignsz inc_sz / pagesz) short in
      inc_vma_limit_maps
      ∙ >>=-step _
          (ap (map_ram (set_vma caller i extended) vma.vm_end (amount / pagesz) new_part) e)
      ∙ ap
          (λ (l : List Vma). ok (
            failure,
            record caller { mm = record caller.mm { mmap = l }; mram = left_free caller.mram [] },
          ))
          (set-set caller.mm.mmap i extended _)
      ∙ ap (λ e. ok (failure, limited caller i (record vma { vm_end = e; sbrk = e }) []))
          (as_int_small vma.vm_end m.end_int)

  -- If the request meets an area and overlaps no other, RAM has a free frame for each of its pages,
  -- and the pages from the area's end on are in the page directory, `inc_vma_limit` succeeds. Both
  -- limits of the area move to the old `sbrk` plus the aligned size; the pages from the old end on get
  -- the frames from the front of the free list, the last one first; no other entry of the directory
  -- changes; and one page is enlisted for replacement, the one after the last that was mapped.
  pub inc_vma_limit_grows :
      page_alignsz inc_sz / pagesz ≤ length caller.mram.free_fp_list
      → pgn vma.vm_end + page_alignsz inc_sz / pagesz ≤ max_pgn
      → let n = page_alignsz inc_sz / pagesz in
        (taken rest : List ℕ) × (caller.mram.free_fp_list ≡ taken ++ rest)
        × (length taken ≡ n)
        × (inc_vma_limit caller vmaid inc_sz
            ≡ ok (
              success,
              record caller {
                mm = record caller.mm {
                  pgd = mapped caller.mm.pgd (pgn vma.vm_end) n (newest_first taken []);
                  mmap = set caller.mm.mmap i (record vma {
                    vm_end = vma.sbrk + page_alignsz inc_sz;
                    sbrk = vma.sbrk + page_alignsz inc_sz;
                  });
                  fifo_pgn = (pgn vma.vm_end + n) ∷ caller.mm.fifo_pgn;
                };
                mram = left_free caller.mram rest;
              },
            ))
  unfolding vm_map_ram map_ram settle amount extended
  inc_vma_limit_grows enough low =
      let n = page_alignsz inc_sz / pagesz in
      let (taken, rest, whole, len, e) = granted_alloc caller.mram n enough in
      (
        taken,
        rest,
        whole,
        len,
        inc_vma_limit_maps
            ∙ >>=-step _ (
                ap (map_ram (set_vma caller i extended) vma.vm_end (amount / pagesz) new_part) e
                ∙ >>=-step _ (
                    vmap_page_range_maps (set_vma caller i extended).mm vma.vm_end n
                      (newest_first taken []) (omega (arith, newest_first-length taken [])) low)),
      )
