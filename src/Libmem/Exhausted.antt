-- ===== src/Libmem/Exhausted.antt =====
-- `liballoc` when RAM has too few free frames.
use osassignment_hk.Base.{
  ℕ, ◌+◌, ◌/◌, ◌%◌, ◌>>=◌, ◌^◌, ◌<◌, ◌≡◌, refl, sym, ap, subst, ◌∙◌, if_true, if_false, >>=-step,
  le→not_ltb, lt→ltb, update, List, [], ◌∷◌, length, none, some, success, failure, ok, arith,
}
use osassignment_hk.Base.Bytes.{as_int, as_int_small, add_int, add_int_small}
use osassignment_hk.Pte.{page_alignsz_int_small, pagesz, page_alignsz}
use osassignment_hk.Mm.{init_vm_rg, Rg, Vma, Caller, max_symtbl_sz, enlist_vm_rg_node}
use osassignment_hk.Mm.Map.{left_free}
use osassignment_hk.MmVm.{
  find_vma, get_vma_by_num, set_vma, inc_vma_limit, validate_overlap_vm_area,
}
use osassignment_hk.MmVm.Limit.{inc_vma_limit_exhausted}
use osassignment_hk.SysMem.{sys_memmap}
use osassignment_hk.Libmem.{
  Junk, set_symrg, first_fit, cut_out, fit_in, get_free_vmrg_area, enlist_in, sbrk_of,
  record_region, extend_heap, alloc_found, alloc, liballoc,
}
use osassignment_hk.Libmem.Alloc.{page_alignsz_bounds, page_alignsz_twice, fits_first}

abbrev with_areas : Caller → List Vma → Caller
with_areas caller l = record caller { mm = record caller.mm { mmap = l } }

get_first : (vma : Vma) (rest : List Vma) → get_vma_by_num (vma ∷ rest) 0 ≡ ok (some (0, vma))
unfolding get_vma_by_num find_vma
get_first vma rest = if_false _ _ (le→not_ltb vma.vm_id 0 (omega arith))

module _ (junk : Junk) (caller : Caller) (vma : Vma) (rest : List Vma) (rgid size : ℕ) where
  -- The process that `liballoc` leaves: there is a region, but no page was mapped.
  pub unbacked : Caller
  unbacked = record caller {
    mm = record caller.mm {
      mmap =
          record vma {
            sbrk = vma.vm_end;
            vm_freerg_list =
                record { rg_start = vma.sbrk + size; rg_end = vma.sbrk + page_alignsz size }
                ∷ vma.vm_freerg_list;
          }
          ∷ rest;
      symrgtbl =
          update caller.mm.symrgtbl rgid (record { rg_start = vma.sbrk; rg_end = vma.sbrk + size });
    };
    mram = left_free caller.mram [];
  }

  start : Caller
  start = with_areas caller (vma ∷ rest)

  no_fit :
      first_fit size vma.vm_freerg_list ≡ none → get_free_vmrg_area start 0 size ≡ ok (none, start)
  unfolding get_free_vmrg_area fit_in cut_out start
  no_fit none_fits =
      >>=-step _ (get_first vma rest) ∙ ap (λ r. ok (cut_out start 0 vma r)) none_fits

  limited_areas : Caller
  limited_areas = record caller {
    mm = record caller.mm { mmap = record vma { sbrk = vma.vm_end } ∷ rest };
    mram = left_free caller.mram [];
  }

  inc_refused :
      validate_overlap_vm_area (vma ∷ rest) 0 vma.sbrk (vma.sbrk + page_alignsz size) ≡ success
      → length caller.mram.free_fp_list < page_alignsz size / pagesz
      → vma.sbrk + page_alignsz size + pagesz < 2 ^ 31
      → vma.vm_end < 2 ^ 31
      → inc_vma_limit start 0 (page_alignsz size) ≡ ok (failure, limited_areas)
  unfolding start limited_areas
  inc_refused apart short word end_word =
      let twice = page_alignsz_twice size in
      inc_vma_limit_exhausted start 0 (page_alignsz size) 0 vma
        (record {
          found = get_first vma rest;
          apart =
              subst (λ k. validate_overlap_vm_area (vma ∷ rest) 0 vma.sbrk (vma.sbrk + k) ≡ success)
                (sym twice) apart;
          size_int = omega (arith, word);
          end_int = end_word;
          new_int = omega (arith, word, twice);
        })
        (subst (λ k. length caller.mram.free_fp_list < k / pagesz) (sym twice) short)

  new : Rg
  new = record { rg_start = vma.sbrk; rg_end = vma.sbrk + page_alignsz size }

  cut_new :
      (c : Caller)
      → vma.sbrk + page_alignsz size < 2 ^ 64
      → (shrunk : Vma)
      → c.mm.mmap ≡ record shrunk { vm_freerg_list = new ∷ shrunk.vm_freerg_list } ∷ rest
      → get_free_vmrg_area c 0 size
        ≡ ok (
          some (record { rg_start = vma.sbrk; rg_end = vma.sbrk + size }),
          set_vma c 0 (record shrunk {
            vm_freerg_list = record new { rg_start = vma.sbrk + size } ∷ shrunk.vm_freerg_list;
          }),
        )
  unfolding get_free_vmrg_area fit_in cut_out new
  cut_new c word shrunk e =
      let area = record shrunk { vm_freerg_list = new ∷ shrunk.vm_freerg_list } in
      let fits =
        fits_first size new shrunk.vm_freerg_list (omega arith, word)
          (omega (arith, (page_alignsz_bounds size).0)) in
      >>=-step _ (ap (λ l. get_vma_by_num l 0) e ∙ get_first area rest)
      ∙ ap (λ r. ok (cut_out c 0 area r)) fits

  start-unbacked :
      rgid < max_symtbl_sz
      → vma.sbrk + page_alignsz size + pagesz < 2 ^ 31
      → vma.vm_end < 2 ^ 31
      → first_fit size vma.vm_freerg_list ≡ none
      → validate_overlap_vm_area (vma ∷ rest) 0 vma.sbrk (vma.sbrk + page_alignsz size) ≡ success
      → length caller.mram.free_fp_list < page_alignsz size / pagesz
      → liballoc junk start size rgid ≡ ok (success, unbacked)
  unfolding liballoc alloc alloc_found extend_heap sbrk_of sys_memmap enlist_in enlist_vm_rg_node
      record_region set_symrg start limited_areas unbacked new
  start-unbacked lt word end_word none_fits apart short =
      let whole = page_alignsz size in
      let (no_less, _) = page_alignsz_bounds size in
      let small : as_int size ≡ size = as_int_small size (omega (arith, no_less, word)) in
      let low : as_int vma.sbrk ≡ vma.sbrk = as_int_small vma.sbrk (omega (arith, word)) in
      let sent : as_int (whole % 2 ^ 32) ≡ whole =
        ap as_int (omega (arith, word)) ∙ as_int_small whole (omega (arith, word)) in
      let high : as_int (vma.sbrk + whole) ≡ vma.sbrk + whole =
        as_int_small (vma.sbrk + whole) (omega (arith, word)) in
      let summed : add_int (as_int vma.sbrk) whole ≡ ok (vma.sbrk + whole) =
        ap (λ n. add_int n whole) low ∙ add_int_small vma.sbrk whole (omega (arith, word)) in
      let same_new : init_vm_rg (as_int vma.sbrk) (vma.sbrk + whole) ≡ new =
        λ k. record { rg_start = (ap as_int low ∙ low) k; rg_end = high k } in
      let shrunk : Vma = record vma { sbrk = vma.vm_end } in
      ap (λ n. alloc junk start 0 rgid n junk.addr >>= λ (rc, _, proc). ok (rc, proc)) small
      ∙ >>=-step _ (
          >>=-step _ (no_fit none_fits)
          ∙ >>=-step _ (get_first vma rest)
          ∙ >>=-step _ (page_alignsz_int_small size (omega (arith, no_less, word)))
          ∙ >>=-step _
              (>>=-step _ (ap (inc_vma_limit start 0) sent ∙ inc_refused apart short word end_word))
          ∙ >>=-step _ (get_first shrunk rest)
          ∙ >>=-step _ summed
          ∙ ap
              (λ rg. enlist_in limited_areas (some (0, shrunk)) rg >>= λ c.
                get_free_vmrg_area c 0 size >>= λ (rg, c). record_region rgid junk.addr rg c)
              same_new
          ∙ >>=-step _ (cut_new _ (omega (arith, word)) shrunk refl)
          ∙ >>=-step _ (if_true _ _ (lt→ltb rgid max_symtbl_sz lt)))

  -- If no free region of the process's first area is large enough, the area ends below 2 ^ 31 and
  -- can be extended by the request, with a page to spare, below 2 ^ 31 without overlapping another,
  -- and RAM has fewer free frames than the request has pages, `liballoc` for an entry of the symbol
  -- table still succeeds: the failure of `inc_vma_limit` is dropped on its way through the system
  -- call. The new region starts at the old `sbrk`, no page is mapped for it, and `sbrk` goes back
  -- to the area's end.
  pub liballoc_without_frames :
      caller.mm.mmap ≡ vma ∷ rest
      → rgid < max_symtbl_sz
      → vma.sbrk + page_alignsz size + pagesz < 2 ^ 31
      → vma.vm_end < 2 ^ 31
      → first_fit size vma.vm_freerg_list ≡ none
      → validate_overlap_vm_area (vma ∷ rest) 0 vma.sbrk (vma.sbrk + page_alignsz size) ≡ success
      → length caller.mram.free_fp_list < page_alignsz size / pagesz
      → liballoc junk caller size rgid ≡ ok (success, unbacked)
  unfolding start
  liballoc_without_frames e lt word end_word none_fits apart short =
      subst (λ l. liballoc junk (with_areas caller l) size rgid ≡ ok (success, unbacked)) (sym e)
        (start-unbacked lt word end_word none_fits apart short)
