-- ===== src/Libmem/Alloc.antt =====
-- The regions that `__alloc` gives and `__free` takes back.
use osassignment_hk.Base.{
  ℕ, ◌+◌, ◌^◌, ◌≤◌, ◌<◌, ◌≡◌, refl, ap, ◌∙◌, leb, if_true, if_false, >>=-step, false, le→not_ltb,
  lt→ltb, update, List, ◌∷◌, set, some, success, ok, ◌>>=◌, arith,
}
use osassignment_hk.Pte.{pagesz, page_alignsz}
use osassignment_hk.Bitops.{div_round_up}
use osassignment_hk.Base.Bytes.{as_int, as_int_small}
use osassignment_hk.Mm.{Mm, init_vm_rg, Rg, Vma, Caller, max_symtbl_sz}
use osassignment_hk.MmVm.{find_vma, get_vma_by_num}
use osassignment_hk.Libmem.{
  Junk, enlist_vm_freerg_list, get_symrg_byid, get_symrg, set_symrg, width, first_fit, fit_in,
  cut_out, free_entry, alloc_found, get_free_vmrg_area, record_region, alloc, set_mmap, free,
  liballoc, libfree,
}
use osassignment_hk.Libmem.FirstFit.{Ordered, width_lem}

pub page_alignsz_bounds : (sz : ℕ) → (sz ≤ page_alignsz sz) × (page_alignsz sz < sz + pagesz)
unfolding page_alignsz div_round_up
page_alignsz_bounds sz = (omega arith, omega arith)

pub page_alignsz_twice : (sz : ℕ) → page_alignsz (page_alignsz sz) ≡ page_alignsz sz
unfolding page_alignsz div_round_up
page_alignsz_twice sz = omega arith

lt→not_leb : (b a : ℕ) → b < a → leb a b ≡ false
lt→not_leb b a h = ground arith

get_symrg_byid_lem : (rgid : ℕ) → rgid < max_symtbl_sz → get_symrg_byid rgid ≡ some rgid
unfolding get_symrg_byid
get_symrg_byid_lem rgid lt = if_false _ _ (le→not_ltb max_symtbl_sz rgid (omega arith))

abbrev pub freed : Caller → Vma → List Vma → Rg → Caller
freed caller vma rest rg = record caller {
  mm = record caller.mm { mmap = record vma { vm_freerg_list = rg ∷ vma.vm_freerg_list } ∷ rest };
}

-- The region of a symbol as `__free` enlists it, by way of int.
abbrev pub given_back : Mm → ℕ → Rg
given_back mm rgid = init_vm_rg (mm.symrgtbl rgid).rg_start (mm.symrgtbl rgid).rg_end

libfree_lem :
    (caller : Caller) (vma : Vma) (rest : List Vma) (rgid : ℕ)
    → caller.mm.mmap ≡ vma ∷ rest
    → rgid < max_symtbl_sz
    → (given_back caller.mm rgid).rg_start < (given_back caller.mm rgid).rg_end
    → libfree caller rgid ≡ ok (success, freed caller vma rest (given_back caller.mm rgid))
unfolding libfree free free_entry get_symrg enlist_vm_freerg_list set_mmap
libfree_lem caller vma rest rgid e lt some_bytes =
    let rg = given_back caller.mm rgid in
    let enlisted : enlist_vm_freerg_list (vma ∷ rest) rg
        ≡ ok (success, record vma { vm_freerg_list = rg ∷ vma.vm_freerg_list } ∷ rest) =
      if_false _ _ (lt→not_leb rg.rg_start rg.rg_end some_bytes) in
    ap (free_entry caller rgid) (get_symrg_byid_lem rgid lt)
    ∙ if_false _ _ (lt→not_leb rgid max_symtbl_sz lt)
    ∙ >>=-step _ (if_true _ _ (lt→ltb rgid max_symtbl_sz lt))
    ∙ >>=-step _ (ap (λ l. enlist_vm_freerg_list l rg) e ∙ enlisted)

-- Below 2 ^ 31 the region is that of the symbol.
libfree_int :
    (caller : Caller) (vma : Vma) (rest : List Vma) (rgid : ℕ)
    → caller.mm.mmap ≡ vma ∷ rest
    → rgid < max_symtbl_sz
    → (caller.mm.symrgtbl rgid).rg_start < (caller.mm.symrgtbl rgid).rg_end
    → (caller.mm.symrgtbl rgid).rg_end < 2 ^ 31
    → libfree caller rgid ≡ ok (success, freed caller vma rest (caller.mm.symrgtbl rgid))
libfree_int caller vma rest rgid e lt some_bytes small =
    let rg = caller.mm.symrgtbl rgid in
    let low : as_int rg.rg_start ≡ rg.rg_start = as_int_small rg.rg_start (omega (arith, small)) in
    let high : as_int rg.rg_end ≡ rg.rg_end = as_int_small rg.rg_end small in
    libfree_lem caller vma rest rgid e lt (omega (arith, low, high, some_bytes))
    ∙ (λ k. ok (success, freed caller vma rest (record { rg_start = low k; rg_end = high k })))

-- Of a process with an area, `libfree` of a region of the symbol table that is not empty once its limits
-- are converted to int succeeds, and again when it is called once more, since `__free` does not clear the
-- symbol: the region, with the limits converted, is then in the first area's free list twice.
pub libfree_twice :
    (caller : Caller) (vma : Vma) (rest : List Vma) (rgid : ℕ)
    → caller.mm.mmap ≡ vma ∷ rest
    → rgid < max_symtbl_sz
    → (given_back caller.mm rgid).rg_start < (given_back caller.mm rgid).rg_end
    → let rg = given_back caller.mm rgid in
      (libfree caller rgid >>= λ (_, caller'). libfree caller' rgid)
      ≡ ok (
        success,
        record caller {
          mm = record caller.mm {
            mmap = record vma { vm_freerg_list = rg ∷ rg ∷ vma.vm_freerg_list } ∷ rest;
          };
        },
      )
libfree_twice caller vma rest rgid e lt some_bytes =
    >>=-step _ (libfree_lem caller vma rest rgid e lt some_bytes)
    ∙ libfree_lem (freed caller vma rest (given_back caller.mm rgid)) _ rest rgid refl lt some_bytes

pub fits_first :
    (size : ℕ) (rg : Rg) (l : List Rg)
    → Ordered rg
    → rg.rg_start + size ≤ rg.rg_end
    → first_fit size (rg ∷ l)
      ≡ some (
        record { rg_start = rg.rg_start; rg_end = rg.rg_start + size },
        record rg { rg_start = rg.rg_start + size } ∷ l,
      )
unfolding first_fit
fits_first size rg l o le = if_true {b = leb size (width rg)} _ _ (ground (arith, width_lem rg o))

abbrev pub taken_from : Caller → ℕ → Vma → List Rg → ℕ → Rg → Caller
taken_from caller i vma l rgid rg = record caller {
  mm = record caller.mm {
    mmap = set caller.mm.mmap i (record vma { vm_freerg_list = l });
    symrgtbl = update caller.mm.symrgtbl rgid rg;
  };
}

pub alloc_lem :
    (junk : Junk) (caller : Caller) (vmaid rgid size alloc_addr i : ℕ) (vma : Vma) (newrg : Rg)
    (l : List Rg)
    → get_vma_by_num caller.mm.mmap vmaid ≡ ok (some (i, vma))
    → rgid < max_symtbl_sz
    → first_fit size vma.vm_freerg_list ≡ some (newrg, l)
    → alloc junk caller vmaid rgid size alloc_addr
      ≡ ok (success, newrg.rg_start, taken_from caller i vma l rgid newrg)
unfolding alloc alloc_found get_free_vmrg_area fit_in cut_out record_region set_symrg
alloc_lem junk caller vmaid rgid size alloc_addr i vma newrg l found lt fits =
    >>=-step _ (>>=-step _ found ∙ ap (λ r. ok (cut_out caller i vma r)) fits)
    ∙ >>=-step _ (if_true _ _ (lt→ltb rgid max_symtbl_sz lt))

-- A region that is given back is the first to be given out again. If a process has an area, and
-- `libfree` is called of a region of the symbol table that is not empty and ends below 2 ^ 31, then
-- `liballoc` of at most its size for any entry of the table succeeds without asking the kernel: the
-- new region starts where the old one did, and the free list keeps what is left of it.
pub liballoc-libfree :
    (junk : Junk) (caller : Caller) (vma : Vma) (rest : List Vma) (rgid rgid' size : ℕ)
    → caller.mm.mmap ≡ vma ∷ rest
    → rgid < max_symtbl_sz
    → rgid' < max_symtbl_sz
    → (caller.mm.symrgtbl rgid).rg_start < (caller.mm.symrgtbl rgid).rg_end
    → (caller.mm.symrgtbl rgid).rg_end < 2 ^ 31
    → (caller.mm.symrgtbl rgid).rg_start + size ≤ (caller.mm.symrgtbl rgid).rg_end
    → let rg = caller.mm.symrgtbl rgid in
      (libfree caller rgid >>= λ (_, caller'). liballoc junk caller' size rgid')
      ≡ ok (
        success,
        record caller {
          mm = record caller.mm {
            mmap =
                record vma {
                  vm_freerg_list = record rg { rg_start = rg.rg_start + size } ∷ vma.vm_freerg_list;
                }
                ∷ rest;
            symrgtbl =
                update caller.mm.symrgtbl rgid'
                  (record { rg_start = rg.rg_start; rg_end = rg.rg_start + size });
          };
        },
      )
unfolding liballoc get_vma_by_num find_vma
liballoc-libfree junk caller vma rest rgid rgid' size e lt lt' some_bytes word fits =
    let rg = caller.mm.symrgtbl rgid in
    let found : get_vma_by_num (freed caller vma rest rg).mm.mmap 0
        ≡ ok (some (0, record vma { vm_freerg_list = rg ∷ vma.vm_freerg_list })) =
      if_false _ _ (le→not_ltb vma.vm_id 0 (omega arith)) in
    >>=-step _ (libfree_int caller vma rest rgid e lt some_bytes word)
    ∙ >>=-step _ (
        ap (λ n. alloc junk (freed caller vma rest rg) 0 rgid' n junk.addr)
          (as_int_small size (omega (arith, fits, word)))
        ∙ alloc_lem junk (freed caller vma rest rg) 0 rgid' size junk.addr 0 _ _ _ found lt'
            (fits_first size rg vma.vm_freerg_list (omega arith, omega (arith, word)) fits))
