-- ===== src/Killall/Release.antt =====
-- What src/sys_killall.c does to the memory of a process that it terminates: `libfree` of the regions
-- that the ten registers name.
use osassignment_hk.Base.{
  ℕ, zero, suc, ◌+◌, ◌≡◌, refl, sym, ap, ◌∙◌, inl, inr, Bool, true, false, ◌&&◌, ltb, leb, ◌==◌,
  if◌then◌else◌, if_true, if_false, update, update_self, update_same, update_twice, List, [], ◌∷◌,
  Option, none, some, Ret, success, failure, ok, ◌>>=◌, >>=-step, Bool-cases, arith,
}
use osassignment_hk.Mm.{Rg, Vma, Mm, Caller, max_symtbl_sz}
use osassignment_hk.Libmem.{
  enlist_vm_freerg_list, get_symrg_byid, get_symrg, free_entry, set_mmap, free, libfree,
}
use osassignment_hk.Libmem.Alloc.{given_back}
use osassignment_hk.Process.{Proc, Os, set_proc, put_caller}
use osassignment_hk.Killall.{free_regs}

-- A number of the symbol table whose region is not empty.
unfoldable pub has_region : Mm → ℕ → Bool
has_region mm r = ltb r max_symtbl_sz && ltb (given_back mm r).rg_start (given_back mm r).rg_end

-- The free list of an area once a region came back.
abbrev pub returned : Mm → ℕ → List Rg → List Rg
returned mm r l = if has_region mm r then given_back mm r ∷ l else l

abbrev with_free : Mm → Vma → List Vma → List Rg → Mm
with_free mm vma rest l = record mm { mmap = record vma { vm_freerg_list = l } ∷ rest }

same_free :
    (mm : Mm) (vma : Vma) (rest : List Vma)
    → mm.mmap ≡ vma ∷ rest
    → mm ≡ with_free mm vma rest vma.vm_freerg_list
same_free mm vma rest e = ap (λ l. record mm { mmap = l }) e

free_entry_above :
    (caller : Caller) (r : ℕ) (entry : Option ℕ)
    → ltb r max_symtbl_sz ≡ false
    → free_entry caller r entry ≡ ok (failure, caller)
unfolding free_entry
free_entry_above caller r none above = refl
free_entry_above caller r (some entry) above =
    let past : leb max_symtbl_sz r ≡ true = ground arith in if_true _ _ past

-- The entry of the table is there.
free_entry_below :
    (caller : Caller) (vma : Vma) (rest : List Vma) (r : ℕ)
    → caller.mm.mmap ≡ vma ∷ rest
    → ltb r max_symtbl_sz ≡ true
    → free_entry caller r (get_symrg_byid r) ≡ (
        enlist_vm_freerg_list (vma ∷ rest) (given_back caller.mm r) >>= λ s. ok (set_mmap caller s))
unfolding free_entry get_symrg_byid get_symrg
free_entry_below caller vma rest r e below =
    let found : ltb max_symtbl_sz r ≡ false = ground arith in
    let inside : leb max_symtbl_sz r ≡ false = ground arith in
    ap (free_entry caller r) (if_false _ _ found)
    ∙ if_false _ _ inside
    ∙ >>=-step _ (if_true _ _ below)
    ∙ ap (λ l. enlist_vm_freerg_list l (given_back caller.mm r) >>= λ s. ok (set_mmap caller s)) e

module _ (caller : Caller) (vma : Vma) (rest : List Vma) (r : ℕ)
    (e : caller.mm.mmap ≡ vma ∷ rest) where
  abbrev after_free : List Rg → Caller
  after_free l = record caller { mm = with_free caller.mm vma rest l }

  unchanged : caller ≡ after_free vma.vm_freerg_list
  unchanged = ap (λ mm. record caller { mm = mm }) (same_free caller.mm vma rest e)

  libfree_below :
      ltb r max_symtbl_sz ≡ true
      → (rc : Ret) × (libfree caller r
          ≡ ok (rc, after_free (returned caller.mm r vma.vm_freerg_list)))
  unfolding libfree free enlist_vm_freerg_list set_mmap has_region
  libfree_below below =
      let rg = given_back caller.mm r in
      elim (Bool-cases (ltb rg.rg_start rg.rg_end)) [
        | inl more ↦
            let filled : leb rg.rg_end rg.rg_start ≡ false = ground arith in
            let comes : has_region caller.mm r ≡ true = rw (below, more) refl in
            (
              success,
              free_entry_below caller vma rest r e below
                  ∙ >>=-step _ (if_false _ _ filled)
                  ∙ ap (λ l. ok (success, after_free l)) (sym (if_true _ _ comes)),
            )
        | inr empty ↦
            let hollow : leb rg.rg_end rg.rg_start ≡ true = ground arith in
            let stays : has_region caller.mm r ≡ false = rw (below, empty) refl in
            (
              failure,
              free_entry_below caller vma rest r e below
                  ∙ >>=-step _ (if_true _ _ hollow)
                  ∙ ap (λ l. ok (failure, after_free l)) (sym (if_false _ _ stays)),
            )
      ]

  -- A process with an area: `libfree` returns for every number.
  libfree-returned :
      (rc : Ret) × (libfree caller r
        ≡ ok (rc, after_free (returned caller.mm r vma.vm_freerg_list)))
  libfree-returned = elim (Bool-cases (ltb r max_symtbl_sz)) [
    | inl below ↦ libfree_below below
    | inr above ↦ (
      failure,
      unfold libfree free has_region in
          free_entry_above caller r (get_symrg_byid r) above
          ∙ ap (λ c. ok (failure, c)) unchanged
          ∙ rw above refl,
    )
  ]

-- The free list once the registers from `j` on were gone through.
unfoldable pub all_returned : Proc → ℕ → ℕ → List Rg → List Rg
all_returned p zero j l = l
all_returned p (suc n) j l =
    all_returned p n (j + 1) (if p.regs j == 0 then l else returned p.mm (p.regs j) l)

-- The process `p` of which the first area has the free list `l`.
abbrev with_list : Proc → Vma → List Vma → List Rg → Proc
with_list p vma rest l = record p { mm = with_free p.mm vma rest l }

-- `put_caller` for a PCB that is `q`.
abbrev put_caller_of : Os → ℕ → Proc → Caller → Os
put_caller_of os h q caller = record os {
  procs = update os.procs h (record q { mm = caller.mm });
  mram = caller.mram;
  active_mswp = caller.active_mswp;
}

free_regs-all_returned :
    (os : Os) (h : ℕ) (p : Proc) (vma : Vma) (rest : List Vma) (n j : ℕ) (l : List Rg)
    → free_regs (set_proc os h (with_list p vma rest l)) h n j
      ≡ ok (set_proc os h (with_list p vma rest (all_returned p n j l)))
unfolding free_regs all_returned has_region
free_regs-all_returned os h p vma rest zero j l = refl
free_regs-all_returned os h p vma rest (suc n) j l =
    let start = set_proc os h (with_list p vma rest l) in
    let own : start.procs h ≡ with_list p vma rest l = update_self os.procs h _ in
    elim (Bool-cases (p.regs j == 0)) [
      | inl unused ↦
          if_true _ _ (ap (λ (q : Proc). q.regs j == 0) own ∙ unused)
          ∙ free_regs-all_returned os h p vma rest n (j + 1) l
          ∙ ap (λ m. ok (set_proc os h (with_list p vma rest (all_returned p n (j + 1) m))))
              (sym (if_true _ _ unused))
      | inr used ↦
          let l' = returned p.mm (p.regs j) l in
          let caller : Caller = record {
            mm = with_free p.mm vma rest l;
            mram = os.mram;
            active_mswp = os.active_mswp;
          } in
          let (rc, freed) =
            libfree-returned caller (record vma { vm_freerg_list = l }) rest (p.regs j) refl in
          let after : Caller = record caller { mm = with_free p.mm vma rest l' } in
          let put : put_caller start h after ≡ set_proc os h (with_list p vma rest l') =
            ap (λ (q : Proc). put_caller_of start h q after) own
            ∙ ap (λ f. record os { procs = f })
                (update_twice os.procs h (with_list p vma rest l) (with_list p vma rest l')) in
          if_false _ _ (ap (λ (q : Proc). q.regs j == 0) own ∙ used)
          ∙ >>=-step _ (
              ap
                (λ (q : Proc).
                  libfree (record { mm = q.mm; mram = os.mram; active_mswp = os.active_mswp })
                    (q.regs j))
                own
              ∙ freed)
          ∙ ap (λ o. free_regs o h n (j + 1)) put
          ∙ free_regs-all_returned os h p vma rest n (j + 1) l'
          ∙ ap (λ m. ok (set_proc os h (with_list p vma rest (all_returned p n (j + 1) m))))
              (sym (if_false _ _ used))
    ]

-- What is left of the areas of a process that is terminated.
abbrev released_areas : Proc → List Vma → List Vma
released_areas p [] = []
released_areas p (vma ∷ rest) =
    record vma { vm_freerg_list = all_returned p 10 0 vma.vm_freerg_list } ∷ rest

-- The process once its regions were freed.
abbrev pub released : Proc → Proc
released p = record p { mm = record p.mm { mmap = released_areas p p.mm.mmap } }

-- A process with an area.
abbrev pub HasArea : Proc → Type 0
HasArea p = (vma : Vma) × (rest : List Vma) × (p.mm.mmap ≡ vma ∷ rest)

pub free_regs-released :
    (os : Os) (h : ℕ)
    → HasArea (os.procs h)
    → free_regs os h 10 0 ≡ ok (set_proc os h (released (os.procs h)))
free_regs-released os h (vma, rest, e) =
    let p = os.procs h in
    let same : set_proc os h (with_list p vma rest vma.vm_freerg_list) ≡ os =
      ap (λ f. record os { procs = f })
        (update_same os.procs h _ (ap (λ mm. record p { mm = mm }) (same_free p.mm vma rest e))) in
    ap (λ o. free_regs o h 10 0) (sym same)
    ∙ free_regs-all_returned os h p vma rest 10 0 vma.vm_freerg_list
    ∙ ap (λ l. ok (set_proc os h (record p { mm = record p.mm { mmap = released_areas p l } })))
        (sym e)

pub released-HasArea : (p : Proc) → HasArea p → HasArea (released p)
released-HasArea p (vma, rest, e) = (
  record vma { vm_freerg_list = all_returned p 10 0 vma.vm_freerg_list },
  rest,
  ap (released_areas p) e,
)
