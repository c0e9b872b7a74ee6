-- ===== src/Paging/Bounds.antt =====
-- Accesses by a number that is not in the symbol table.
use osassignment_hk.Base.{
  ℕ, ◌≤◌, ◌<◌, ◌≡◌, refl, sym, ◌∙◌, ◌⊎◌, inl, inr, ◌==◌, lt→ltb, if_false, >>=-step, if◌then◌else◌,
  none, some, failure, ok, fault, subst, false, arith,
}
use osassignment_hk.Base.Bytes.{extend_byte}
use osassignment_hk.Mm.{Vma, Caller, max_symtbl_sz}
use osassignment_hk.MmVm.{get_vma_by_num}
use osassignment_hk.Libmem.{Junk, get_symrg_byid, get_symrg}
use osassignment_hk.Paging.{address_of, read_region, libread}

module _ (junk : Junk) (caller : Caller) (area : ℕ × Vma) (offset : ℕ) where
  address_of_last :
      get_vma_by_num caller.mm.mmap 0 ≡ ok (some area)
      → address_of caller 0 max_symtbl_sz offset ≡ fault
  unfolding address_of get_symrg_byid get_symrg
  address_of_last found = >>=-step _ found

  address_of_beyond :
      (rgid : ℕ)
      → get_vma_by_num caller.mm.mmap 0 ≡ ok (some area)
      → max_symtbl_sz < rgid
      → address_of caller 0 rgid offset ≡ ok none
  unfolding address_of get_symrg_byid
  address_of_beyond rgid found lt = >>=-step _ found ∙ rw (lt→ltb max_symtbl_sz rgid lt) refl

  last_faults :
      get_vma_by_num caller.mm.mmap 0 ≡ ok (some area)
      → libread junk caller max_symtbl_sz offset ≡ fault
  unfolding libread read_region
  last_faults found = rw (address_of_last found) refl

  -- For a process with an area, `libread` by a number past the symbol table fails and gives what its
  -- variable held, except for the first such number, 30: there it reads outside of the table, since
  -- `get_symrg_byid` lets it through.
  pub libread_past_table :
      (rgid : ℕ)
      → get_vma_by_num caller.mm.mmap 0 ≡ ok (some area)
      → max_symtbl_sz ≤ rgid
      → libread junk caller rgid offset
        ≡ (if rgid == max_symtbl_sz then fault else ok (failure, extend_byte junk.value, caller))
  unfolding libread read_region
  libread_past_table rgid found le =
      let split : (rgid ≡ max_symtbl_sz) ⊎ (max_symtbl_sz < rgid) = omega arith in
      elim split [
        | inl e ↦
            subst
              (λ k. libread junk caller k offset ≡ (
                if k == max_symtbl_sz then fault else ok (failure, extend_byte junk.value, caller)))
              (sym e) (last_faults found)
        | inr lt ↦
            let other : (rgid == max_symtbl_sz) ≡ false = ground arith in
            >>=-step _ (>>=-step _ (address_of_beyond rgid found lt)) ∙ sym (if_false _ _ other)
      ]
