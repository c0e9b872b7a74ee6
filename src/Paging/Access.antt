-- ===== src/Paging/Access.antt =====
-- Bytes of a region whose page is present.
use osassignment_hk.Base.{
  ℕ, ◌+◌, ◌*◌, ◌^◌, ◌<◌, ◌≡◌, ◌≢◌, refl, ap, ◌∙◌, true, ◌==◌, Outcome, Ret, failure, subst, fault,
  none, le→not_ltb, if_true, if_false, >>=-step, lt→ltb, if◌then◌else◌, some, success, ok, ◌>>=◌,
  update, arith,
}
use osassignment_hk.Base.Bytes.{extend_byte, to_byte, to_byte-extend_byte}
use osassignment_hk.Pte.{pagesz, max_pgn, page_present, pte_fpn, pgn, offst}
use osassignment_hk.Memphy.{write}
use osassignment_hk.Memphy.Access.{written, read_random, write_random}
use osassignment_hk.Mm.{Vma, Mm, Caller, max_symtbl_sz}
use osassignment_hk.MmVm.{get_vma_by_num}
use osassignment_hk.SysMem.{sys_memmap, io_read, io_write}
use osassignment_hk.Libmem.{Junk, get_symrg_byid, get_symrg}
use osassignment_hk.Paging.{
  get_pte, frame_of, pg_getpage, pg_getval, pg_setval, address_of, read_region, write_region,
  libread, libwrite,
}

-- Byte `offset` of region `rgid` stands at address `at` of RAM, in a page that is present.
pub record Mapped (caller : Caller) (rgid offset at : ℕ) : Type 0 where
  pub area : ℕ × Vma
  pub found : get_vma_by_num caller.mm.mmap 0 ≡ ok (some area)
  pub entry : rgid < max_symtbl_sz
  pub low : pgn ((caller.mm.symrgtbl rgid).rg_start + offset) < max_pgn
  pub present :
      page_present (caller.mm.pgd (pgn ((caller.mm.symrgtbl rgid).rg_start + offset))) ≡ true
  pub place :
      at
      ≡ pte_fpn (caller.mm.pgd (pgn ((caller.mm.symrgtbl rgid).rg_start + offset))) * pagesz
        + offst ((caller.mm.symrgtbl rgid).rg_start + offset)
  pub random : caller.mram.rdmflg ≢ 0
  pub inside : at < caller.mram.maxsz
  pub byte : caller.mram.storage at < 2 ^ 8

get_pte_lem : (mm : Mm) (num : ℕ) → num < max_pgn → get_pte mm num ≡ ok (mm.pgd num)
unfolding get_pte
get_pte_lem mm num lt = if_true (ok (mm.pgd num)) fault (lt→ltb num max_pgn lt)

-- A page that is present is not moved: `pg_getpage` gives the frame of its entry, and changes nothing.
pub pg_getpage_present :
    (junk : Junk) (caller : Caller) (num : ℕ)
    → num < max_pgn
    → page_present (caller.mm.pgd num) ≡ true
    → pg_getpage junk caller num ≡ ok (success, pte_fpn (caller.mm.pgd num), caller)
unfolding pg_getpage frame_of
pg_getpage_present junk caller num lt present =
    >>=-step _ (get_pte_lem caller.mm num lt)
    ∙ >>=-step (frame_of num) (if_true _ _ present)
    ∙ >>=-step (λ pte. ok (success, pte_fpn pte, caller)) (get_pte_lem caller.mm num lt)

sys_memmap-io_read :
    (junk : ℕ) (caller : Caller) (at a3 : ℕ)
    → caller.mram.rdmflg ≢ 0
    → at < caller.mram.maxsz
    → sys_memmap junk caller (record { a1 = io_read; a2 = at; a3 = a3 })
      ≡ ok (
        success,
        record { a1 = io_read; a2 = at; a3 = extend_byte (caller.mram.storage at) },
        caller,
      )
unfolding sys_memmap
sys_memmap-io_read junk caller at a3 h lt = >>=-step _ (read_random caller.mram at junk h lt)

abbrev stored : Caller → ℕ → ℕ → Caller
stored caller at b = record caller { mram = written caller.mram at b }

sys_memmap-io_write :
    (junk : ℕ) (caller : Caller) (at a3 : ℕ)
    → caller.mram.rdmflg ≢ 0
    → at < caller.mram.maxsz
    → sys_memmap junk caller (record { a1 = io_write; a2 = at; a3 = a3 })
      ≡ ok (success, record { a1 = io_write; a2 = at; a3 = a3 }, stored caller at (to_byte a3))
unfolding sys_memmap
sys_memmap-io_write junk caller at a3 h lt =
    >>=-step _ (write_random caller.mram at (to_byte a3) h lt)

module _ {caller : Caller} {rgid offset at : ℕ} (m : Mapped caller rgid offset at) where
  addr : ℕ
  addr = (caller.mm.symrgtbl rgid).rg_start + offset

  get_symrg_lem : get_symrg caller.mm rgid ≡ ok (caller.mm.symrgtbl rgid)
  unfolding get_symrg
  get_symrg_lem = if_true _ _ (lt→ltb rgid max_symtbl_sz m.entry)

  get_symrg_byid_lem : get_symrg_byid rgid ≡ some rgid
  unfolding get_symrg_byid
  get_symrg_byid_lem = if_false none (some rgid) (le→not_ltb _ _ (omega (arith, m.entry)))

  address_of_lem : address_of caller 0 rgid offset ≡ ok (some addr)
  unfolding address_of addr
  address_of_lem = >>=-step _ m.found ∙ rw (get_symrg_byid_lem, get_symrg_lem) refl

  pg_getval_lem :
      (junk : Junk) (value : ℕ)
      → pg_getval junk caller addr value ≡ ok (success, caller.mram.storage at, caller)
  unfolding pg_getval addr
  pg_getval_lem junk value =
      >>=-step _ (pg_getpage_present junk caller (pgn addr) m.low m.present)
      ∙ >>=-step _ (
          subst
            (λ k.
              sys_memmap junk.value caller (record { a1 = io_read; a2 = k; a3 = junk.value })
              ≡ ok (
                success,
                record { a1 = io_read; a2 = at; a3 = extend_byte (caller.mram.storage at) },
                caller,
              ))
            m.place (sys_memmap-io_read junk.value caller at junk.value m.random m.inside))
      ∙ ap (λ b. ok (success, b, caller)) (to_byte-extend_byte (caller.mram.storage at) m.byte)

  pub libread_lem :
      (junk : Junk)
      → libread junk caller rgid offset ≡ ok (success, extend_byte (caller.mram.storage at), caller)
  unfolding libread read_region
  libread_lem junk =
      >>=-step _ (>>=-step _ address_of_lem ∙ >>=-step _ (pg_getval_lem junk junk.value))

  pg_setval_lem :
      (junk : Junk) (value : ℕ)
      → pg_setval junk caller addr value
        ≡ ok (success, stored (stored caller at (to_byte (extend_byte value))) at value)
  unfolding pg_setval addr
  pg_setval_lem junk value =
      >>=-step _ (pg_getpage_present junk caller (pgn addr) m.low m.present)
      ∙ subst
          (λ k.
            (sys_memmap junk.value caller (record { a1 = io_write; a2 = k; a3 = extend_byte value })
              >>= λ (rc', _, caller). elim rc' as (λ _. Outcome (Ret × Caller)) [
                | failure ↦ ok (failure, caller)
                | success ↦ write caller.mram k value >>= λ (_, mram).
                    ok (success, record caller { mram = mram })
              ])
            ≡ ok (success, stored (stored caller at (to_byte (extend_byte value))) at value))
          m.place
          (>>=-step _
              (sys_memmap-io_write junk.value caller at (extend_byte value) m.random m.inside)
            ∙ >>=-step _ (
                write_random (written caller.mram at (to_byte (extend_byte value))) at value
                  m.random m.inside))

  libwrite_lem :
      (junk : Junk) (value : ℕ)
      → libwrite junk caller value rgid offset
        ≡ ok (success, stored (stored caller at (to_byte (extend_byte value))) at value)
  unfolding libwrite write_region
  libwrite_lem junk value = >>=-step _ address_of_lem ∙ >>=-step _ (pg_setval_lem junk value)

twice : (f : ℕ → ℕ) (at b k : ℕ) → update (update f at b) at b k ≡ (if at == k then b else f k)
twice f at b k = ground arith

updated_bound : (f : ℕ → ℕ) (to b at : ℕ) → b < 2 ^ 8 → f at < 2 ^ 8 → update f to b at < 2 ^ 8
updated_bound f to b at lt lt' = ground arith

stored-Mapped :
    {caller : Caller} {rgid offset at : ℕ} (to b : ℕ)
    → Mapped caller rgid offset at
    → b < 2 ^ 8
    → Mapped (stored caller to b) rgid offset at
stored-Mapped {caller} {at = at} to b m lt = record {
  area = m.area;
  found = m.found;
  entry = m.entry;
  low = m.low;
  present = m.present;
  place = m.place;
  random = m.random;
  inside = m.inside;
  byte = updated_bound caller.mram.storage to b at lt m.byte;
}

-- Let two bytes of a process be in regions of its symbol table and in pages that are present, with
-- addresses `at` and `at'` inside of a random access RAM, where they hold patterns of eight bits.
-- Then `libwrite` of a pattern of eight bits to the first succeeds, and `libread` of the second
-- then succeeds and gives the value that was written if the addresses are the same, and what the
-- byte held if they differ. The value comes back extended by its sign, as the code stores a byte in
-- a uint32_t.
pub libread-libwrite :
    (junk : Junk) (caller : Caller) (rgid offset at rgid' offset' at' value : ℕ)
    → Mapped caller rgid offset at
    → Mapped caller rgid' offset' at'
    → value < 2 ^ 8
    → (caller' : Caller) × (libwrite junk caller value rgid offset ≡ ok (success, caller'))
      × (libread junk caller' rgid' offset'
          ≡ ok (
            success,
            extend_byte (if at == at' then value else caller.mram.storage at'),
            caller',
          ))
libread-libwrite junk caller rgid offset at rgid' offset' at' value m m' lt =
    let same = to_byte-extend_byte value lt in
    let after = stored (stored caller at value) at value in
    (
      after,
      subst
          (λ b.
            libwrite junk caller value rgid offset
            ≡ ok (success, stored (stored caller at b) at value))
          same (libwrite_lem m junk value),
      libread_lem (stored-Mapped at value (stored-Mapped at value m' lt) lt) junk
          ∙ ap (λ b. ok (success, extend_byte b, after)) (twice caller.mram.storage at value at'),
    )
