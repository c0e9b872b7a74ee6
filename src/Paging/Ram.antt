-- ===== src/Paging/Ram.antt =====
-- What a page fault does to RAM.
use osassignment_hk.Base.{
  ℕ, zero, suc, ◌+◌, ◌*◌, ◌≡◌, refl, sym, subst, ◌∙◌, Ret, success, failure, Outcome, ok, Holds,
  Holds->>=, Holds-any, Holds-ok, true, false, Bool-cases, inl, inr, ◌==◌, ltb, if◌then◌else◌,
}
use osassignment_hk.Pte.{pagesz, page_present, pte_fpn, pte_set_swap, pte_set_fpn}
use osassignment_hk.Memphy.{Memphy, load, seq_read, read, write, get_freefp}
use osassignment_hk.Mm.{Caller, cp_loop, swap_cp_page}
use osassignment_hk.MmVm.{mm_swap_page}
use osassignment_hk.SysMem.{sys_memmap, swp_op}
use osassignment_hk.Libmem.{Junk}
use osassignment_hk.Paging.{
  find_victim_page, get_pte, set_pte, page_in, swap_page, frame_of, pg_getpage,
}

read_keeps : (mp : Memphy) (addr v : ℕ) → Holds (λ r. r.2 ≡ mp) (read mp addr v)
unfolding read seq_read load
read_keeps mp addr v = elim (Bool-cases (mp.rdmflg == 0)) [
  | inl e ↦ rw e refl
  | inr e ↦ elim (Bool-cases (ltb addr mp.maxsz)) [ inl h ↦ rw (e, h) refl | inr h ↦ rw (e, h) tt ]
]

cp_loop_keeps :
    (junk n c : ℕ) (mpsrc : Memphy) (sf : ℕ) (mpdst : Memphy) (df : ℕ)
    → Holds (λ r. r.0 ≡ mpsrc) (cp_loop junk n c mpsrc sf mpdst df)
unfolding cp_loop
cp_loop_keeps junk zero c mpsrc sf mpdst df = refl
cp_loop_keeps junk (suc n) c mpsrc sf mpdst df =
    Holds->>= (λ r. r.2 ≡ mpsrc) _ (read mpsrc (sf * pagesz + c) junk) _
      (read_keeps mpsrc (sf * pagesz + c) junk)
      (λ (_, b, src) e.
        Holds-any (λ r. r.0 ≡ mpsrc) (write mpdst (df * pagesz + c) b) _
          (λ (_, dst).
            subst (λ m. Holds (λ r. r.0 ≡ mpsrc) (cp_loop junk n (c + 1) m sf dst df)) (sym e)
              (cp_loop_keeps junk n (c + 1) mpsrc sf dst df)))

swap_op_keeps :
    (junk : ℕ) (caller : Caller) (a2 a3 : ℕ)
    → Holds
        (λ r. r.2.mram ≡ caller.mram)
        (sys_memmap junk caller (record { a1 = swp_op; a2 = a2; a3 = a3 }))
unfolding sys_memmap mm_swap_page swap_cp_page
swap_op_keeps junk caller a2 a3 =
    Holds->>= (λ (c : Caller). c.mram ≡ caller.mram) _ (mm_swap_page junk caller a2 a3) _
      (Holds->>= (λ r. r.0 ≡ caller.mram) _
        (cp_loop junk pagesz 0 caller.mram a2 caller.active_mswp a3) _
        (cp_loop_keeps junk pagesz 0 caller.mram a2 caller.active_mswp a3) (λ (mram, mswp) e. e))
      (λ c e. e)

page_in_keeps :
    (caller : Caller) (pgn vicpgn vicfpn swpfpn : ℕ)
    → Holds (λ (c : Caller). c.mram ≡ caller.mram) (page_in caller pgn vicpgn vicfpn swpfpn)
unfolding page_in
page_in_keeps caller pgn vicpgn vicfpn swpfpn = Holds-any _ (get_pte caller.mm vicpgn) _ (λ vicpte.
    Holds-any _ (set_pte caller.mm vicpgn (pte_set_swap vicpte 0 swpfpn)) _ (λ mm.
      Holds-any _ (get_pte mm pgn) _
        (λ old. Holds-any _ (set_pte mm pgn (pte_set_fpn old vicfpn)) _ (λ mm'. refl))))

ret_keeps :
    {A : Type 0} (Q : A → Type 0) (rc : Ret) (x : A) (m : Outcome A)
    → Q x
    → Holds Q m
    → Holds Q (elim rc [ failure ↦ ok x | success ↦ m ])
ret_keeps Q failure x m h h' = h
ret_keeps Q success x m h h' = h'

swap_page_keeps :
    (junk : Junk) (caller : Caller) (pgn pte : ℕ)
    → Holds (λ r. r.1.mram ≡ caller.mram) (swap_page junk caller pgn pte)
unfolding swap_page
swap_page_keeps junk caller pgn pte =
    let (_, vicpgn, mm) = find_victim_page caller.mm junk.vicpgn in
    let (_, swpfpn, mswp) = get_freefp caller.active_mswp junk.swpfpn in
    let start = record caller { mm = mm; active_mswp = mswp } in
    Holds-any (λ r. r.1.mram ≡ caller.mram) (get_pte mm vicpgn) _
      (λ vicpte.
        Holds->>= (λ r. r.2.mram ≡ caller.mram) (λ r. r.1.mram ≡ caller.mram) _ _
          (swap_op_keeps junk.value start (pte_fpn vicpte) swpfpn)
          (λ (rc, _, c) e.
            ret_keeps (λ r. r.1.mram ≡ caller.mram) rc (failure, c) _ e
              (Holds->>= (λ r. r.2.mram ≡ c.mram) (λ r. r.1.mram ≡ caller.mram) _ _
                (swap_op_keeps junk.value c (pte_fpn pte) (pte_fpn vicpte))
                (λ (rc', _, c') e'.
                  ret_keeps (λ r. r.1.mram ≡ caller.mram) rc' (failure, c') _ (e' ∙ e)
                    (Holds->>= (λ (d : Caller). d.mram ≡ c'.mram) (λ r. r.1.mram ≡ caller.mram) _ _
                      (page_in_keeps c' pgn vicpgn (pte_fpn vicpte) swpfpn)
                      (λ d e''. e'' ∙ e' ∙ e))))))

frame_of_keeps :
    (pgn : ℕ) (rc : Ret) (caller : Caller)
    → Holds (λ r. r.2.mram ≡ caller.mram) (frame_of pgn (rc, caller))
unfolding frame_of
frame_of_keeps pgn failure caller = refl
frame_of_keeps pgn success caller = Holds-any _ (get_pte caller.mm pgn) _ (λ pte. refl)

pg_getpage_keeps :
    (junk : Junk) (caller : Caller) (pgn : ℕ)
    → Holds (λ r. r.2.mram ≡ caller.mram) (pg_getpage junk caller pgn)
unfolding pg_getpage
pg_getpage_keeps junk caller pgn =
    Holds-any (λ r. r.2.mram ≡ caller.mram) (get_pte caller.mm pgn) _
      (λ pte.
        Holds->>= (λ r. r.1.mram ≡ caller.mram) _
          (if page_present pte then ok (success, caller) else swap_page junk caller pgn pte) _
          (elim (page_present pte)
            as (λ b.
              Holds (λ r. r.1.mram ≡ caller.mram)
                (if b then ok (success, caller) else swap_page junk caller pgn pte)) [
                  | true ↦ refl
                  | false ↦ swap_page_keeps junk caller pgn pte
                ])
          (λ (rc, c) e.
            subst (λ m. Holds (λ r. r.2.mram ≡ m) (frame_of pgn (rc, c))) e
              (frame_of_keeps pgn rc c)))

-- Whatever page is asked for, and whether it is present or not, a `pg_getpage` that returns leaves
-- RAM, its bytes and its list of free frames, as it was: no byte comes back from swap.
pub pg_getpage_never_loads :
    (junk : Junk) (caller : Caller) (pgn : ℕ) (rc : Ret) (fpn : ℕ) (after : Caller)
    → pg_getpage junk caller pgn ≡ ok (rc, fpn, after)
    → after.mram ≡ caller.mram
pg_getpage_never_loads junk caller pgn rc fpn after e =
    Holds-ok (λ r. r.2.mram ≡ caller.mram) (pg_getpage junk caller pgn) (rc, fpn, after)
      (pg_getpage_keeps junk caller pgn) e
