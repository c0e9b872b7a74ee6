-- ===== src/Paging/Fault.antt =====
-- `pg_getpage` of a page that is not present, when a victim and a free frame of swap are there.
use osassignment_hk.Base.{
  ℕ, ◌+◌, ◌-◌, ◌*◌, ◌^◌, ◌≤◌, ◌<◌, ◌≡◌, ◌≢◌, refl, sym, ap, subst, fun_ext, ◌∙◌, inl, inr,
  Bool-cases, true, false, ◌&&◌, leb, ltb, if◌then◌else◌, if_true, if_false, lt→ltb, update,
  update_self, update_other, List, [], ◌∷◌, ◌++◌, Ret, success, failure, Outcome, ok, ◌>>=◌,
  >>=-step, arith,
}
use osassignment_hk.Pte.{pagesz, max_pgn, page_present, pte_fpn, pte_set_swap, pte_set_fpn}
use osassignment_hk.Pte.Laws.{
  Online, Swapped, pte_set_fpn-Online, pte_set_swap-Swapped, pte_fpn_lem,
}
use osassignment_hk.Memphy.{Memphy, get_freefp, take_frame}
use osassignment_hk.Mm.{Mm, Caller, enlist_pgn_node}
use osassignment_hk.Mm.Swap.{swap_cp_page_copies}
use osassignment_hk.MmVm.{mm_swap_page}
use osassignment_hk.SysMem.{sys_memmap, swp_op}
use osassignment_hk.Libmem.{Junk}
use osassignment_hk.Paging.{
  unlink_last, victim_of, find_victim_page, get_pte, set_pte, page_in, swap_page, frame_of,
  pg_getpage,
}

unlink_last-append :
    (x : ℕ) (xs : List ℕ) (vic : ℕ) → unlink_last x (xs ++ vic ∷ []) ≡ (vic, x ∷ xs)
unfolding unlink_last
unlink_last-append x [] vic = refl
unlink_last-append x (y ∷ xs) vic =
    ap (λ (r : ℕ × List ℕ). (r.0, x ∷ r.1)) (unlink_last-append y xs vic)

-- The victim is the page at the end.
find_victim_page-append :
    (mm : Mm) (retpgn : ℕ) (kept : List ℕ) (vic : ℕ)
    → mm.fifo_pgn ≡ kept ++ vic ∷ []
    → find_victim_page mm retpgn ≡ (success, vic, record mm { fifo_pgn = kept })
unfolding find_victim_page victim_of unlink_last
find_victim_page-append mm retpgn [] vic e = ap (victim_of mm retpgn) e
find_victim_page-append mm retpgn (x ∷ xs) vic e =
    ap (victim_of mm retpgn) e
    ∙ ap (λ (r : ℕ × List ℕ). (success, r.0, record mm { fifo_pgn = r.1 }))
        (unlink_last-append x xs vic)

-- The bytes `dst` once its page `df` was copied from page `sf` of `src`.
abbrev pub with_page : (ℕ → ℕ) → ℕ → (ℕ → ℕ) → ℕ → ℕ → ℕ
with_page src sf dst df addr =
    if leb (df * pagesz) addr && ltb addr ((df + 1) * pagesz)
    then src (sf * pagesz + (addr - df * pagesz))
    else dst addr

-- A frame of a device of random access.
abbrev pub HasFrame : Memphy → ℕ → Type 0
HasFrame mp fpn = (mp.rdmflg ≢ 0) × ((fpn + 1) * pagesz ≤ mp.maxsz)

abbrev swapped : Caller → ℕ → ℕ → Caller
swapped caller sf df = record caller {
  active_mswp = record caller.active_mswp {
    storage = with_page caller.mram.storage sf caller.active_mswp.storage df;
  };
}

mm_swap_page-swapped :
    (junk : ℕ) (caller : Caller) (sf df : ℕ)
    → HasFrame caller.mram sf
    → HasFrame caller.active_mswp df
    → mm_swap_page junk caller sf df ≡ ok (swapped caller sf df)
unfolding mm_swap_page
mm_swap_page-swapped junk caller sf df from to =
    let (f, e, bytes) =
      swap_cp_page_copies junk caller.mram sf caller.active_mswp df from.0 to.0 from.1 to.1 in
    >>=-step _ e
    ∙ ap (λ g. ok (record caller { active_mswp = record caller.active_mswp { storage = g } }))
        (fun_ext bytes)

swap_op_copies :
    (junk : ℕ) (caller : Caller) (sf df : ℕ)
    → HasFrame caller.mram sf
    → HasFrame caller.active_mswp df
    → sys_memmap junk caller (record { a1 = swp_op; a2 = sf; a3 = df })
      ≡ ok (success, record { a1 = swp_op; a2 = sf; a3 = df }, swapped caller sf df)
unfolding sys_memmap
swap_op_copies junk caller sf df from to =
    >>=-step _ (mm_swap_page-swapped junk caller sf df from to)

get_pte_inside : (mm : Mm) (p : ℕ) → p < max_pgn → get_pte mm p ≡ ok (mm.pgd p)
unfolding get_pte
get_pte_inside mm p h = if_true _ _ (lt→ltb p max_pgn h)

-- A page that is not present, the victim at the end of the list, and the first free frame of swap.
pub record Faults (caller : Caller) (pgn vic : ℕ) (kept : List ℕ) (swp : ℕ) (free : List ℕ)
    : Type 0 where
  pub entry : pgn < max_pgn
  pub absent : page_present (caller.mm.pgd pgn) ≡ false
  pub order : caller.mm.fifo_pgn ≡ kept ++ vic ∷ []
  pub other : vic ≢ pgn
  pub vic_entry : vic < max_pgn
  pub words : (caller.mm.pgd pgn < 2 ^ 32) × (caller.mm.pgd vic < 2 ^ 32)
  pub room : caller.active_mswp.free_fp_list ≡ swp ∷ free
  pub narrow : swp < 2 ^ 21
  pub vic_frame : HasFrame caller.mram (pte_fpn (caller.mm.pgd vic))
  pub old_frame : HasFrame caller.mram (pte_fpn (caller.mm.pgd pgn))
  pub swp_frame : HasFrame caller.active_mswp swp
  pub same_frame : HasFrame caller.active_mswp (pte_fpn (caller.mm.pgd vic))

-- What `pg_getpage` leaves: the entries, the order of the pages, RAM, and swap.
pub record PagedIn (caller : Caller) (pgn vic : ℕ) (kept : List ℕ) (swp : ℕ) (free : List ℕ)
    (after : Caller) : Type 0 where
  pub target : Online (caller.mm.pgd pgn) (pte_fpn (caller.mm.pgd vic)) (after.mm.pgd pgn)
  pub victim : Swapped (caller.mm.pgd vic) 0 swp (after.mm.pgd vic)
  pub others : (p : ℕ) → vic ≢ p → pgn ≢ p → after.mm.pgd p ≡ caller.mm.pgd p
  pub newest : after.mm.fifo_pgn ≡ pgn ∷ kept
  pub same_ram : after.mram ≡ caller.mram
  pub taken : after.active_mswp.free_fp_list ≡ free
  pub saved :
      swp ≢ pte_fpn (caller.mm.pgd vic)
      → (i : ℕ) → i < pagesz
      → after.active_mswp.storage (swp * pagesz + i)
        ≡ caller.mram.storage (pte_fpn (caller.mm.pgd vic) * pagesz + i)
  pub overwritten :
      (i : ℕ)
      → i < pagesz
      → after.active_mswp.storage (pte_fpn (caller.mm.pgd vic) * pagesz + i)
        ≡ caller.mram.storage (pte_fpn (caller.mm.pgd pgn) * pagesz + i)

with_page_inside :
    (src : ℕ → ℕ) (sf : ℕ) (dst : ℕ → ℕ) (df i : ℕ)
    → i < pagesz
    → with_page src sf dst df (df * pagesz + i) ≡ src (sf * pagesz + i)
with_page_inside src sf dst df i h =
    let lo : leb (df * pagesz) (df * pagesz + i) ≡ true = ground arith in
    let hi : ltb (df * pagesz + i) ((df + 1) * pagesz) ≡ true = ground arith in
    let off : df * pagesz + i - df * pagesz ≡ i = omega arith in rw (lo, hi, off) refl

with_page_other :
    (src : ℕ → ℕ) (sf : ℕ) (dst : ℕ → ℕ) (df other i : ℕ)
    → i < pagesz
    → other ≢ df
    → with_page src sf dst df (other * pagesz + i) ≡ dst (other * pagesz + i)
with_page_other src sf dst df other i h ne =
    elim (Bool-cases
      (leb (df * pagesz) (other * pagesz + i) && ltb (other * pagesz + i) ((df + 1) * pagesz))) [
        | inl e ↦ absurd (ground arith)
        | inr e ↦ rw e refl
      ]

module _ (junk : Junk) {caller : Caller} {pgn vic : ℕ} {kept : List ℕ} {swp : ℕ} {free : List ℕ}
    (f : Faults caller pgn vic kept swp free) where
  -- The memory and the devices as the two system calls leave them.
  abbrev after_calls : Caller
  after_calls =
      swapped
        (swapped
          (record caller {
            mm = record caller.mm { fifo_pgn = kept };
            active_mswp = record caller.active_mswp { free_fp_list = free };
          })
          (pte_fpn (caller.mm.pgd vic)) swp)
        (pte_fpn (caller.mm.pgd pgn)) (pte_fpn (caller.mm.pgd vic))

  abbrev paged : Caller
  paged = record after_calls {
    mm = record caller.mm {
      pgd = update (update caller.mm.pgd vic (pte_set_swap (caller.mm.pgd vic) 0 swp)) pgn (
          pte_set_fpn (update caller.mm.pgd vic (pte_set_swap (caller.mm.pgd vic) 0 swp) pgn)
            (pte_fpn (caller.mm.pgd vic)));
      fifo_pgn = pgn ∷ kept;
    };
  }

  page_in-paged : page_in after_calls pgn vic (pte_fpn (caller.mm.pgd vic)) swp ≡ ok paged
  unfolding page_in get_pte set_pte enlist_pgn_node
  page_in-paged = rw (lt→ltb _ _ f.vic_entry, lt→ltb _ _ f.entry) refl

  -- The state before the first call.
  abbrev before_calls : Caller
  before_calls = record caller {
    mm = record caller.mm { fifo_pgn = kept };
    active_mswp = record caller.active_mswp { free_fp_list = free };
  }

  got_frame :
      get_freefp caller.active_mswp junk.swpfpn
      ≡ (success, swp, record caller.active_mswp { free_fp_list = free })
  unfolding get_freefp take_frame
  got_frame = ap (λ l. take_frame l caller.active_mswp junk.swpfpn) f.room

  -- `swap_page` with what its first two calls give.
  abbrev rest_of : Ret × ℕ × Mm → Ret × ℕ × Memphy → Outcome (Ret × Caller)
  rest_of (_, vicpgn, mm) (_, swpfpn, mswp) = do
    let start = record caller { mm = mm; active_mswp = mswp }
    vicpte ← get_pte start.mm vicpgn
    (rc, _, c) ←
        sys_memmap junk.value start (record { a1 = swp_op; a2 = pte_fpn vicpte; a3 = swpfpn })
    elim rc [
      | failure ↦ ok (failure, c)
      | success ↦ do
        (rc', _, c) ←
            sys_memmap junk.value c
              (record { a1 = swp_op; a2 = pte_fpn (caller.mm.pgd pgn); a3 = pte_fpn vicpte })
        elim rc' [
          | failure ↦ ok (failure, c)
          | success ↦ do c ← page_in c pgn vicpgn (pte_fpn vicpte) swpfpn; ok (success, c)
        ]
    ]

  swap_page-paged : swap_page junk caller pgn (caller.mm.pgd pgn) ≡ ok (success, paged)
  unfolding swap_page
  swap_page-paged =
      (λ i.
        rest_of (find_victim_page-append caller.mm junk.vicpgn kept vic f.order i) (got_frame i))
      ∙ >>=-step _ (get_pte_inside before_calls.mm vic f.vic_entry)
      ∙ >>=-step _ (
          swap_op_copies junk.value before_calls (pte_fpn (caller.mm.pgd vic)) swp f.vic_frame
            f.swp_frame)
      ∙ >>=-step _ (
          swap_op_copies junk.value (swapped before_calls (pte_fpn (caller.mm.pgd vic)) swp)
            (pte_fpn (caller.mm.pgd pgn)) (pte_fpn (caller.mm.pgd vic)) f.old_frame f.same_frame)
      ∙ >>=-step _ page_in-paged

  target_entry : paged.mm.pgd pgn ≡ pte_set_fpn (caller.mm.pgd pgn) (pte_fpn (caller.mm.pgd vic))
  target_entry =
      update_self (update caller.mm.pgd vic (pte_set_swap (caller.mm.pgd vic) 0 swp)) pgn _
      ∙ ap (λ old. pte_set_fpn old (pte_fpn (caller.mm.pgd vic)))
          (update_other caller.mm.pgd vic (pte_set_swap (caller.mm.pgd vic) 0 swp) pgn f.other)

  victim_entry : paged.mm.pgd vic ≡ pte_set_swap (caller.mm.pgd vic) 0 swp
  victim_entry =
      update_other (update caller.mm.pgd vic (pte_set_swap (caller.mm.pgd vic) 0 swp)) pgn _ vic
        (λ e. f.other (sym e))
      ∙ update_self caller.mm.pgd vic (pte_set_swap (caller.mm.pgd vic) 0 swp)

  target_Online : Online (caller.mm.pgd pgn) (pte_fpn (caller.mm.pgd vic)) (paged.mm.pgd pgn)
  target_Online =
      subst (Online (caller.mm.pgd pgn) (pte_fpn (caller.mm.pgd vic))) (sym target_entry) (
        pte_set_fpn-Online (caller.mm.pgd pgn) (pte_fpn (caller.mm.pgd vic)) f.words.0
          (omega (arith, pte_fpn_lem (caller.mm.pgd vic))))

  -- The bytes of swap between the two calls.
  abbrev between : ℕ → ℕ
  between = (swapped before_calls (pte_fpn (caller.mm.pgd vic)) swp).active_mswp.storage

  paged-PagedIn : PagedIn caller pgn vic kept swp free paged
  paged-PagedIn = record {
    target = target_Online;
    victim =
        subst (Swapped (caller.mm.pgd vic) 0 swp) (sym victim_entry)
          (pte_set_swap-Swapped (caller.mm.pgd vic) 0 swp f.words.1 (omega arith) f.narrow);
    others = λ p nv np.
        update_other (update caller.mm.pgd vic (pte_set_swap (caller.mm.pgd vic) 0 swp)) pgn _ p np
        ∙ update_other caller.mm.pgd vic (pte_set_swap (caller.mm.pgd vic) 0 swp) p nv;
    newest = refl;
    same_ram = refl;
    taken = refl;
    saved = λ ne i h.
        with_page_other caller.mram.storage (pte_fpn (caller.mm.pgd pgn)) between
          (pte_fpn (caller.mm.pgd vic)) swp i h ne
        ∙ with_page_inside caller.mram.storage (pte_fpn (caller.mm.pgd vic))
            caller.active_mswp.storage swp i h;
    overwritten = λ i h.
        with_page_inside caller.mram.storage (pte_fpn (caller.mm.pgd pgn)) between
          (pte_fpn (caller.mm.pgd vic)) i h;
  }

  -- If a page is not present, the frames that the fault uses lie inside of RAM and swap, and
  -- another page is the oldest of the enlisted ones, `pg_getpage` succeeds and gives the frame of
  -- that victim, in which the page is present then. The victim is marked as swapped to the first
  -- free frame of swap, which is taken and has its bytes, unless it has the number of the victim's
  -- frame: the bytes of that frame of swap are overwritten. The page is enlisted as the newest in
  -- place of the victim, and RAM and all other entries are as they were.
  pub pg_getpage_faults :
      (after : Caller) × (pg_getpage junk caller pgn
        ≡ ok (success, pte_fpn (caller.mm.pgd vic), after))
      × PagedIn caller pgn vic kept swp free after
  unfolding pg_getpage frame_of
  pg_getpage_faults = (
    paged,
    >>=-step _ (get_pte_inside caller.mm pgn f.entry)
        ∙ >>=-step _ (if_false _ _ f.absent ∙ swap_page-paged)
        ∙ >>=-step _ (get_pte_inside paged.mm pgn f.entry)
        ∙ ap (λ n. ok (success, n, paged)) target_Online.frame,
    paged-PagedIn,
  )
