-- ===== src/Mm/Map.antt =====
-- The frames that `alloc_pages_range` takes, and the entries that `vmap_page_range` writes.
use osassignment_hk.Base.{
  ℕ, zero, suc, ◌+◌, ◌-◌, ◌*◌, ◌≤◌, ◌<◌, ◌≡◌, refl, sym, ap, subst, ◌∙◌, ◌++◌, leb, ltb, ◌&&◌,
  lt→ltb, if_true, if_false, true, false, fun_ext, ◌⊎◌, >>=-step, if◌then◌else◌, inl, inr, update,
  update_self, update_other, List, [], ◌∷◌, length, get_or, Ret, success, failure, ok, arith,
}
use osassignment_hk.Pte.{pagesz, max_pgn, pgn, pte_set_fpn}
use osassignment_hk.Memphy.{Memphy, get_freefp, take_frame}
use osassignment_hk.Mm.{
  Mm, map_loop, map_end, vmap_page_range, alloc_loop, alloc_pages_range, enlist_pgn_node,
}

-- The frames of a list put in front of others one by one, so that the last comes first.
abbrev pub newest_first : List ℕ → List ℕ → List ℕ
newest_first [] acc = acc
newest_first (fpn ∷ rest) acc = newest_first rest (fpn ∷ acc)

abbrev pub left_free : Memphy → List ℕ → Memphy
left_free mram free = record mram { free_fp_list = free }

-- How a request for `n` frames may end, over the frames `acc` that are there already.
pub data Grants (n : ℕ) (acc : List ℕ) (mram : Memphy) (r : Ret × List ℕ × Memphy) : Type 0 where
  granted :
      (taken rest : List ℕ)
      → mram.free_fp_list ≡ taken ++ rest
      → length taken ≡ n
      → r ≡ (success, newest_first taken acc, left_free mram rest)
      → Grants n acc mram r
  exhausted :
      length mram.free_fp_list < n
      → r ≡ (failure, newest_first mram.free_fp_list acc, left_free mram [])
      → Grants n acc mram r

Grants-more :
    (n : ℕ) (acc : List ℕ) (mram : Memphy) (fpn : ℕ) (free : List ℕ) (r : Ret × List ℕ × Memphy)
    → Grants n (fpn ∷ acc) (left_free mram free) r
    → Grants (suc n) acc (left_free mram (fpn ∷ free)) r
Grants-more n acc mram fpn free r (granted taken rest whole len e) =
    granted (fpn ∷ taken) rest (ap (λ l. fpn ∷ l) whole) (ap suc len) e
Grants-more n acc mram fpn free r (exhausted short e) = exhausted (omega arith) e

alloc_loop-Grants :
    (n : ℕ) (acc : List ℕ) (mram : Memphy) (free : List ℕ)
    → Grants n acc (left_free mram free) (alloc_loop n acc (left_free mram free))
unfolding alloc_loop get_freefp take_frame
alloc_loop-Grants zero acc mram free = granted [] free refl refl refl
alloc_loop-Grants (suc n) acc mram [] = exhausted (omega arith) refl
alloc_loop-Grants (suc n) acc mram (fpn ∷ free) =
    Grants-more n acc mram fpn free _ (alloc_loop-Grants n (fpn ∷ acc) mram free)

-- `alloc_pages_range` takes the frames from the front of the free list and links the last one first.
-- If there are fewer than were asked for it fails, and the free list is then empty: the frames that
-- it took are not put back.
pub alloc_pages_range-Grants :
    (mram : Memphy) (req_pgnum : ℕ) → Grants req_pgnum [] mram (alloc_pages_range mram req_pgnum)
unfolding alloc_pages_range
alloc_pages_range-Grants mram req_pgnum = alloc_loop-Grants req_pgnum [] mram mram.free_fp_list

-- The page directory after the pages from `lo` on were given the frames of a list.
unfoldable pub mapped : (ℕ → ℕ) → ℕ → ℕ → List ℕ → ℕ → ℕ
mapped pgd lo n frames p =
    if leb lo p && ltb p (lo + n) then pte_set_fpn (pgd p) (get_or frames (p - lo) 0) else pgd p

mapped_zero : (pgd : ℕ → ℕ) (lo : ℕ) (frames : List ℕ) (p : ℕ) → pgd p ≡ mapped pgd lo 0 frames p
unfolding mapped
mapped_zero pgd lo frames p =
    let outside : leb lo p && ltb p (lo + 0) ≡ false = ground arith in sym (if_false _ _ outside)

mapped_step :
    (pgd : ℕ → ℕ) (lo n fpn : ℕ) (frames : List ℕ) (p : ℕ)
    → mapped (update pgd lo (pte_set_fpn (pgd lo) fpn)) (lo + 1) n frames p
      ≡ mapped pgd lo (suc n) (fpn ∷ frames) p
unfolding mapped
mapped_step pgd lo n fpn frames p =
    let split : (p ≡ lo) ⊎ ((p < lo) ⊎ (lo < p)) = omega arith in
    elim split [
      | inl e ↦
          let outside : leb (lo + 1) lo && ltb lo (lo + 1 + n) ≡ false = ground arith in
          let inside : leb lo lo && ltb lo (lo + suc n) ≡ true = ground arith in
          let first : lo - lo ≡ 0 = omega arith in
          subst
            (λ k.
              mapped (update pgd lo (pte_set_fpn (pgd lo) fpn)) (lo + 1) n frames k
              ≡ mapped pgd lo (suc n) (fpn ∷ frames) k)
            (sym e)
            (if_false _ _ outside
              ∙ update_self pgd lo _
              ∙ ap (λ k. pte_set_fpn (pgd lo) (get_or (fpn ∷ frames) k 0)) (sym first)
              ∙ sym (if_true _ _ inside))
      | inr (inl below) ↦
          let outside : leb (lo + 1) p && ltb p (lo + 1 + n) ≡ false = ground arith in
          let outside' : leb lo p && ltb p (lo + suc n) ≡ false = ground arith in
          if_false _ _ outside ∙ update_other pgd lo _ p (omega arith) ∙ sym (if_false _ _ outside')
      | inr (inr above) ↦
          let same : (leb (lo + 1) p && ltb p (lo + 1 + n)) ≡ (leb lo p && ltb p (lo + suc n)) =
            ground arith in
          let next : p - lo ≡ suc (p - (lo + 1)) = omega arith in
          let old = update_other pgd lo (pte_set_fpn (pgd lo) fpn) p (omega arith) in
          λ i. if same i then pte_set_fpn (old i) (get_or (fpn ∷ frames) (sym next i) 0) else old i
    ]

map_loop_lem :
    (n first i : ℕ) (frames : List ℕ) (pgd : ℕ → ℕ)
    → n ≤ length frames
    → first + i + n ≤ max_pgn
    → map_loop n first i frames pgd ≡ ok (success, i + n, mapped pgd (first + i) n frames)
unfolding map_loop
map_loop_lem zero first i frames pgd len le =
    let count : i ≡ i + 0 = omega arith in
    λ k. ok (success, count k, fun_ext (mapped_zero pgd (first + i) frames) k)
map_loop_lem (suc n) first i [] pgd len le = absurd (omega arith)
map_loop_lem (suc n) first i (fpn ∷ frames) pgd len le =
    if_true _ _ (lt→ltb (first + i) max_pgn (omega arith))
    ∙ map_loop_lem n first (i + 1) frames _ (omega arith) (omega arith)
    ∙ (let count : i + 1 + n ≡ i + suc n = omega arith in
        let place : first + (i + 1) ≡ first + i + 1 = omega arith in
        let entry = update pgd (first + i) (pte_set_fpn (pgd (first + i)) fpn) in
        (λ k. ok (success, count k, mapped entry (place k) n frames))
        ∙ ap (λ f. ok (success, i + suc n, f)) (fun_ext (mapped_step pgd (first + i) n fpn frames)))

-- If there is a frame for each of the `pgnum` pages from that of `addr` on, and the page directory
-- reaches that far, `vmap_page_range` succeeds: entry number i of them is made a present page with
-- frame number i, no other entry changes, and the region is that of the pages. But the page that it
-- enlists for replacement is the one after the last that it mapped.
pub vmap_page_range_maps :
    (mm : Mm) (addr pgnum : ℕ) (frames : List ℕ)
    → pgnum ≤ length frames
    → pgn addr + pgnum ≤ max_pgn
    → vmap_page_range mm addr pgnum frames
      ≡ ok (
        success,
        record { rg_start = addr; rg_end = addr + pgnum * pagesz },
        record mm {
          pgd = mapped mm.pgd (pgn addr) pgnum frames;
          fifo_pgn = (pgn addr + pgnum) ∷ mm.fifo_pgn;
        },
      )
unfolding vmap_page_range map_end enlist_pgn_node
vmap_page_range_maps mm addr pgnum frames len le =
    let count : 0 + pgnum ≡ pgnum = omega arith in
    let start : pgn addr + 0 ≡ pgn addr = omega arith in
    >>=-step _ (
      map_loop_lem pgnum (pgn addr) 0 frames mm.pgd len (omega arith)
      ∙ (λ k. ok (success, count k, mapped mm.pgd (start k) pgnum frames)))
