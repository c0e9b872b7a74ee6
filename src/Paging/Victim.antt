-- ===== src/Paging/Victim.antt =====
-- The choice of a victim, and the page that it takes.
use osassignment_hk.Base.{ℕ, ◌≡◌, refl, ap, ◌∙◌, ◌++◌, List, [], ◌∷◌, success}
use osassignment_hk.Mm.{Mm}
use osassignment_hk.Paging.{unlink_last, victim_of, find_victim_page}

unlink_last_lem :
    (pg : ℕ) (rest : List ℕ)
    → (kept : List ℕ) × (last : ℕ) × (pg ∷ rest ≡ kept ++ last ∷ [])
      × (unlink_last pg rest ≡ (last, kept))
unfolding unlink_last
unlink_last_lem pg [] = ([], pg, refl, refl)
unlink_last_lem pg (next ∷ rest) =
    let (kept, last, whole, found) = unlink_last_lem next rest in
    (pg ∷ kept, last, ap (λ l. pg ∷ l) whole, ap (λ (r : ℕ × List ℕ). (r.0, pg ∷ r.1)) found)

-- `find_victim_page` succeeds if some page is enlisted; then it takes the page at the end of the
-- list, the one that was put first, and leaves the others in their order.
pub find_victim_page_takes_last :
    (mm : Mm) (retpgn pg : ℕ) (rest : List ℕ)
    → mm.fifo_pgn ≡ pg ∷ rest
    → (kept : List ℕ) × (last : ℕ) × (mm.fifo_pgn ≡ kept ++ last ∷ [])
      × (find_victim_page mm retpgn ≡ (success, last, record mm { fifo_pgn = kept }))
unfolding find_victim_page victim_of
find_victim_page_takes_last mm retpgn pg rest e =
    let (kept, last, whole, found) = unlink_last_lem pg rest in
    (
      kept,
      last,
      e ∙ whole,
      ap (victim_of mm retpgn) e
          ∙ ap (λ (r : ℕ × List ℕ). (success, r.0, record mm { fifo_pgn = r.1 })) found,
    )
