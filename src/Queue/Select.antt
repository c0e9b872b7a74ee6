-- ===== src/Queue/Select.antt =====
-- What `dequeue` takes: the first of the processes with the least `prio`.
use mathlib.Core.List.{append_assoc, append-nil}
use osassignment_hk.Base.{
  ℕ, suc, ◌≢◌, ◌+◌, ◌-◌, ◌≤◌, ◌<◌, ◌≡◌, refl, sym, ap, ◌∙◌, ltb, List, [], ◌∷◌, ◌++◌, map, length,
  length-append, length-map, get_or, set, All, All-append, Option, none, some, Outcome, ok,
  Bool-cases, ltb→lt, not_ltb→le, inl, inr, arith,
}
use osassignment_hk.Queue.{Queue, not_null, deref, find_best, shift, dequeue}
use osassignment_hk.Queue.Represents.{Represents}
use osassignment_hk.Queue.Shift.{slot-middle, slots-without}

module _ {ℓ} {A : Type ℓ} (prio : A → ℕ) where
  -- `a` is the first entry of `l` with the least `prio`, and `others` are the rest in their order.
  pub record Selects (l : List A) (a : A) (others : List A) : Type ℓ where
    pub before : List A
    pub after : List A
    pub split : l ≡ before ++ a ∷ after
    pub joined : others ≡ before ++ after
    pub above : All (λ x. prio a < prio x) before
    pub from : All (λ x. prio a ≤ prio x) after

  All-lt_trans :
      (a b : A) (xs : List A)
      → prio a < prio b
      → All (λ x. prio b < prio x) xs
      → All (λ x. prio a < prio x) xs
  All-lt_trans a b [] h s = tt
  All-lt_trans a b (x ∷ xs) h s = (omega arith, All-lt_trans a b xs h s.1)

  All-lt-le :
      (a b : A) (xs : List A)
      → prio a < prio b
      → All (λ x. prio b ≤ prio x) xs
      → All (λ x. prio a < prio x) xs
  All-lt-le a b [] h s = tt
  All-lt-le a b (x ∷ xs) h s = (omega arith, All-lt-le a b xs h s.1)

  deref-middle :
      (l xs : List A) (a : A) (ys : List A) (rest : List (Option A)) (i : ℕ)
      → l ≡ xs ++ a ∷ ys
      → i ≡ length xs
      → deref (map some l ++ rest) i ≡ ok a
  unfolding deref
  deref-middle l xs a ys rest i e at = rw (e, at) (ap not_null (slot-middle xs a ys rest))

  -- What the loop has to return.
  abbrev Finds : List A → Outcome ℕ → Type ℓ
  Finds l r = (a : A) × (others : List A) × (s : Selects l a others) × (r ≡ ok (length s.before))

  -- The loop's state: `b` is the best of the entries seen so far, `before ++ b ∷ seen`.
  find_best-Finds :
      (before : List A) (b : A) (seen more : List A) (rest : List (Option A)) (l : List A) (i j : ℕ)
      → l ≡ before ++ b ∷ (seen ++ more)
      → i ≡ suc (length before + length seen)
      → j ≡ length before
      → All (λ x. prio b < prio x) before
      → All (λ x. prio b ≤ prio x) seen
      → Finds l (find_best prio (map some l ++ rest) (length more) i j)
  unfolding find_best
  find_best-Finds before b seen [] rest l i j e ei ej above from = (
    b,
    before ++ seen,
    record {
      before = before;
      after = seen;
      split = e ∙ ap (λ t. before ++ b ∷ t) (append-nil seen);
      joined = refl;
      above = above;
      from = from;
    },
    ap ok ej,
  )
  find_best-Finds before b seen (c ∷ more) rest l i j e ei ej above from =
      let e' : l ≡ (before ++ b ∷ seen) ++ c ∷ more =
        e ∙ sym (append_assoc before (b ∷ seen) (c ∷ more)) in
      let wide : length (before ++ b ∷ seen) ≡ suc (length before + length seen) =
        omega (arith, length-append before (b ∷ seen)) in
      rw
        (
          deref-middle l (before ++ b ∷ seen) c more rest i e' (omega arith),
          deref-middle l before b (seen ++ c ∷ more) rest j e ej,
        )
        (elim (Bool-cases (ltb (prio c) (prio b))) [
          | inl less ↦ rw less (
              find_best-Finds (before ++ b ∷ seen) c [] more rest l (i + 1) i e' (omega arith)
                (omega arith)
                (All-append (λ x. prio c < prio x) before (b ∷ seen)
                  (All-lt_trans c b before (ltb→lt _ _ less) above)
                  (ltb→lt _ _ less, All-lt-le c b seen (ltb→lt _ _ less) from))
                tt)
          | inr more_or_equal ↦ rw more_or_equal (
              find_best-Finds before b (seen ++ c ∷ []) more rest l (i + 1) j
                (e ∙ ap (λ t. before ++ b ∷ t) (sym (append_assoc seen (c ∷ []) more)))
                (omega (arith, length-append seen (c ∷ []))) ej above
                (All-append (λ x. prio b ≤ prio x) seen (c ∷ []) from
                  (not_ltb→le _ _ more_or_equal, tt)))
        ])

module _ {ℓ} {A : Type ℓ} (prio : A → ℕ) where
  -- An empty queue gives NULL and stays as it is.
  pub dequeue_empty : {q : Queue A} → Represents q [] → dequeue prio q ≡ ok (none, q)
  unfolding dequeue
  dequeue_empty r = ground (arith, r.counted)

  dequeue_run :
      (q : Queue A) (n best_idx : ℕ) (p : Option A) (slots : List (Option A))
      → q.size ≡ suc n
      → find_best prio q.proc n 1 0 ≡ ok best_idx
      → get_or q.proc best_idx none ≡ p
      → set (shift (n - best_idx) best_idx q.proc) n none ≡ slots
      → dequeue prio q ≡ ok (p, record { proc = slots; size = n })
  unfolding dequeue
  dequeue_run q n best_idx p slots sized found read cleared = ground arith

  -- On a queue that holds processes, `dequeue` does not fault. It gives the process with the least
  -- `prio`, the first of them if there are several, and the queue that it leaves holds the others
  -- in their order.
  pub dequeue-Selects :
      {q : Queue A} (l : List A)
      → Represents q l
      → l ≢ []
      → (a : A) × (q' : Queue A) × (others : List A) × (dequeue prio q ≡ ok (some a, q'))
        × Selects prio l a others
        × Represents q' others
  dequeue-Selects [] r h = absurd (h refl)
  dequeue-Selects {q} (b ∷ more) r h =
      let (a, others, s, found) =
        find_best-Finds prio [] b [] more r.rest (b ∷ more) 1 0 refl refl refl tt tt in
      let slots = map some others ++ none ∷ r.rest in
      let proc : q.proc ≡ map some (s.before ++ a ∷ s.after) ++ r.rest =
        r.slots ∙ ap (λ t. map some t ++ r.rest) s.split in
      let last : length more ≡ length s.before + length s.after =
        omega (arith, ap length s.split, length-append s.before (a ∷ s.after)) in
      let cleared : set (shift (length more - length s.before) (length s.before) q.proc)
            (length more) none
          ≡ slots =
        rw (proc, s.joined) (slots-without s.before a s.after r.rest (length more) last) in
      let others_length : length others ≡ length more =
        omega (arith, ap length s.joined, length-append s.before s.after) in
      (
        a,
        record { proc = slots; size = length more },
        others,
        dequeue_run q (length more) (length s.before) (some a) slots r.counted (rw r.slots found)
            (rw proc (slot-middle s.before a s.after r.rest)) cleared,
        s,
        record {
          rest = none ∷ r.rest;
          slots = refl;
          counted = sym others_length;
          whole = omega (
            arith,
            r.whole,
            ap length r.slots,
            length-append (map some more) r.rest,
            length-append (map some others) (none ∷ r.rest),
            length-map some more,
            length-map some others,
            others_length,
          );
        },
      )
