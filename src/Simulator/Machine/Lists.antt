-- ===== src/Simulator/Machine/Lists.antt =====
-- How often a process waits, in the views that the operations of src/sched.c leave.
use osassignment_hk.Base.{
  ◌++◌, ◌<◌, update_self, if_false, false, ℕ, ◌+◌, ◌≤◌, ◌≡◌, ◌≢◌, sym, ap, subst, ◌∙◌, inl, inr,
  ◌==◌, if◌then◌else◌, update-all, ℕ_discrete, Bool-cases, List, [], ◌∷◌, length, All, arith,
}
use osassignment_hk.Queue.{max_queue_size}
use osassignment_hk.Queue.Represents.{queued}
use osassignment_hk.Sched.Valid.{View, put_view}
use osassignment_hk.Sched.Service.{Removes}
use osassignment_hk.Killall.Items.{occurrences, occurrences-append, All-occurrences}

-- A priority that changes for no process of the list.
pub All-elsewhere :
    (prio prio' : ℕ → ℕ) (i p : ℕ) (l : List ℕ)
    → ((k : ℕ) → i ≢ k → prio' k ≡ prio k)
    → occurrences i l ≡ 0
    → All (λ x. prio x ≡ p) l
    → All (λ x. prio' x ≡ p) l
unfolding occurrences
All-elsewhere prio prio' i p [] same gone a = tt
All-elsewhere prio prio' i p (y ∷ l) same gone a = elim (ℕ_discrete y i) [
  | yes e ↦ absurd (ground arith)
  | no ne ↦ (same y (λ e. ne (sym e)) ∙ a.0, All-elsewhere prio prio' i p l same (ground arith) a.1)
]

-- How often `x` waits at priority `p`.
abbrev pub waits : View ℕ → ℕ → ℕ → ℕ
waits v p x = occurrences x (v.ready p)

abbrev pub one_if : ℕ → ℕ → ℕ
one_if h x = if h == x then 1 else 0

occurrences-queued :
    (x h : ℕ) (l : List ℕ) → occurrences x (queued h l) ≤ occurrences x l + one_if h x
unfolding occurrences
occurrences-queued x h l = elim (Bool-cases (length l == max_queue_size)) [
  | inl e ↦ rw e (omega arith)
  | inr e ↦ rw e (omega (arith, occurrences-append x l (h ∷ [])))
]

-- Putting a process adds it once at most.
pub waits-put_view :
    (prio : ℕ → ℕ) (h : ℕ) (v : View ℕ) (p x : ℕ)
    → waits (put_view prio h v) p x ≤ waits v p x + one_if h x
waits-put_view prio h v p x =
    update-all (λ q l. occurrences x l ≤ waits v q x + one_if h x) v.ready (prio h) _
      (occurrences-queued x h (v.ready (prio h))) (λ q ne. omega arith) p

module _ (prio : ℕ → ℕ) (h : ℕ) (v : View ℕ) (p x : ℕ) where
  pub waits-put_self : h ≡ x → waits (put_view prio h v) p x ≤ waits v p x + 1
  waits-put_self e =
      let one : one_if h x ≤ 1 = ground arith in omega (arith, waits-put_view prio h v p x)

  pub waits-put_other : h ≢ x → waits (put_view prio h v) p x ≤ waits v p x
  waits-put_other ne =
      let zero : one_if h x ≡ 0 = ground arith in omega (arith, waits-put_view prio h v p x)

queued-occurrences : (x h : ℕ) (l : List ℕ) → occurrences x l ≤ occurrences x (queued h l)
queued-occurrences x h l = elim (Bool-cases (length l == max_queue_size)) [
  | inl e ↦ rw e (omega arith)
  | inr e ↦ rw e (omega (arith, occurrences-append x l (h ∷ [])))
]

-- Putting a process takes no other out.
pub waits-put_more :
    (prio : ℕ → ℕ) (h : ℕ) (v : View ℕ) (p x : ℕ) → waits v p x ≤ waits (put_view prio h v) p x
waits-put_more prio h v p x =
    update-all (λ q l. waits v q x ≤ occurrences x l) v.ready (prio h) _
      (queued-occurrences x h (v.ready (prio h))) (λ q ne. omega arith) p

-- A process that is put waits if there is room.
pub waits-put_in :
    (prio : ℕ → ℕ) (h : ℕ) (v : View ℕ)
    → length (v.ready (prio h)) < max_queue_size
    → 0 < waits (put_view prio h v) (prio h) h
unfolding occurrences
waits-put_in prio h v room =
    let open_here : (length (v.ready (prio h)) == max_queue_size) ≡ false = ground arith in
    let placed : (put_view prio h v).ready (prio h) ≡ v.ready (prio h) ++ h ∷ [] =
      update_self v.ready (prio h) _ ∙ if_false _ _ open_here in
    let one : one_if h h ≡ 1 = ground arith in
    omega (arith, ap (occurrences h) placed, occurrences-append h (v.ready (prio h)) (h ∷ []))

module _ {v w : View ℕ} {a : ℕ} (r : Removes v w a) where
  pub waits-Removes : (p x : ℕ) → waits w p x ≤ waits v p x
  unfolding occurrences
  waits-Removes p x = elim (ℕ_discrete r.from p) [
    | yes e ↦
        let taken : waits v r.from x ≡ one_if a x + waits w r.from x = ap (occurrences x) r.taken in
        subst (λ q. waits w q x ≤ waits v q x) e (omega (arith, taken))
    | no ne ↦ let kept : waits w p x ≡ waits v p x = ap (occurrences x) (r.kept p ne) in omega arith
  ]

  pub waits-Removes_other : (p x : ℕ) → a ≢ x → waits w p x ≡ waits v p x
  unfolding occurrences
  waits-Removes_other p x ne = elim (ℕ_discrete r.from p) [
    | yes e ↦
        let taken : waits v r.from x ≡ one_if a x + waits w r.from x = ap (occurrences x) r.taken in
        let zero : one_if a x ≡ 0 = ground arith in
        subst (λ q. waits w q x ≡ waits v q x) e (omega (arith, taken))
    | no other ↦ ap (occurrences x) (r.kept p other)
  ]

  pub waits-taken : waits v r.from a ≡ 1 + waits w r.from a
  unfolding occurrences
  waits-taken =
      let one : one_if a a ≡ 1 = ground arith in
      let taken : waits v r.from a ≡ one_if a a + waits w r.from a = ap (occurrences a) r.taken in
      omega arith

  -- A process that was taken waits nowhere any more, if it waited once, at its own priority.
  pub waits-gone :
      (prio : ℕ → ℕ)
      → ((p : ℕ) → waits v p a ≤ 1)
      → ((p : ℕ) → All (λ x. prio x ≡ p) (v.ready p))
      → (p : ℕ) → waits w p a ≡ 0
  waits-gone prio once sorted p = elim (ℕ_discrete r.from p) [
    | yes e ↦ subst (λ q. waits w q a ≡ 0) e (omega (arith, once r.from, waits-taken))
    | no ne ↦ elim (ℕ_discrete (waits v p a) 0) [
      | yes z ↦ omega (arith, waits-Removes p a)
      | no pos ↦
          let here = All-occurrences (λ x. prio x ≡ p) a (v.ready p) (sorted p) (omega arith) in
          let there =
            All-occurrences (λ x. prio x ≡ r.from) a (v.ready r.from) (sorted r.from)
              (omega (arith, waits-taken)) in
          absurd (ne (sym there ∙ here))
    ]
  ]
