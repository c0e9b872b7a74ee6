-- ===== src/Sched/Turns.antt =====
-- Which process `get_mlq_proc` gives, on every branch.
use osassignment_hk.Base.{
  ℕ, zero, suc, ◌+◌, ◌-◌, ◌%◌, ◌≤◌, ◌<◌, ◌≡◌, refl, ap, ◌∙◌, ◌⊎◌, inl, inr, true, false, not, ◌&&◌,
  ltb, update, update-all, update-all₂, List, [], ◌∷◌, All, Option, none, some, Outcome, ok,
  ℕ_discrete, Bool-cases, ltb→lt, not_ltb→le, subst, arith,
}
use osassignment_hk.Queue.{Queue, empty}
use osassignment_hk.Queue.Represents.{Represents, empty-cases}
use osassignment_hk.Queue.Select.{dequeue_empty}
use osassignment_hk.Queue.Fifo.{dequeue_fifo}
use osassignment_hk.Sched.{Sched, max_prio, take_from, scan, get_locked, get_mlq_proc}
use osassignment_hk.Sched.Valid.{View, IsValid, queue_empty-cases}
use osassignment_hk.Sched.Policy.{
  served, behind, Passed, MovesOn, Turn, nobody, stay, advance, wrap, miss,
}

module _ {ℓ} {A : Type ℓ} {prio : A → ℕ} {s : Sched A} {v : View A} (valid : IsValid prio s v) where
  -- What `take_from` has to return.
  abbrev pub Takes : ℕ → ℕ → Outcome (Option A × Sched A) → Type ℓ
  Takes p k r =
      ((s' : Sched A) × (v.ready p ≡ [])
        × (r ≡ ok (none, s'))
        × IsValid prio s' (record v { prio = p; slot = k }))
      ⊎ ((s' : Sched A) × (a : A) × (rest : List A) × (v.ready p ≡ a ∷ rest)
          × (r ≡ ok (some a, s'))
          × IsValid prio s' (served v p rest k))

  taken : ℕ → ℕ → Queue A → Sched A
  taken p k q = record s {
    mlq_ready_queue = update s.mlq_ready_queue p q;
    curr_prio = p;
    curr_slot = k;
  }

  taken-IsValid :
      (p k : ℕ) (q : Queue A) (l : List A)
      → p < max_prio
      → k ≤ max_prio - p
      → Represents q l
      → All (λ a. prio a ≡ p) l
      → IsValid prio (taken p k q) (served v p l k)
  unfolding taken
  taken-IsValid p k q l h b r same = record {
    holds =
        update-all₂ (λ j q l. j < max_prio → Represents q l) s.mlq_ready_queue v.ready p q l
          (λ _. r) (λ j _. valid.holds j);
    lists = valid.lists;
    sorted = update-all (λ j l. All (λ a. prio a ≡ j) l) v.ready p l same (λ j _. valid.sorted j);
    slots = valid.slots;
    prio_eq = refl;
    slot_eq = refl;
    in_range = h;
    budget = b;
  }

  missed-IsValid :
      (p k : ℕ)
      → p < max_prio
      → k ≤ max_prio - p
      → IsValid prio (taken p k (s.mlq_ready_queue p)) (record v { prio = p; slot = k })
  unfolding taken
  missed-IsValid p k h b = record {
    holds =
        update-all (λ j q. j < max_prio → Represents q (v.ready j)) s.mlq_ready_queue p _
          (valid.holds p) (λ j _. valid.holds j);
    lists = valid.lists;
    sorted = valid.sorted;
    slots = valid.slots;
    prio_eq = refl;
    slot_eq = refl;
    in_range = h;
    budget = b;
  }

  take_from_cases :
      (p k : ℕ) (l : List A)
      → p < max_prio
      → k ≤ max_prio - p
      → v.ready p ≡ l
      → Takes p k (take_from prio p k s)
  unfolding take_from taken
  take_from_cases p k [] h b e =
      let r = subst (Represents (s.mlq_ready_queue p)) e (valid.holds p h) in
      inl (taken p k (s.mlq_ready_queue p), e, rw (dequeue_empty prio r), missed-IsValid p k h b)
  take_from_cases p k (a ∷ rest) h b e =
      let r = subst (Represents (s.mlq_ready_queue p)) e (valid.holds p h) in
      let same = subst (All (λ x. prio x ≡ p)) e (valid.sorted p) in
      let (q, got, r') = dequeue_fifo prio p a rest r same in
      inr (taken p k q, a, rest, e, rw got, taken-IsValid p k q rest h b r' same.1)

  take_from-Takes : (p k : ℕ) → p < max_prio → k ≤ max_prio - p → Takes p k (take_from prio p k s)
  take_from-Takes p k h b = take_from_cases p k (v.ready p) h b refl

  -- What `get_locked` has to return.
  abbrev pub Turns : Outcome (Option A × Sched A) → Type ℓ
  Turns o =
      (r : Option A) × (s' : Sched A) × (w : View A) × (o ≡ ok (r, s'))
      × Turn v r w
      × IsValid prio s' w

  advances :
      (offset : ℕ) (a : A) (rest : List A)
      → MovesOn v
      → 0 < offset
      → offset < max_prio
      → Passed v offset
      → v.ready (behind v offset) ≡ a ∷ rest
      → Turns (take_from prio (behind v offset) (max_prio - behind v offset - 1) s)
  advances offset a rest moves h b passed front =
      elim (take_from-Takes (behind v offset) (max_prio - behind v offset - 1) (omega arith)
        (omega arith)) [
          | inl (s', nobody_here, run, valid') ↦ cc
          | inr (s', c, more, front', run, valid') ↦
              (some c, s', _, run, advance offset c more moves h b passed front' refl refl, valid')
        ]

  -- The loop at `offset`, when nobody waits at the priorities before it.
  scan-Turns :
      (n offset : ℕ)
      → offset + n ≡ max_prio
      → 0 < offset
      → MovesOn v
      → Passed v offset
      → Turns (scan prio n offset s)
  unfolding scan
  scan-Turns zero offset e h moves passed =
      let all_passed : Passed v max_prio = subst (Passed v) (omega arith) passed in
      let budget : s.slot 0 - 1 ≡ max_prio - 1 = omega (arith, valid.slots 0 (omega arith)) in
      rw budget (elim (take_from-Takes 0 (max_prio - 1) (omega arith) (omega arith)) [
        | inl (s', empty_0, run, valid') ↦
            (none, s', _, run, miss moves all_passed empty_0 refl refl, valid')
        | inr (s', a, rest, front, run, valid') ↦
            (some a, s', _, run, wrap a rest moves all_passed front refl refl, valid')
      ])
  scan-Turns (suc n) offset e h moves passed =
      let p = behind v offset in
      let in_array : p < max_prio = omega arith in
      let budget : s.slot p - 1 ≡ max_prio - p - 1 = omega (arith, valid.slots p in_array) in
      let place : (s.curr_prio + offset) % max_prio ≡ p =
        ap (λ c. (c + offset) % max_prio) valid.prio_eq in
      rw (place, budget)
        (elim (empty-cases (s.mlq_ready_queue p) (v.ready p) (valid.holds p in_array)) [
          | inl (nobody_here, e') ↦ rw e' (
              scan-Turns n (offset + 1) (omega arith) (omega arith) moves (λ k a b.
                elim (ℕ_discrete k offset) [
                  | yes here ↦ rw here nobody_here
                  | no before ↦ passed k a (omega arith)
                ]))
          | inr (a, rest, front, e') ↦
              rw e' (advances offset a rest moves h (omega arith) passed front)
        ])

  scan_from_start : MovesOn v → Turns (scan prio (max_prio - 1) 1 s)
  scan_from_start moves =
      scan-Turns (max_prio - 1) 1 refl (omega arith) moves (λ k a b. absurd (omega arith))

  stays :
      (a : A) (rest : List A)
      → 0 < s.curr_slot
      → v.ready v.prio ≡ a ∷ rest
      → Turns (take_from prio s.curr_prio (s.curr_slot - 1) s)
  stays a rest left front =
      let same : take_from prio s.curr_prio (s.curr_slot - 1) s
          ≡ take_from prio v.prio (v.slot - 1) s =
        λ i. take_from prio (valid.prio_eq i) (valid.slot_eq i - 1) s in
      let left' : 0 < v.slot = omega (arith, valid.slot_eq) in
      rw same
        (elim (take_from-Takes v.prio (v.slot - 1) valid.in_range (omega (arith, valid.budget))) [
          | inl (s', nobody_here, run, valid') ↦ cc
          | inr (s', c, more, front', run, valid') ↦
              (some c, s', _, run, stay c more left' front' refl refl, valid')
        ])

  -- From any valid state, also one in which another CPU took the last process after the check for
  -- emptiness, the part of `get_mlq_proc` behind its lock returns without a fault, makes a turn of
  -- the policy (`Turn`), and leaves a valid state.
  pub get_locked-Turns : Turns (get_locked prio s)
  unfolding get_locked
  get_locked-Turns =
      elim (empty-cases (s.mlq_ready_queue v.prio) (v.ready v.prio)
        (valid.holds v.prio valid.in_range)) [
          | inl (nobody_here, e) ↦
              let closed : empty (s.mlq_ready_queue s.curr_prio) ≡ true =
                ap (λ p. empty (s.mlq_ready_queue p)) valid.prio_eq ∙ e in
              let skips : (ltb 0 s.curr_slot && not (empty (s.mlq_ready_queue s.curr_prio)))
                  ≡ false =
                rw closed (ground arith) in
              rw skips (scan_from_start (inr nobody_here))
          | inr (a, more, front, e) ↦
              let open_here : empty (s.mlq_ready_queue s.curr_prio) ≡ false =
                ap (λ p. empty (s.mlq_ready_queue p)) valid.prio_eq ∙ e in
              elim (Bool-cases (ltb 0 s.curr_slot)) [
                | inl left ↦ rw (left, open_here) (stays a more (ltb→lt _ _ left) front)
                | inr used ↦
                    rw used
                      (scan_from_start (inl (omega (arith, not_ltb→le _ _ used, valid.slot_eq))))
              ]
        ]

  -- From any valid state `get_mlq_proc` returns without a fault, makes a turn of the policy
  -- (`Turn`), and leaves a valid state.
  pub get_mlq_proc-Turns : Turns (get_mlq_proc prio s)
  unfolding get_mlq_proc
  get_mlq_proc-Turns = elim (queue_empty-cases valid) [
    | inl (e, idle) ↦ rw e (none, s, v, refl, nobody idle refl refl, valid)
    | inr (e, _, _, _) ↦ rw e get_locked-Turns
  ]
