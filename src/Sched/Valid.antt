-- ===== src/Sched/Valid.antt =====
-- The scheduler seen as one list of waiting processes for each priority, and what `init_scheduler`,
-- `queue_empty`, `put_proc` and `add_proc` do to these lists.
use osassignment_hk.Base.{
  ℕ, zero, suc, ◌+◌, ◌-◌, ◌≤◌, ◌<◌, ◌≡◌, refl, ◌≢◌, ◌⊎◌, inl, inr, true, false, ◌==◌, update,
  update-all, update-all₂, List, [], ◌∷◌, length, All, All-append, some, ok, fault, Bool-cases,
  lt→ltb, ℕ_discrete, arith,
}
use osassignment_hk.Queue.{Queue, max_queue_size, enqueue}
use osassignment_hk.Queue.Represents.{Represents, empty-cases, queued, enqueue-queued}
use osassignment_hk.Sched.{
  Sched, max_prio, all_empty, queue_empty, put_proc, add_proc, put_mlq_proc, add_mlq_proc,
}

-- The waiting processes by priority, oldest first, the list of all that were put, and the two
-- variables of the policy.
pub record View {ℓ} (A : Type ℓ) : Type ℓ where
  pub ready : ℕ → List A
  pub running : List A
  pub prio : ℕ
  pub slot : ℕ

module _ {ℓ} {A : Type ℓ} (prio : A → ℕ) where
  -- `s` holds what the view `v` says, and is in the range that sched.c describes.
  pub record IsValid (s : Sched A) (v : View A) : Type ℓ where
    pub holds : (p : ℕ) → p < max_prio → Represents (s.mlq_ready_queue p) (v.ready p)
    pub lists : Represents s.running_list v.running
    pub sorted : (p : ℕ) → All (λ a. prio a ≡ p) (v.ready p)
    pub slots : (p : ℕ) → p < max_prio → s.slot p ≡ max_prio - p
    pub prio_eq : s.curr_prio ≡ v.prio
    pub slot_eq : s.curr_slot ≡ v.slot
    pub in_range : v.prio < max_prio
    pub budget : v.slot ≤ max_prio - v.prio

module _ {ℓ} {A : Type ℓ} (queues : ℕ → Queue A) (ready : ℕ → List A) where
  -- The loop finds every queue from `i` on empty, or some queue that is not.
  all_empty-cases :
      (n i : ℕ)
      → ((p : ℕ) → i ≤ p → p < i + n → Represents (queues p) (ready p))
      → ((all_empty queues n i ≡ true) × ((p : ℕ) → i ≤ p → p < i + n → ready p ≡ []))
        ⊎ ((all_empty queues n i ≡ false) × (p : ℕ) × (i ≤ p) × (p < i + n) × (ready p ≢ []))
  unfolding all_empty
  all_empty-cases zero i h = inl (refl, λ p a b. absurd (omega arith))
  all_empty-cases (suc n) i h =
      elim (empty-cases (queues i) (ready i) (h i (omega arith) (omega arith))) [
        | inl (none_here, e) ↦
            elim (all_empty-cases n (i + 1) (λ p a b. h p (omega arith) (omega arith))) [
              | inl (e', none_later) ↦ inl (
                rw (e, e'),
                λ p a b. elim (ℕ_discrete p i) [
                  | yes here ↦ rw here none_here
                  | no other ↦ none_later p (omega arith) (omega arith)
                ],
              )
              | inr (e', p, a, b, some_later) ↦
                  inr (rw (e, e'), p, omega arith, omega arith, some_later)
            ]
        | inr (a, more, some_here, e) ↦ inr (rw e, i, omega arith, omega arith, λ none_here. cc)
      ]

module _ {ℓ} {A : Type ℓ} {prio : A → ℕ} {s : Sched A} {v : View A} (valid : IsValid prio s v) where
  -- `queue_empty` tells exactly whether no process waits at any priority.
  pub queue_empty-cases :
      ((queue_empty s ≡ true) × ((p : ℕ) → p < max_prio → v.ready p ≡ []))
      ⊎ ((queue_empty s ≡ false) × (p : ℕ) × (p < max_prio) × (v.ready p ≢ []))
  unfolding queue_empty
  queue_empty-cases =
      elim (all_empty-cases s.mlq_ready_queue v.ready max_prio 0
        (λ p a b. valid.holds p (omega arith))) [
          | inl (e, idle) ↦ inl (e, λ p b. idle p (omega arith) (omega arith))
          | inr (e, p, a, b, busy) ↦ inr (e, p, omega arith, busy)
        ]

-- `put_proc` and `add_proc` in the view.
abbrev pub put_view {ℓ} : {A : Type ℓ} → (A → ℕ) → A → View A → View A
put_view prio a v = record v {
  ready = update v.ready (prio a) (queued a (v.ready (prio a)));
  running = queued a v.running;
}

module _ {ℓ} {A : Type ℓ} {prio : A → ℕ} {s : Sched A} {v : View A} (valid : IsValid prio s v)
    (a : A) where
  queued-All :
      (p : ℕ) (l : List A)
      → prio a ≡ p
      → All (λ x. prio x ≡ p) l
      → All (λ x. prio x ≡ p) (queued a l)
  queued-All p l e h = elim (Bool-cases (length l == max_queue_size)) [
    | inl full ↦ rw full h
    | inr room ↦ rw room (All-append (λ x. prio x ≡ p) l (a ∷ []) h (e, tt))
  ]

  put-IsValid :
      prio a < max_prio
      → IsValid prio
          (record s {
            linked = a ∷ s.linked;
            running_list = enqueue s.running_list (some a);
            mlq_ready_queue =
                update s.mlq_ready_queue (prio a) (enqueue (s.mlq_ready_queue (prio a)) (some a));
          })
          (put_view prio a v)
  put-IsValid h = record {
    holds =
        update-all₂ (λ p q l. p < max_prio → Represents q l) s.mlq_ready_queue v.ready (prio a) _ _
          (λ b. enqueue-queued a (valid.holds (prio a) b)) (λ p _. valid.holds p);
    lists = enqueue-queued a valid.lists;
    sorted =
        update-all (λ p l. All (λ x. prio x ≡ p) l) v.ready (prio a) _
          (queued-All (prio a) (v.ready (prio a)) refl (valid.sorted (prio a)))
          (λ p _. valid.sorted p);
    slots = valid.slots;
    prio_eq = valid.prio_eq;
    slot_eq = valid.slot_eq;
    in_range = valid.in_range;
    budget = valid.budget;
  }

  -- In a valid state, `put_proc` of a process whose `prio` is below MAX_PRIO does not fault and
  -- leaves a valid state: the process stands behind the others of its priority and behind those of
  -- the running list, where either drops it if it holds ten already.
  pub put_proc-IsValid :
      prio a < max_prio
      → (s' : Sched A) × (put_proc prio a s ≡ ok s') × IsValid prio s' (put_view prio a v)
  unfolding put_proc
  put_proc-IsValid h = (_, rw (lt→ltb _ _ h), put-IsValid h)

  -- In a valid state, `add_proc` of a process whose `prio` is below MAX_PRIO does what `put_proc`
  -- does: it does not fault, and the process stands behind the others of its priority and of the
  -- running list, where these hold fewer than ten.
  pub add_proc-IsValid :
      prio a < max_prio
      → (s' : Sched A) × (add_proc prio a s ≡ ok s') × IsValid prio s' (put_view prio a v)
  unfolding add_proc
  add_proc-IsValid h = (_, rw (lt→ltb _ _ h), put-IsValid h)

-- `put_mlq_proc` and `add_mlq_proc` in the view.
abbrev pub mlq_view {ℓ} : {A : Type ℓ} → (A → ℕ) → A → View A → View A
mlq_view prio a v = record v { ready = update v.ready (prio a) (queued a (v.ready (prio a))) }

module _ {ℓ} {A : Type ℓ} {prio : A → ℕ} {s : Sched A} {v : View A} (valid : IsValid prio s v)
    (a : A) (bound : prio a < max_prio) where
  mlq-IsValid :
      IsValid prio
        (record s {
          mlq_ready_queue =
              update s.mlq_ready_queue (prio a) (enqueue (s.mlq_ready_queue (prio a)) (some a));
        })
        (mlq_view prio a v)
  mlq-IsValid =
      let put = put-IsValid valid a bound in
      record {
        holds = put.holds;
        lists = valid.lists;
        sorted = put.sorted;
        slots = valid.slots;
        prio_eq = valid.prio_eq;
        slot_eq = valid.slot_eq;
        in_range = valid.in_range;
        budget = valid.budget;
      }

  pub put_mlq_proc-IsValid :
      (s' : Sched A) × (put_mlq_proc prio a s ≡ ok s') × IsValid prio s' (mlq_view prio a v)
  unfolding put_mlq_proc
  put_mlq_proc-IsValid = (_, rw (lt→ltb _ _ bound), mlq-IsValid)

  pub add_mlq_proc-IsValid :
      (s' : Sched A) × (add_mlq_proc prio a s ≡ ok s') × IsValid prio s' (mlq_view prio a v)
  unfolding add_mlq_proc
  add_mlq_proc-IsValid = (_, rw (lt→ltb _ _ bound), mlq-IsValid)

pub put_mlq_proc-fault {ℓ} :
    {A : Type ℓ} (prio : A → ℕ) (a : A) (s : Sched A)
    → max_prio ≤ prio a
    → put_mlq_proc prio a s ≡ fault
unfolding put_mlq_proc
put_mlq_proc-fault prio a s h = ground arith

pub add_mlq_proc-fault {ℓ} :
    {A : Type ℓ} (prio : A → ℕ) (a : A) (s : Sched A)
    → max_prio ≤ prio a
    → add_mlq_proc prio a s ≡ fault
unfolding add_mlq_proc
add_mlq_proc-fault prio a s h = ground arith

-- `put_proc` of a process whose `prio` is not below MAX_PRIO leaves the array of queues: it faults.
pub put_proc-fault {ℓ} :
    {A : Type ℓ} (prio : A → ℕ) (a : A) (s : Sched A)
    → max_prio ≤ prio a
    → put_proc prio a s ≡ fault
unfolding put_proc
put_proc-fault prio a s h = ground arith

pub add_proc-fault {ℓ} :
    {A : Type ℓ} (prio : A → ℕ) (a : A) (s : Sched A)
    → max_prio ≤ prio a
    → add_proc prio a s ≡ fault
unfolding add_proc
add_proc-fault prio a s h = ground arith
