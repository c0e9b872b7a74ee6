-- ===== src/Sched/Init.antt =====
-- What `init_scheduler` leaves, over arrays of ten slots with any contents.
use osassignment_hk.Base.{ℕ, zero, suc, ◌+◌, ◌-◌, ◌<◌, ◌≡◌, refl, update-all, [], length, arith}
use osassignment_hk.Queue.{Queue, max_queue_size}
use osassignment_hk.Queue.Represents.{Represents}
use osassignment_hk.Sched.{Sched, max_prio, init_loop, init_scheduler}
use osassignment_hk.Sched.Valid.{View, IsValid}

-- The static arrays, whatever they hold.
pub record HasArrays {ℓ} {A : Type ℓ} (s : Sched A) : Type ℓ where
  pub queues : (p : ℕ) → length (s.mlq_ready_queue p).proc ≡ max_queue_size
  pub running : length s.running_list.proc ≡ max_queue_size

-- The state before the round for priority `i`.
record Inits {ℓ} {A : Type ℓ} (i : ℕ) (s : Sched A) : Type ℓ where
  arrays : HasArrays s
  cleared : (p : ℕ) → p < i → Represents (s.mlq_ready_queue p) []
  slots : (p : ℕ) → p < i → s.slot p ≡ max_prio - p

module _ {ℓ} {A : Type ℓ} where
  cleared_queue :
      (q : Queue A)
      → length q.proc ≡ max_queue_size
      → Represents (record { proc = q.proc; size = 0 }) []
  cleared_queue q h = record { rest = q.proc; slots = refl; counted = refl; whole = h }

  init_loop-Inits : (n i j : ℕ) (s : Sched A) → i + n ≡ j → Inits i s → Inits j (init_loop n i s)
  unfolding init_loop
  init_loop-Inits zero i j s e h = let e' : i ≡ j = omega arith in rw (← e') h
  init_loop-Inits (suc n) i j s e h = init_loop-Inits n (i + 1) j _ (omega arith) (record {
    arrays = record {
      queues =
          update-all (λ p q. length q.proc ≡ max_queue_size) s.mlq_ready_queue i _
            (h.arrays.queues i) (λ p _. h.arrays.queues p);
      running = h.arrays.running;
    };
    cleared =
        update-all (λ p q. p < i + 1 → Represents q []) s.mlq_ready_queue i _
          (λ _. cleared_queue (s.mlq_ready_queue i) (h.arrays.queues i))
          (λ p ne b. h.cleared p (omega arith));
    slots =
        update-all (λ p k. p < i + 1 → k ≡ max_prio - p) s.slot i _ (λ _. refl)
          (λ p ne b. h.slots p (omega arith));
  })

  -- The state that `init_scheduler` promises: nothing waits, and priority 0 has its whole budget.
  abbrev pub initial : View A
  initial = record { ready = λ p. []; running = []; prio = 0; slot = max_prio }

  -- If every queue has its ten slots, `init_scheduler` leaves a valid state in which nobody waits,
  -- and each priority p has the budget MAX_PRIO - p.
  pub init_scheduler-IsValid :
      (prio : A → ℕ) (s : Sched A) → HasArrays s → IsValid prio (init_scheduler s) initial
  unfolding init_scheduler
  init_scheduler-IsValid prio s h =
      let done = init_loop-Inits max_prio 0 max_prio s refl (record {
        arrays = h;
        cleared = λ p b. absurd (omega arith);
        slots = λ p b. absurd (omega arith);
      }) in
      record {
        holds = done.cleared;
        lists = cleared_queue (init_loop max_prio 0 s).running_list done.arrays.running;
        sorted = λ p. tt;
        slots = done.slots;
        prio_eq = refl;
        slot_eq = refl;
        in_range = omega arith;
        budget = omega arith;
      }
