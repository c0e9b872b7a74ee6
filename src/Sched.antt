-- ===== src/Sched.antt =====
-- src/sched.c with MLQ_SCHED: the multilevel queue of the scheduler, one queue for each priority,
-- and the policy that hands its processes to the CPUs. `A` stands for the PCBs, `prio` reads the
-- field `prio` of one. Each function is the code between a lock and its unlock; `get_mlq_proc` tests
-- `queue_empty` under a lock of its own.
pub mod Valid
pub mod Init
pub mod Policy
pub mod Turns
pub mod Service
pub mod Promises
pub mod Wait
pub mod Fair
mod Tests
use osassignment_hk.Base.{
  ℕ, zero, suc, ◌+◌, ◌-◌, ◌%◌, Bool, true, false, not, ◌&&◌, ltb, if◌then◌else◌, update, List, ◌∷◌,
  Option, none, some, Outcome, ok, fault, ◌>>=◌,
}
use osassignment_hk.Queue.{Queue, empty, enqueue, dequeue}

-- MAX_PRIO
abbrev pub max_prio : ℕ
max_prio = 140

-- The static variables of sched.c. `linked` lists the processes whose pointers `ready_queue`,
-- `mlq_ready_queue` and `running_list` have been set to the variables of these names.
pub record Sched {ℓ} (A : Type ℓ) : Type ℓ where
  pub ready_queue : Queue A
  pub running_list : Queue A
  pub mlq_ready_queue : ℕ → Queue A
  pub slot : ℕ → ℕ
  pub curr_prio : ℕ
  pub curr_slot : ℕ
  pub linked : List A

module _ {ℓ} {A : Type ℓ} where
  -- The loop of `queue_empty` from priority `i` on, with the rounds that are left.
  unfoldable pub all_empty : (ℕ → Queue A) → ℕ → ℕ → Bool
  all_empty queues zero i = true
  all_empty queues (suc n) i = empty (queues i) && all_empty queues n (i + 1)

  unfoldable pub queue_empty : Sched A → Bool
  unfolding all_empty
  queue_empty s = all_empty s.mlq_ready_queue max_prio 0

  -- The loop of `init_scheduler` from priority `i` on.
  unfoldable pub init_loop : ℕ → ℕ → Sched A → Sched A
  init_loop zero i s = s
  init_loop (suc n) i s = init_loop n (i + 1) (record s {
    mlq_ready_queue =
        update s.mlq_ready_queue i (record { proc = (s.mlq_ready_queue i).proc; size = 0 });
    slot = update s.slot i (max_prio - i);
  })

  unfoldable pub init_scheduler : Sched A → Sched A
  unfolding init_loop
  init_scheduler s =
      let t = init_loop max_prio 0 s in
      record t {
        curr_prio = 0;
        curr_slot = max_prio;
        running_list = record { proc = t.running_list.proc; size = 0 };
      }

module _ {ℓ} {A : Type ℓ} (prio : A → ℕ) where
  -- `proc = dequeue(&mlq_ready_queue[p])` after the two variables of the policy are set
  unfoldable pub take_from : ℕ → ℕ → Sched A → Outcome (Option A × Sched A)
  take_from p slots s = do
    (proc, q) ← dequeue prio (s.mlq_ready_queue p)
    ok (
      proc,
      record s { mlq_ready_queue = update s.mlq_ready_queue p q; curr_prio = p; curr_slot = slots },
    )

  -- The loop of `get_mlq_proc` over `offset`, with the rounds that are left, and what follows it.
  unfoldable pub scan : ℕ → ℕ → Sched A → Outcome (Option A × Sched A)
  unfolding take_from
  scan zero offset s = take_from 0 (s.slot 0 - 1) s
  scan (suc n) offset s =
      let p = (s.curr_prio + offset) % max_prio in
      let rest = scan n (offset + 1) s in
      if not (empty (s.mlq_ready_queue p)) then take_from p (s.slot p - 1) s else rest

  -- `get_mlq_proc` from its `lock_queue` on
  unfoldable pub get_locked : Sched A → Outcome (Option A × Sched A)
  unfolding scan
  get_locked s =
      if ltb 0 s.curr_slot && not (empty (s.mlq_ready_queue s.curr_prio))
      then take_from s.curr_prio (s.curr_slot - 1) s
      else scan (max_prio - 1) 1 s

  unfoldable pub get_mlq_proc : Sched A → Outcome (Option A × Sched A)
  unfolding get_locked
  get_mlq_proc s = if queue_empty s then ok (none, s) else get_locked s

  unfoldable pub get_proc : Sched A → Outcome (Option A × Sched A)
  unfolding get_mlq_proc
  get_proc s = get_mlq_proc s

  -- An index at or above MAX_PRIO is outside of `mlq_ready_queue`.
  unfoldable pub put_mlq_proc : A → Sched A → Outcome (Sched A)
  put_mlq_proc p s =
      if ltb (prio p) max_prio
      then ok (record s {
        mlq_ready_queue =
            update s.mlq_ready_queue (prio p) (enqueue (s.mlq_ready_queue (prio p)) (some p));
      })
      else fault

  unfoldable pub add_mlq_proc : A → Sched A → Outcome (Sched A)
  add_mlq_proc p s =
      if ltb (prio p) max_prio
      then ok (record s {
        mlq_ready_queue =
            update s.mlq_ready_queue (prio p) (enqueue (s.mlq_ready_queue (prio p)) (some p));
      })
      else fault

  unfoldable pub put_proc : A → Sched A → Outcome (Sched A)
  unfolding put_mlq_proc
  put_proc p s =
      put_mlq_proc p
        (record s { linked = p ∷ s.linked; running_list = enqueue s.running_list (some p) })

  unfoldable pub add_proc : A → Sched A → Outcome (Sched A)
  unfolding add_mlq_proc
  add_proc p s =
      add_mlq_proc p
        (record s { linked = p ∷ s.linked; running_list = enqueue s.running_list (some p) })
