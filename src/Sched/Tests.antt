-- ===== src/Sched/Tests.antt =====
-- Runs of the scheduler, and the theorems at concrete states. Process `n` has the priority `n / 10`.
use osassignment_hk.Base.{
  ℕ, ◌-◌, ◌/◌, ◌<◌, ◌≡◌, refl, update, update-all₂, update-all, [], ◌∷◌, replicate, All, Option,
  none, some, Outcome, ok, fault, ◌>>=◌, arith, List, ◌++◌,
}
use osassignment_hk.Queue.{Queue, empty, enqueue, dequeue}
use osassignment_hk.Queue.Represents.{Represents}
use osassignment_hk.Sched.{
  Sched, max_prio, init_scheduler, put_proc, add_proc, get_locked, get_mlq_proc, get_proc,
  queue_empty,
}
use osassignment_hk.Sched.Valid.{View, IsValid, put_view, put_proc-IsValid}
use osassignment_hk.Sched.Turns.{Turns, get_locked-Turns}
use osassignment_hk.Sched.Service.{Removes}
use osassignment_hk.Sched.Init.{HasArrays, initial, init_scheduler-IsValid}
use osassignment_hk.Sched.Fair.{Calls, begin, gets, puts, patience_bound, Calls-Bounded}
use osassignment_hk.Sched.Promises.{get_mlq_proc-Removes, get_mlq_proc-wastes}

abbrev prio_of : ℕ → ℕ
prio_of n = n / 10

abbrev blank : Queue ℕ
blank = record { proc = replicate 10 none; size = 0 }

abbrev unset : Sched ℕ
unset = record {
  ready_queue = blank;
  running_list = blank;
  mlq_ready_queue = λ p. blank;
  slot = λ p. 0;
  curr_prio = 0;
  curr_slot = 0;
  linked = [];
}

-- Two processes of priority 1 and one of priority 3 are put; the first turn goes to priority 1.
started : Outcome (Option ℕ × Sched ℕ)
unfolding init_scheduler put_proc add_proc get_proc get_mlq_proc queue_empty
started = do
  s ← add_proc prio_of 11 (init_scheduler unset)
  s ← add_proc prio_of 31 s
  s ← put_proc prio_of 12 s
  get_proc prio_of s

abbrev given : Outcome (Option ℕ × Sched ℕ) → Option ℕ
given (ok (r, s)) = r
given fault = none

abbrev left : Outcome (Option ℕ × Sched ℕ) → ℕ
left (ok (r, s)) = s.curr_slot
left fault = 0

started_gives : (given started ≡ some 11) × (left started ≡ 138)
unfolding started empty enqueue dequeue
started_gives = (refl, refl)

-- Only process 1391 waits, at priority 139, and its turn is used up.
abbrev last_queue : Queue ℕ
last_queue = record { proc = some 1391 ∷ replicate 9 none; size = 1 }

abbrev spent : Sched ℕ
spent = record unset {
  mlq_ready_queue = update (λ p. blank) 139 last_queue;
  slot = λ p. max_prio - p;
  curr_prio = 139;
}

abbrev spent_view : View ℕ
spent_view = record { ready = update (λ p. []) 139 (1391 ∷ []); running = []; prio = 139; slot = 0 }

blank-Represents : Represents blank []
blank-Represents = record { rest = replicate 10 none; slots = refl; counted = refl; whole = refl }

last_queue-Represents : Represents last_queue (1391 ∷ [])
last_queue-Represents = record {
  rest = replicate 9 none;
  slots = refl;
  counted = refl;
  whole = refl;
}

spent-IsValid : IsValid prio_of spent spent_view
spent-IsValid = record {
  holds =
      update-all₂ (λ p q l. p < max_prio → Represents q l) (λ p. blank) (λ p. []) 139 _ _
        (λ _. last_queue-Represents) (λ p _ _. blank-Represents);
  lists = blank-Represents;
  sorted = update-all (λ p l. All (λ a. prio_of a ≡ p) l) (λ p. []) 139 _ (refl, tt) (λ p _. tt);
  slots = λ p b. refl;
  prio_eq = refl;
  slot_eq = refl;
  in_range = omega arith;
  budget = omega arith;
}

spent_missed :
    (given (get_mlq_proc prio_of spent) ≡ none) × (left (get_mlq_proc prio_of spent) ≡ 139)
unfolding get_mlq_proc queue_empty empty dequeue
spent_missed = (refl, refl)

-- The state after the missed turn.
abbrev reset : Outcome (Option ℕ × Sched ℕ) → Sched ℕ
reset (ok (r, s)) = s
reset fault = unset

spent_resets : get_mlq_proc prio_of spent ≡ ok (none, reset (get_mlq_proc prio_of spent))
unfolding get_mlq_proc queue_empty empty dequeue
spent_resets = refl

-- Two wait at priority 0 and one at priority 3; priority 0 has its whole budget.
abbrev front_queue : Queue ℕ
front_queue = record { proc = some 1 ∷ some 2 ∷ replicate 8 none; size = 2 }

abbrev back_queue : Queue ℕ
back_queue = record { proc = some 31 ∷ replicate 9 none; size = 1 }

abbrev mixed : Sched ℕ
mixed = record unset {
  mlq_ready_queue = update (update (λ p. blank) 0 front_queue) 3 back_queue;
  slot = λ p. max_prio - p;
  curr_slot = 140;
}

abbrev mixed_view : View ℕ
mixed_view = record {
  ready = update (update (λ p. []) 0 (1 ∷ 2 ∷ [])) 3 (31 ∷ []);
  running = [];
  prio = 0;
  slot = 140;
}

front_queue-Represents : Represents front_queue (1 ∷ 2 ∷ [])
front_queue-Represents = record {
  rest = replicate 8 none;
  slots = refl;
  counted = refl;
  whole = refl;
}

back_queue-Represents : Represents back_queue (31 ∷ [])
back_queue-Represents = record {
  rest = replicate 9 none;
  slots = refl;
  counted = refl;
  whole = refl;
}

mixed-IsValid : IsValid prio_of mixed mixed_view
mixed-IsValid = record {
  holds =
      update-all₂ (λ p q l. p < max_prio → Represents q l) (update (λ p. blank) 0 front_queue)
        (update (λ p. []) 0 (1 ∷ 2 ∷ [])) 3 _ _ (λ _. back_queue-Represents)
        (λ p _.
          update-all₂ (λ p q l. p < max_prio → Represents q l) (λ p. blank) (λ p. []) 0 _ _
            (λ _. front_queue-Represents) (λ p _ _. blank-Represents) p);
  lists = blank-Represents;
  sorted =
      update-all (λ p l. All (λ a. prio_of a ≡ p) l) (update (λ p. []) 0 (1 ∷ 2 ∷ [])) 3 _
        (refl, tt)
        (λ p _.
          update-all (λ p l. All (λ a. prio_of a ≡ p) l) (λ p. []) 0 _ (refl, (refl, tt))
            (λ p _. tt) p);
  slots = λ p b. refl;
  prio_eq = refl;
  slot_eq = refl;
  in_range = omega arith;
  budget = omega arith;
}

abbrev after_one : Sched ℕ
after_one = reset (get_mlq_proc prio_of mixed)

mixed_gives : get_mlq_proc prio_of mixed ≡ ok (some 1, after_one)
unfolding get_mlq_proc queue_empty empty dequeue
mixed_gives = refl

get_locked-Turns_example : Turns mixed-IsValid (get_locked prio_of mixed)
get_locked-Turns_example = get_locked-Turns mixed-IsValid

get_mlq_proc-Removes_example : (w : View ℕ) × IsValid prio_of after_one w × Removes mixed_view w 1
get_mlq_proc-Removes_example = get_mlq_proc-Removes mixed-IsValid 1 after_one mixed_gives

get_mlq_proc-wastes_example :
    (s' : Sched ℕ) × (get_mlq_proc prio_of spent ≡ ok (none, s'))
    × IsValid prio_of s' (record spent_view { prio = 0; slot = 139 })
get_mlq_proc-wastes_example =
    get_mlq_proc-wastes spent-IsValid 1391 [] refl (omega arith) refl (λ p b ne. ground (arith, ne))

put_proc-IsValid_example :
    (s' : Sched ℕ) × (put_proc prio_of 32 mixed ≡ ok s')
    × IsValid prio_of s' (put_view prio_of 32 mixed_view)
put_proc-IsValid_example = put_proc-IsValid mixed-IsValid 32 (omega arith)

unset-HasArrays : HasArrays unset
unset-HasArrays = record { queues = λ p. refl; running = refl }

init_scheduler-IsValid_example : IsValid prio_of (init_scheduler unset) initial
init_scheduler-IsValid_example = init_scheduler-IsValid prio_of unset unset-HasArrays

-- 31 waits while 1 is taken and 12 is put.
abbrev without_1 : Sched ℕ
without_1 = reset (get_locked prio_of mixed)

abbrev sched_of : Outcome (Sched ℕ) → Sched ℕ
sched_of (ok s) = s
sched_of fault = unset

abbrev with_12 : Sched ℕ
with_12 = sched_of (put_proc prio_of 12 without_1)

two_calls : Calls prio_of 31 mixed 1 with_12
unfolding get_locked empty dequeue put_proc enqueue
two_calls = puts 12 (gets (some 1) begin refl (λ e. cc)) refl

Calls-Bounded_example :
    (1 < patience_bound)
    × (w : View ℕ) × IsValid prio_of with_12 w
    × (front : List ℕ) × (back : List ℕ) × (w.ready 3 ≡ front ++ 31 ∷ back)
Calls-Bounded_example = Calls-Bounded 31 [] [] mixed-IsValid (omega arith) refl two_calls
