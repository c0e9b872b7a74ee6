-- ===== src/Simulator/Switch.antt =====
-- How a CPU of src/os.c changes its process.
use osassignment_hk.Base.{
  ℕ, ◌+◌, ◌-◌, ◌^◌, ◌%◌, ◌<◌, ◌≡◌, refl, ap, ◌∙◌, Bool, true, false, ◌==◌, update, List, Option,
  some, ok, >>=-step, if_false, if_true, arith,
}
use osassignment_hk.Libmem.{Junk}
use osassignment_hk.Sched.{Sched, max_prio, get_proc}
use osassignment_hk.Sched.Valid.{View, IsValid, put_view, put_proc-IsValid}
use osassignment_hk.Sched.Policy.{Turn}
use osassignment_hk.Sched.Turns.{get_mlq_proc-Turns}
use osassignment_hk.Process.{set_sched, Os, prio_of}
use osassignment_hk.Cpu.{run}
use osassignment_hk.Simulator.{slot, take_proc, recheck, cpu_round}

pub took :
    (os : Os) (proc : Option ℕ) (s : Sched ℕ)
    → get_proc (prio_of os) os.sched ≡ ok (proc, s)
    → take_proc os ≡ ok (proc, set_sched os s)
unfolding take_proc
took os proc s e = rw e refl

recheck_runs :
    (junk : Junk) (temp : List (Option ℕ)) (time_slot : ℕ) (loaded_all : Bool) (t h : ℕ) (os : Os)
    (stat : Option ℕ) (os' : Os)
    → os.freed h ≡ false
    → (t == 0) ≡ false
    → run junk temp os h ≡ ok (stat, os')
    → recheck junk temp time_slot loaded_all t (some h) os
      ≡ ok (slot, record { proc = some h; time_left = (t + (2 ^ 32 - 1)) % 2 ^ 32 }, os')
unfolding recheck
recheck_runs junk temp time_slot loaded_all t h os stat os' live left e =
    if_false _ _ live ∙ rw left (>>=-step _ e)

module _ (junk : Junk) (temp : List (Option ℕ)) (time_slot : ℕ) (loaded_all : Bool) (os : Os)
    {v : View ℕ} (valid : IsValid (prio_of os) os.sched v) (h : ℕ) (live : os.freed h ≡ false) where
  -- A CPU whose process is at its end takes what the policy gives from the waiting processes; the
  -- process is freed and comes back to no queue.
  pub cpu_round_ends :
      (t : ℕ)
      → ((os.procs h).pc == (os.procs h).code.size) ≡ true
      → (next : Option ℕ) × (s : Sched ℕ) × (w : View ℕ) × Turn v next w
        × IsValid (prio_of os) s w
        × (cpu_round junk temp time_slot loaded_all (record { proc = some h; time_left = t }) os
            ≡ recheck junk temp time_slot loaded_all 0 next
                (set_sched (record os { freed = update os.freed h true }) s))
  unfolding cpu_round
  cpu_round_ends t fin =
      let (next, s, w, e, turn, valid') = get_mlq_proc-Turns valid in
      (
        next,
        s,
        w,
        turn,
        valid',
        if_false _ _ live
            ∙ if_true _ _ fin
            ∙ >>=-step _
                (took (record os { freed = update os.freed h true }) next s (unfold get_proc in e)),
      )

  -- Let the scheduler be in a valid state, and the process of a CPU be not freed, not at its end,
  -- of a `prio` below MAX_PRIO, and without time left. Then a round of the CPU puts the process
  -- behind the others of its priority and of the running list, where either drops it if it holds
  -- ten already. It makes a turn of the policy on what waits then, which leaves a valid state, and
  -- goes on with what the turn gives.
  pub cpu_round_switches :
      ((os.procs h).pc == (os.procs h).code.size) ≡ false
      → prio_of os h < max_prio
      → (next : Option ℕ) × (s : Sched ℕ) × (w : View ℕ) × Turn (put_view (prio_of os) h v) next w
        × IsValid (prio_of os) s w
        × (cpu_round junk temp time_slot loaded_all (record { proc = some h; time_left = 0 }) os
            ≡ recheck junk temp time_slot loaded_all 0 next (set_sched os s))
  unfolding cpu_round
  cpu_round_switches more bound =
      let (put, p, valid₁) = put_proc-IsValid valid h bound in
      let (next, s, w, e, turn, valid') = get_mlq_proc-Turns valid₁ in
      (
        next,
        s,
        w,
        turn,
        valid',
        if_false _ _ live
            ∙ if_false _ _ more
            ∙ >>=-step _ p
            ∙ >>=-step _ (took (set_sched os put) next s (unfold get_proc in e)),
      )

  -- A CPU whose process has time left and is not at its end runs its next instruction, if that returns,
  -- and keeps the process with one round less.
  pub cpu_round_runs :
      (t : ℕ) (stat : Option ℕ) (os' : Os)
      → ((os.procs h).pc == (os.procs h).code.size) ≡ false
      → 0 < t
      → t < 2 ^ 31
      → run junk temp os h ≡ ok (stat, os')
      → cpu_round junk temp time_slot loaded_all (record { proc = some h; time_left = t }) os
        ≡ ok (slot, record { proc = some h; time_left = t - 1 }, os')
  unfolding cpu_round
  cpu_round_runs t stat os' more left is_int e =
      let some_left : (t == 0) ≡ false = ground arith in
      let count : (t + (2 ^ 32 - 1)) % 2 ^ 32 ≡ t - 1 = omega arith in
      if_false _ _ live
      ∙ if_false _ _ more
      ∙ if_false _ _ some_left
      ∙ recheck_runs junk temp time_slot loaded_all t h os stat os' live some_left e
      ∙ ap (λ n. ok (slot, record { proc = some h; time_left = n }, os')) count
