-- ===== src/Simulator/Machine/Exclusion.antt =====
-- Where the processes are in the states that the threads of src/os.c reach in any order of their steps.
use osassignment_hk.Base.{ℕ, ◌<◌, ◌≤◌, ◌≡◌, ◌≢◌, false, List, some, arith}
use osassignment_hk.Queue.{max_queue_size}
use osassignment_hk.Simulator.Machine.Places.{Somewhere}
use osassignment_hk.Process.{Os, prio_of}
use osassignment_hk.Sched.Valid.{View, IsValid}
use osassignment_hk.Simulator.Machine.Lists.{waits}
use osassignment_hk.Killall.Items.{occurrences}
use osassignment_hk.Memphy.{Memphy}
use osassignment_hk.Sched.Init.{HasArrays, initial, init_scheduler-IsValid}
use osassignment_hk.Timer.{Timer}
use osassignment_hk.Simulator.Config.{Config, init_system}
use osassignment_hk.Simulator.Machine.{World, Machine, started, Reach}
use osassignment_hk.Simulator.Machine.Apart.{held, IsApart, Reach-IsApart}

-- The places before the first step.
pub started-IsApart :
    (C : Type 0) (junk : List ℕ) (blank : Memphy) (timer : Timer) (os : Os) (config : Config)
    → HasArrays os.sched
    → ((h : ℕ) → os.freed h ≡ false)
    → IsApart C (started (init_system junk blank timer os config))
unfolding init_system occurrences
started-IsApart C junk blank timer os config arrays live = record {
  view = initial;
  valid = init_scheduler-IsValid (prio_of os) os.sched arrays;
  places = record {
    once = λ p h. omega arith;
    waiting = λ p h some_h. absurd (omega arith);
    holding = λ c h e. cc;
    apart = λ c d h e f. cc;
    unborn = λ h le. live h;
    every = λ cond h lt. absurd (omega arith);
  };
  few = λ cond. omega arith;
}

module _ {F : Type 0} (w : World F) (junk : List ℕ) (blank : Memphy) (timer : Timer) (os : Os)
    (config : Config) (arrays : HasArrays os.sched) (live : (h : ℕ) → os.freed h ≡ false)
    {m : Machine} (reach : Reach w (started (init_system junk blank timer os config)) m) where
  reached : (C : Type 0) → (C → w.args.num_processes ≤ max_queue_size) → IsApart C m
  reached C few =
      Reach-IsApart w C few (started-IsApart C junk blank timer os config arrays live) reach

  -- The places without the condition.
  anyhow : IsApart ⊥ m
  anyhow = reached ⊥ absurd

  -- After any sequence of steps of the loader and the CPUs from the start of the program, in any
  -- order and up to the first call of killall, two CPUs never have the same process.
  pub Reach-Exclusive : (c d h : ℕ) → c ≢ d → held m c ≡ some h → held m d ≢ some h
  Reach-Exclusive c d h ne e f = ne (anyhow.places.apart c d h e f)

  -- After any sequence of steps of the loader and the CPUs from the start of the program, in any
  -- order and up to the first call of killall, the scheduler is valid, a CPU never has a process
  -- that was freed or that waits in a queue, no process that was freed waits in a queue, and no
  -- process waits in two places.
  pub Reach-Live :
      (v : View ℕ) × IsValid (prio_of m.os) m.os.sched v
      × ((c h : ℕ) → held m c ≡ some h → (m.os.freed h ≡ false) × ((p : ℕ) → waits v p h ≡ 0))
      × ((p h : ℕ) → 0 < waits v p h → m.os.freed h ≡ false)
      × ((p h : ℕ) → waits v p h ≤ 1)
  Reach-Live = (
    anyhow.view,
    anyhow.valid,
    λ c h e. let (_, alive, gone) = anyhow.places.holding c h e in (alive, gone),
    λ p h some_h. (anyhow.places.waiting p h some_h).1,
    anyhow.places.once,
  )

  -- After any sequence of steps of the loader and the CPUs from the start of the program, in any
  -- order and up to the first call of killall, no process is lost, if at most ten are configured: a
  -- process that the loader has added was freed, or a CPU has it, or it waits in the queue of a
  -- priority.
  pub Reach-Kept :
      w.args.num_processes ≤ max_queue_size
      → (v : View ℕ) × IsValid (prio_of m.os) m.os.sched v
        × ((h : ℕ) → h < m.ld.i → Somewhere (held m) m.os.freed v h)
  Reach-Kept few =
      let kept = reached Unit (λ cond. few) in (kept.view, kept.valid, kept.places.every tt)
