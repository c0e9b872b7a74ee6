-- ===== src/Simulator/Machine/Pair.antt =====
-- A program of two processes: the loader adds both, and a CPU takes the first while the second waits.
use osassignment_hk.Base.{
  ℕ, ◌<◌, ◌≡◌, refl, true, false, List, [], ◌∷◌, ◌++◌, replicate, Option, none, some, Outcome,
  arith,
}
use osassignment_hk.Sched.{Sched, queue_empty, get_locked}
use osassignment_hk.Sched.Valid.{View, IsValid}
use osassignment_hk.Sched.Fair.{patience_bound}
use osassignment_hk.Queue.{empty, enqueue, dequeue}
use osassignment_hk.Queue.Represents.{Represents}
use osassignment_hk.Process.{Os, prio_of}
use osassignment_hk.Process.Example.{calculate, two_steps}
use osassignment_hk.Paging.Example.{memory, ram}
use osassignment_hk.Loader.Example.{items_io}
use osassignment_hk.Loader.Print.{Item}
use osassignment_hk.Simulator.{slot, Did, LdArgs, Ld, ld_round}
use osassignment_hk.Simulator.Config.{Config, init_system}
use osassignment_hk.Stdio.{Exec}
use osassignment_hk.Simulator.Machine.{
  World, Machine, started, at_thread, with_os, getting, locking, checking, Reach, here, looks,
  sees_some, takes,
}
use osassignment_hk.Simulator.Machine.Room.{Represents-unique}
use osassignment_hk.Simulator.Machine.Exclusion.{Reach-Live}
use osassignment_hk.Simulator.Machine.Loads.{ld_round-Alone, Reach-Alone}
use osassignment_hk.Simulator.Machine.Fair.{Passing, no_step, step, Passing-Bounded}
use osassignment_hk.Simulator.Machine.Tests.{loaded_os, sched_of, before, clock, arrays}

abbrev args : LdArgs
args = record {
  num_processes = 2;
  path = (b'p' ∷ []) ∷ (b'p' ∷ []) ∷ [];
  start_time = 0 ∷ 0 ∷ [];
  prio = 1 ∷ 1 ∷ [];
}

abbrev world : World (List Item)
world = record { io = items_io (calculate ∷ calculate ∷ []); args = args; time_slot = 2 }

abbrev config : Config
config = record {
  time_slot = 2;
  num_cpus = 2;
  memramsz = 16;
  memswpsz = 16 ∷ [];
  ld_processes = args;
}

abbrev begin : Machine
begin = started (init_system [] ram clock before config)

load_at : Machine → Exec (Did × Ld × Os)
unfolding ld_round
load_at m = ld_round world.io (λ i. calculate) [] [] two_steps memory args 0 m.ld m.os

with_one : Machine
unfolding load_at init_system
with_one = record begin {
  ld = record { i = 1; avail_pid = 2; loaded = false };
  os = loaded_os (load_at begin);
}

with_two : Machine
unfolding load_at with_one
with_two = record with_one {
  ld = record { i = 2; avail_pid = 3; loaded = false };
  os = loaded_os (load_at with_one);
}

with_two-Reach : Reach world begin with_two
unfolding with_one with_two load_at ld_round init_system enqueue
with_two-Reach =
    Reach-Alone
      (Reach-Alone here (
        ld_round-Alone world (λ i. calculate) [] [] two_steps memory 0 begin slot with_one.ld
          with_one.os refl refl))
      (ld_round-Alone world (λ i. calculate) [] [] two_steps memory 0 with_one slot with_two.ld
        with_two.os refl refl)

given : Outcome (Option ℕ × Sched ℕ)
unfolding get_locked
given = get_locked (prio_of with_two.os) with_two.os.sched

looking : Machine
looking = at_thread with_two 0 (getting true) none 0

at_lock : Machine
at_lock = at_thread looking 0 (locking true) none 0

taken : Machine
taken =
    at_thread (with_os at_lock (record at_lock.os { sched = sched_of given })) 0 checking (some 0) 0

-- The process 1 waits while the CPU 0 takes the process 0.
taken-Passing : Passing world 1 with_two 1 taken
unfolding with_one with_two looking at_lock taken given load_at ld_round init_system get_locked
    empty enqueue dequeue queue_empty
taken-Passing =
    step
      (step (step no_step (looks 0 0 refl refl) (λ e. cc)) (sees_some 0 0 true refl refl refl)
        (λ e. cc))
      (takes 0 0 true (some 0) (sched_of given) refl refl refl) (λ e. cc)

both-Represents : Represents (with_two.os.sched.mlq_ready_queue 1) (0 ∷ 1 ∷ [])
unfolding with_one with_two load_at ld_round init_system enqueue
both-Represents = record { rest = replicate 8 none; slots = refl; counted = refl; whole = refl }

view_of_two : (v : View ℕ) × IsValid (prio_of with_two.os) with_two.os.sched v
view_of_two =
    let live = Reach-Live world [] ram clock before config arrays (λ h. refl) with_two-Reach in
    (live.0, live.1)

Passing-Bounded_example :
    (1 < patience_bound)
    × (u : View ℕ) × IsValid (prio_of taken.os) taken.os.sched u
    × (front : List ℕ) × (back : List ℕ) × (u.ready 1 ≡ front ++ 1 ∷ back)
Passing-Bounded_example =
    Passing-Bounded world [] ram clock before config arrays (λ h. refl) with_two-Reach view_of_two.1
      (omega arith) 1 (0 ∷ []) []
      (Represents-unique (view_of_two.1.holds 1 (omega arith)) both-Represents) taken-Passing
