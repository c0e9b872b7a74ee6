-- ===== src/Simulator/Machine/Tests.antt =====
-- A program of one process: the loader adds it, and a CPU takes it.
use osassignment_hk.Base.{
  replicate, ℕ, ◌<◌, ◌≤◌, ◌≡◌, ◌≢◌, refl, true, false, List, [], ◌∷◌, Option, none, some, Outcome,
  ok, fault, arith, ◌==◌, Bool-cases, inl, inr,
}
use osassignment_hk.Sched.{Sched, queue_empty, get_locked}
use osassignment_hk.Sched.Valid.{View, IsValid}
use osassignment_hk.Queue.{empty, enqueue, dequeue}
use osassignment_hk.Sched.Init.{HasArrays}
use osassignment_hk.Process.{Os, prio_of}
use osassignment_hk.Process.Example.{calculate, two_steps, two_processes, unset}
use osassignment_hk.Paging.Example.{junk, memory, ram}
use osassignment_hk.Loader.Example.{items_io}
use osassignment_hk.Loader.Print.{Item}
use osassignment_hk.Simulator.Machine.Rounds.{place_of, with_cpu, cpu_round-Alone}
use osassignment_hk.Simulator.{Did, slot, Cpu, cpu_round, LdArgs, Ld, ld_round}
use osassignment_hk.Simulator.Config.{Config, init_system}
use osassignment_hk.Simulator.Machine.{
  World, Machine, started, at_thread, with_os, getting, locking, checking, Reach, here, next, looks,
  sees_some, takes, Alone,
}
use osassignment_hk.Simulator.Machine.Loads.{ld_round-Alone, Reach-Alone}
use osassignment_hk.Simulator.Machine.Lists.{waits}
use osassignment_hk.Cpu.Tame.{AllTame}
use osassignment_hk.Simulator.Machine.Places.{Somewhere}
use osassignment_hk.Simulator.Machine.Apart.{held}
use osassignment_hk.Simulator.Machine.Exclusion.{Reach-Exclusive, Reach-Live, Reach-Kept}
use osassignment_hk.Stdio.{Exec, done, crash, exit_1}
use osassignment_hk.Timer.{Timer, init, working}

abbrev args : LdArgs
args = record { num_processes = 1; path = (b'p' ∷ []) ∷ []; start_time = 0 ∷ []; prio = 1 ∷ [] }

abbrev world : World (List Item)
world = record { io = items_io (calculate ∷ calculate ∷ []); args = args; time_slot = 2 }

abbrev config : Config
config = record {
  time_slot = 2;
  num_cpus = 2;
  memramsz = 16;
  memswpsz = 16 ∷ [];
  ld_processes = args;
}

abbrev pub clock : Timer
clock = init (λ d. record { done = false; fsh = false; place = working; asleep = false; slots = 0 })

abbrev pub before : Os
before = record two_processes { sched = unset }

abbrev begin : Machine
begin = started (init_system [] ram clock before config)

first_load : Exec (Did × Ld × Os)
unfolding ld_round init_system
first_load = ld_round world.io (λ i. calculate) [] [] two_steps memory args 0 begin.ld begin.os

abbrev pub loaded_os : Exec (Did × Ld × Os) → Os
loaded_os (done (did, ld, os)) = os
loaded_os crash = before
loaded_os exit_1 = before

loaded : Machine
loaded = record begin {
  ld = record { i = 1; avail_pid = 2; loaded = false };
  os = loaded_os first_load;
}

given : Outcome (Option ℕ × Sched ℕ)
unfolding get_locked
given = get_locked (prio_of loaded.os) loaded.os.sched

abbrev pub sched_of : Outcome (Option ℕ × Sched ℕ) → Sched ℕ
sched_of (ok (r, s)) = s
sched_of fault = unset

looking : Machine
looking = at_thread loaded 0 (getting true) none 0

at_lock : Machine
at_lock = at_thread looking 0 (locking true) none 0

taken : Machine
taken =
    at_thread (with_os at_lock (record at_lock.os { sched = sched_of given })) 0 checking (some 0) 0

loaded-Alone : Alone world none begin loaded
unfolding loaded first_load ld_round init_system
loaded-Alone =
    ld_round-Alone world (λ i. calculate) [] [] two_steps memory 0 begin slot loaded.ld loaded.os
      refl refl

loaded-Reach : Reach world begin loaded
loaded-Reach = Reach-Alone here loaded-Alone

at_lock-Reach : Reach world begin at_lock
unfolding loaded looking at_lock first_load ld_round init_system queue_empty empty enqueue
at_lock-Reach = next (next loaded-Reach (looks 0 0 refl refl)) (sees_some 0 0 true refl refl refl)

taken-Reach : Reach world begin taken
unfolding loaded looking at_lock taken given first_load ld_round init_system get_locked empty
    enqueue dequeue
taken-Reach = next at_lock-Reach (takes 0 0 true (some 0) (sched_of given) refl refl refl)

pub arrays : HasArrays before.sched
arrays = record { queues = λ p. refl; running = refl }

Reach-Exclusive_example : held taken 1 ≢ some 0
unfolding taken at_lock looking loaded
Reach-Exclusive_example =
    Reach-Exclusive world [] ram clock before config arrays (λ h. refl) taken-Reach 0 1 0
      (λ e. omega arith) refl

Reach-Live_example :
    (v : View ℕ) × IsValid (prio_of taken.os) taken.os.sched v
    × ((c h : ℕ) → held taken c ≡ some h → (taken.os.freed h ≡ false) × ((p : ℕ) → waits v p h ≡ 0))
    × ((p h : ℕ) → 0 < waits v p h → taken.os.freed h ≡ false)
    × ((p h : ℕ) → waits v p h ≤ 1)
Reach-Live_example = Reach-Live world [] ram clock before config arrays (λ h. refl) taken-Reach

Reach-Kept_example :
    (v : View ℕ) × IsValid (prio_of taken.os) taken.os.sched v
    × ((h : ℕ) → h < taken.ld.i → Somewhere (held taken) taken.os.freed v h)
Reach-Kept_example =
    Reach-Kept world [] ram clock before config arrays (λ h. refl) taken-Reach (omega arith)

-- A round of the CPU 0 from there: it takes the process and runs its first instruction.
idle : Cpu
idle = record { proc = none; time_left = 0 }

round_of_0 : Outcome (Did × Cpu × Os)
unfolding cpu_round
round_of_0 = cpu_round junk (replicate 10 none) 2 false idle loaded.os

abbrev os_of : Outcome (Did × Cpu × Os) → Os
os_of (ok (did, cpu, os)) = os
os_of fault = before

cpu_after : Cpu
cpu_after = record { proc = some 0; time_left = 1 }

loaded-AllTame : AllTame loaded.os
unfolding loaded first_load ld_round init_system
loaded-AllTame h = elim (Bool-cases (0 == h)) [
  | inl first ↦ rw first (λ f. cc, (λ f. cc, tt))
  | inr other ↦ elim (Bool-cases (h == 7)) [
    | inl e ↦ rw (other, e) (λ f. cc, (λ f. cc, tt))
    | inr e ↦ rw (other, e) (λ f. cc, (λ f. cc, tt))
  ]
]

ld_round-Alone_example : Alone world none begin loaded
unfolding loaded first_load ld_round init_system
ld_round-Alone_example =
    ld_round-Alone world (λ i. calculate) [] [] two_steps memory 0 begin slot loaded.ld loaded.os
      refl refl

cpu_round-Alone_example :
    Alone world (some 0) loaded (with_cpu loaded 0 (os_of round_of_0) (place_of slot) cpu_after)
unfolding loaded idle cpu_after round_of_0 cpu_round first_load ld_round init_system get_locked
    empty enqueue dequeue queue_empty
cpu_round-Alone_example =
    cpu_round-Alone world junk (replicate 10 none) loaded 0 idle slot cpu_after (os_of round_of_0)
      loaded-AllTame refl refl refl
