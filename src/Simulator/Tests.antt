-- ===== src/Simulator/Tests.antt =====
-- Rounds of a CPU at concrete states.
use osassignment_hk.Base.{
  ◌≤◌, ◌<◌, ◌⊎◌, get_or, fault, replicate, ℕ, ◌≡◌, Option, refl, true, false, [], none, some, ok,
  Holds, arith,
}
use osassignment_hk.Sched.{Sched, max_prio}
use osassignment_hk.Sched.Valid.{View, IsValid, put_view}
use osassignment_hk.Sched.Policy.{Turn}
use osassignment_hk.Sched.Init.{initial, init_scheduler-IsValid}
use osassignment_hk.Paging.Example.{junk, memory}
use osassignment_hk.Process.{set_sched, prio_of}
use osassignment_hk.Process.Example.{unset, two_processes}
use osassignment_hk.Simulator.{LdArgs, Ld, ld_ready, Cpu, slot, recheck, cpu_round}
use osassignment_hk.Simulator.Switch.{cpu_round_switches}
use osassignment_hk.Simulator.Load.{Added, ld_ready-cases}
use osassignment_hk.Simulator.Quantum.{Kept, cpu_round-Quantum}

abbrev without : Cpu
without = record { proc = none; time_left = 0 }

nothing_put : IsValid (prio_of two_processes) two_processes.sched initial
nothing_put =
    init_scheduler-IsValid (prio_of two_processes) unset
      (record { queues = λ p. refl; running = refl })

abbrev with_time : Cpu
with_time = record { proc = some 3; time_left = 1 }

cpu_round-Quantum_example :
    Holds (Kept 2 with_time) (cpu_round junk [] 2 false with_time two_processes)
cpu_round-Quantum_example =
    cpu_round-Quantum junk [] 2 false (omega arith) (omega arith) with_time two_processes
      (record { bound = omega arith; no_time = λ e. cc })

cpu_round_switches_example :
    (next : Option ℕ) × (s : Sched ℕ) × (w : View ℕ) × Turn
      (put_view (prio_of two_processes) 7 initial)
      next
      w
    × IsValid (prio_of two_processes) s w
    × (cpu_round junk [] 2 false (record { proc = some 7; time_left = 0 }) two_processes
        ≡ recheck junk [] 2 false 0 next (set_sched two_processes s))
cpu_round_switches_example =
    cpu_round_switches junk [] 2 false two_processes nothing_put 7 refl refl (omega arith)

-- The process 7 is loaded, and its time was 2.
abbrev first_args : LdArgs
first_args = record { num_processes = 8; path = []; start_time = replicate 8 2; prio = [] }

abbrev at_7 : Ld
at_7 = record { i = 7; avail_pid = 9; loaded = true }

ld_ready-cases_example :
    ((5 < get_or first_args.start_time 7 0)
      × (ld_ready memory first_args 5 at_7 two_processes ≡ ok (slot, at_7, two_processes)))
    ⊎ (((get_or first_args.start_time 7 0 ≤ 5)
          × (max_prio ≤ prio_of two_processes 7)
          × (ld_ready memory first_args 5 at_7 two_processes ≡ fault))
        ⊎ Added memory first_args 5 at_7 two_processes initial)
ld_ready-cases_example = ld_ready-cases memory first_args 5 at_7 two_processes initial nothing_put
