-- ===== src/Simulator.antt =====
-- src/os.c: the threads of the simulator. A round is the code of a thread between two of its calls of
-- `next_slot`; the rounds of the threads of one slot come in any order, and each runs alone. What is
-- printed is not modelled. Simulator/Config has the configuration and the start.
pub mod Config
pub mod Quantum
pub mod Switch
pub mod Load
pub mod Machine
pub mod Demo
mod Tests
use osassignment_hk.Base.{
  ℕ, ◌+◌, ◌-◌, ◌^◌, ◌%◌, Bool, true, false, ltb, ◌==◌, if◌then◌else◌, update, List, [], get_or,
  Option, none, some, Outcome, ok, fault, ◌>>=◌,
}
use osassignment_hk.Memphy.{Memphy}
use osassignment_hk.Mm.{Mm, init_mm}
use osassignment_hk.Sched.{Sched, get_proc, put_proc, add_proc}
use osassignment_hk.Libmem.{Junk}
use osassignment_hk.Process.{set_sched, Inst, Proc, Os, set_proc, prio_of}
use osassignment_hk.Cpu.{run}
use osassignment_hk.Stdio.{Exec, done, crash, exit_1, Stdio}
use osassignment_hk.Loader.{load}

-- What a round ends with: a call of `next_slot`, or `detach_event` and the end of the thread.
pub data Did : Type 0 where
  slot stopped : Did

-- The variables of `cpu_routine`; `time_left` is the pattern of an int.
pub record Cpu : Type 0 where
  pub proc : Option ℕ
  pub time_left : ℕ

-- `proc = get_proc()`
unfoldable pub take_proc : Os → Outcome (Option ℕ × Os)
unfolding get_proc
take_proc os = do (proc, sched) ← get_proc (prio_of os) os.sched; ok (proc, set_sched os sched)

-- `cpu_routine` from its second `if` on, which tests the process that it holds by then.
unfoldable pub recheck :
    Junk → List (Option ℕ) → ℕ → Bool → ℕ → Option ℕ → Os → Outcome (Did × Cpu × Os)
unfolding run
recheck junk temp time_slot loaded_all time_left none os =
    ok (if loaded_all then stopped else slot, record { proc = none; time_left = time_left }, os)
recheck junk temp time_slot loaded_all time_left (some h) os = if os.freed h then fault else do
  let left = if time_left == 0 then time_slot else time_left
  (_, os) ← run junk temp os h
  ok (slot, record { proc = some h; time_left = (left + (2 ^ 32 - 1)) % 2 ^ 32 }, os)

-- A round of `cpu_routine`. `loaded_all` is the static variable `done`, which the loader sets.
unfoldable pub cpu_round : Junk → List (Option ℕ) → ℕ → Bool → Cpu → Os → Outcome (Did × Cpu × Os)
unfolding take_proc recheck put_proc
cpu_round junk temp time_slot loaded_all cpu os = elim cpu.proc [
  | none ↦ do
    (proc, os) ← take_proc os
    elim proc [
      | none ↦ ok (slot, cpu, os)
      | some h ↦ recheck junk temp time_slot loaded_all cpu.time_left (some h) os
    ]
  | some h ↦
      if os.freed h
      then fault
      else if (os.procs h).pc == (os.procs h).code.size
      then (do
        (proc, os) ← take_proc (record os { freed = update os.freed h true })
        recheck junk temp time_slot loaded_all 0 proc os)
      else if cpu.time_left == 0
      then (do
        sched ← put_proc (prio_of os) h os.sched
        (proc, os) ← take_proc (set_sched os sched)
        recheck junk temp time_slot loaded_all cpu.time_left proc os)
      else recheck junk temp time_slot loaded_all cpu.time_left (some h) os
]

-- `struct ld_args` and `num_processes`: the processes of the configuration.
pub record LdArgs : Type 0 where
  pub num_processes : ℕ
  pub path : List (List ℕ)
  pub start_time : List ℕ
  pub prio : List ℕ

-- Where `ld_routine` is: its `i`, the PID that `load` gives next, and whether the process `i` is loaded
-- and waits for its time. The PCB of process `i` has the handle `i`.
pub record Ld : Type 0 where
  pub i : ℕ
  pub avail_pid : ℕ
  pub loaded : Bool

abbrev pub of_outcome {ℓ} : {A : Type ℓ} → Outcome A → Exec A
of_outcome (ok a) = done a
of_outcome fault = crash

-- What `ld_routine` does to a process whose time has come, before it adds it.
unfoldable pub with_mm : Mm → Proc → Proc
unfolding init_mm
with_mm junk_mm proc = record proc { mm = init_mm junk_mm }

-- The part of `ld_routine` with a process that is loaded: it waits a slot, or adds the process.
unfoldable pub ld_ready : Mm → LdArgs → ℕ → Ld → Os → Outcome (Did × Ld × Os)
unfolding with_mm add_proc
ld_ready junk_mm args time ld os =
    if ltb time (get_or args.start_time ld.i 0) then ok (slot, ld, os) else do
      let os = set_proc os ld.i (with_mm junk_mm (os.procs ld.i))
      sched ← add_proc (prio_of os) ld.i os.sched
      ok (slot, record ld { i = ld.i + 1; loaded = false }, set_sched os sched)

module _ {F : Type 0} (io : Stdio F) where
  -- A round of `ld_routine` at a time of the clock. `stale`, `opcode`, `buf`, `blank` and `junk_mm` are
  -- what malloc and the arrays of `load` leave.
  unfoldable pub ld_round :
      (ℕ → Inst) → List ℕ → List ℕ → Proc → Mm → LdArgs → ℕ → Ld → Os → Exec (Did × Ld × Os)
  unfolding load ld_ready
  ld_round stale opcode buf blank junk_mm args time ld os =
      if ltb ld.i args.num_processes
      then (if ld.loaded
          then of_outcome (ld_ready junk_mm args time ld os)
          else (elim (load io stale opcode buf blank ld.avail_pid (get_or args.path ld.i [])) [
            | done (proc, avail_pid) ↦
                let proc = record proc { prio = get_or args.prio ld.i 0 % 2 ^ 32 } in
                of_outcome (
                  ld_ready junk_mm args time (record ld { avail_pid = avail_pid; loaded = true })
                    (set_proc os ld.i proc))
            | crash ↦ crash
            | exit_1 ↦ exit_1
          ]))
      else done (stopped, ld, os)
