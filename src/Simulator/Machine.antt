-- ===== src/Simulator/Machine.antt =====
-- src/os.c: the CPUs and the loader, interleaved. A step is what a thread does under one lock of
-- src/sched.c, or between two locks, and the steps of the threads come in any order. `get_mlq_proc`,
-- `put_proc` and `add_proc` take two steps each, since they lock twice. An instruction and the reading of
-- a file are one step each. There is no step for a call of killall, which changes the queues without
-- their lock: the runs of the machine are those up to the first such call. The clock of src/timer.c is
-- left out, which allows more orders than it does.
pub mod Lists
pub mod Room
pub mod Places
pub mod Taken
pub mod Owned
pub mod Apart
pub mod Waits
pub mod Exclusion
pub mod Fair
pub mod Rounds
pub mod Loads
mod Tests
mod Pair
use osassignment_hk.Base.{
  length, ltb, get_or, Holds, [], ◌∷◌, ℕ, ◌+◌, ◌-◌, ◌^◌, ◌%◌, ◌<◌, ◌≡◌, ◌≢◌, Bool, true, false,
  ◌==◌, if◌then◌else◌, update, List, Option, none, some, Outcome, ok,
}
use osassignment_hk.Queue.{max_queue_size, enqueue}
use osassignment_hk.Mm.{Mm}
use osassignment_hk.Sched.{Sched, queue_empty, get_locked, put_mlq_proc, add_mlq_proc}
use osassignment_hk.Libmem.{Junk}
use osassignment_hk.Process.{Inst, Proc, Os, set_proc, set_sched, prio_of}
use osassignment_hk.Cpu.{fetch, run}
use osassignment_hk.Cpu.Tame.{IsTame}
use osassignment_hk.Loader.{load}
use osassignment_hk.Stdio.{done, Stdio}
use osassignment_hk.Simulator.Config.{Boot}
use osassignment_hk.Simulator.{Cpu, LdArgs, Ld, with_mm}

-- Where `cpu_routine` is: at the top of its loop, between the two locks of `put_proc`, before or between
-- the two locks of `get_proc`, which it calls in its first branch if `first`, at its second `if`, or past
-- its end.
pub data Loc : Type 0 where
  top : Loc
  putting : Loc
  getting : (first : Bool) → Loc
  locking : (first : Bool) → Loc
  checking : Loc
  past_end : Loc

pub record Thread : Type 0 where
  pub loc : Loc
  pub cpu : Cpu

-- What does not change: the files, and the configuration.
pub record World (F : Type 0) : Type 0 where
  pub io : Stdio F
  pub args : LdArgs
  pub time_slot : ℕ

-- `adding` tells whether the loader is between the two locks of `add_proc`, `loaded_all` is `done`.
pub record Machine : Type 0 where
  pub os : Os
  pub threads : ℕ → Thread
  pub ld : Ld
  pub adding : Bool
  pub loaded_all : Bool

abbrev pub at_thread : Machine → ℕ → Loc → Option ℕ → ℕ → Machine
at_thread m c loc proc time_left = record m {
  threads =
      update m.threads c
        (record { loc = loc; cpu = record { proc = proc; time_left = time_left } });
}

abbrev pub with_os : Machine → Os → Machine
with_os m os = record m { os = os }

-- What `put_proc` and `add_proc` do up to their first unlock.
abbrev pub listed : ℕ → Sched ℕ → Sched ℕ
listed h s = record s { linked = h ∷ s.linked; running_list = enqueue s.running_list (some h) }

-- The threads as `main` creates them, and the static variables `done` and `avail_pid`. CPUs that are not
-- created take no step.
abbrev pub started : Boot → Machine
started boot = record {
  os = boot.os;
  threads = λ c. record { loc = top; cpu = record { proc = none; time_left = 0 } };
  ld = record { i = 0; avail_pid = 1; loaded = false };
  adding = false;
  loaded_all = false;
}

-- Where a CPU goes with what it got. In the first branch it goes back to the top without a process.
abbrev pub after_get : Bool → Option ℕ → Loc
after_get true none = top
after_get true (some h) = checking
after_get false proc = checking

-- What is left of a time slot when an instruction is done.
abbrev pub counted_down : ℕ → ℕ → ℕ
counted_down time_slot t = ((if t == 0 then time_slot else t) + (2 ^ 32 - 1)) % 2 ^ 32

-- A step from `m` to `n`: of the CPU `c`, or of the loader. What uninitialised memory holds may be
-- different at each step.
pub data Step {F : Type 0} (w : World F) (m n : Machine) : Type 0 where
  looks :
      (c t : ℕ)
      → m.threads c ≡ record { loc = top; cpu = record { proc = none; time_left = t } }
      → n ≡ at_thread m c (getting true) none t
      → Step w m n
  finishes :
      (c h t : ℕ)
      → m.threads c ≡ record { loc = top; cpu = record { proc = some h; time_left = t } }
      → m.os.freed h ≡ false
      → ((m.os.procs h).pc == (m.os.procs h).code.size) ≡ true
      → n
        ≡ at_thread
            (with_os m (record m.os { freed = update m.os.freed h true }))
            c
            (getting false)
            none
            0
      → Step w m n
  expires :
      (c h t : ℕ)
      → m.threads c ≡ record { loc = top; cpu = record { proc = some h; time_left = t } }
      → m.os.freed h ≡ false
      → ((m.os.procs h).pc == (m.os.procs h).code.size) ≡ false
      → (t == 0) ≡ true
      → n ≡ at_thread (with_os m (set_sched m.os (listed h m.os.sched))) c putting (some h) t
      → Step w m n
  puts :
      (c h t : ℕ) (s : Sched ℕ)
      → m.threads c ≡ record { loc = putting; cpu = record { proc = some h; time_left = t } }
      → put_mlq_proc (prio_of m.os) h m.os.sched ≡ ok s
      → n ≡ at_thread (with_os m (set_sched m.os s)) c (getting false) none t
      → Step w m n
  goes_on :
      (c h t : ℕ)
      → m.threads c ≡ record { loc = top; cpu = record { proc = some h; time_left = t } }
      → m.os.freed h ≡ false
      → ((m.os.procs h).pc == (m.os.procs h).code.size) ≡ false
      → (t == 0) ≡ false
      → n ≡ at_thread m c checking (some h) t
      → Step w m n
  sees_none :
      (c t : ℕ) (first : Bool)
      → m.threads c ≡ record { loc = getting first; cpu = record { proc = none; time_left = t } }
      → queue_empty m.os.sched ≡ true
      → n ≡ at_thread m c (after_get first none) none t
      → Step w m n
  sees_some :
      (c t : ℕ) (first : Bool)
      → m.threads c ≡ record { loc = getting first; cpu = record { proc = none; time_left = t } }
      → queue_empty m.os.sched ≡ false
      → n ≡ at_thread m c (locking first) none t
      → Step w m n
  takes :
      (c t : ℕ) (first : Bool) (proc : Option ℕ) (s : Sched ℕ)
      → m.threads c ≡ record { loc = locking first; cpu = record { proc = none; time_left = t } }
      → get_locked (prio_of m.os) m.os.sched ≡ ok (proc, s)
      → n ≡ at_thread (with_os m (set_sched m.os s)) c (after_get first proc) proc t
      → Step w m n
  skips :
      (c t : ℕ)
      → m.threads c ≡ record { loc = checking; cpu = record { proc = none; time_left = t } }
      → n ≡ at_thread m c (if m.loaded_all then past_end else top) none t
      → Step w m n
  runs :
      (junk : Junk) (temp : List (Option ℕ)) (c h t : ℕ) (stat : Option ℕ) (os : Os)
      → m.threads c ≡ record { loc = checking; cpu = record { proc = some h; time_left = t } }
      → m.os.freed h ≡ false
      → length temp ≡ max_queue_size
      → Holds IsTame (fetch (m.os.procs h).code.text (m.os.procs h).pc)
      → run junk temp m.os h ≡ ok (stat, os)
      → n ≡ at_thread (with_os m os) c top (some h) (counted_down w.time_slot t)
      → Step w m n
  reads :
      (stale : ℕ → Inst) (opcode buf : List ℕ) (blank proc : Proc) (avail_pid : ℕ)
      → ltb m.ld.i w.args.num_processes ≡ true
      → m.ld.loaded ≡ false
      → load w.io stale opcode buf blank m.ld.avail_pid (get_or w.args.path m.ld.i [])
        ≡ done (proc, avail_pid)
      → n ≡ record m {
        os = set_proc m.os m.ld.i (record proc { prio = get_or w.args.prio m.ld.i 0 % 2 ^ 32 });
        ld = record m.ld { avail_pid = avail_pid; loaded = true };
      }
      → Step w m n
  lists :
      (junk_mm : Mm) (time : ℕ)
      → ltb m.ld.i w.args.num_processes ≡ true
      → m.ld.loaded ≡ true
      → m.adding ≡ false
      → ltb time (get_or w.args.start_time m.ld.i 0) ≡ false
      → n ≡ record m {
        os =
            set_sched
              (set_proc m.os m.ld.i (with_mm junk_mm (m.os.procs m.ld.i)))
              (listed m.ld.i m.os.sched);
        adding = true;
      }
      → Step w m n
  adds :
      (s : Sched ℕ)
      → ltb m.ld.i w.args.num_processes ≡ true
      → m.adding ≡ true
      → add_mlq_proc (prio_of m.os) m.ld.i m.os.sched ≡ ok s
      → n ≡ record m {
        os = set_sched m.os s;
        ld = record m.ld { i = m.ld.i + 1; loaded = false };
        adding = false;
      }
      → Step w m n
  ends : ltb m.ld.i w.args.num_processes ≡ false → n ≡ record m { loaded_all = true } → Step w m n

pub data Reach {F : Type 0} (w : World F) (start : Machine) : Machine → Type 0 where
  here : Reach w start start
  next : {m n : Machine} → Reach w start m → Step w m n → Reach w start n

-- The CPU that takes a step; `none` for the loader.
abbrev pub actor : {F : Type 0} {w : World F} {m n : Machine} → Step w m n → Option ℕ
actor (looks c t e f) = some c
actor (finishes c h t e live fin f) = some c
actor (expires c h t e live more over f) = some c
actor (puts c h t s e put f) = some c
actor (goes_on c h t e live more left f) = some c
actor (sees_none c t first e empty f) = some c
actor (sees_some c t first e some_wait f) = some c
actor (takes c t first proc s e gets f) = some c
actor (skips c t e f) = some c
actor (runs junk temp c h t stat os e live whole tame run_ok f) = some c
actor (reads stale opcode buf blank proc avail_pid more unread e f) = none
actor (lists junk_mm time more ready idle due f) = none
actor (adds s more busy e f) = none
actor (ends over f) = none

-- Steps of one thread alone.
pub data Alone {F : Type 0} (w : World F) (who : Option ℕ) (start : Machine)
    : Machine → Type 0 where
  begin : Alone w who start start
  step :
      {m n : Machine} → Alone w who start m → (s : Step w m n) → actor s ≡ who → Alone w who start n
