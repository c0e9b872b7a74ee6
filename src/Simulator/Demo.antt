-- ===== src/Simulator/Demo.antt =====
-- src/paging.c: a main of its own, which loads the process input/p0 twice, runs both in turn, and dumps
-- the older memory. What malloc and the arrays of `load` leave is given for each of the two loads. What
-- the runs print is not modelled.
use osassignment_hk.Base.{ℕ, zero, suc, List, [], ◌∷◌, ◌++◌, Option, Outcome, ok, fault, ◌>>=◌}
use osassignment_hk.Libmem.{Junk}
use osassignment_hk.Process.{Inst, Proc, Os, set_proc}
use osassignment_hk.Cpu.{run}
use osassignment_hk.Segment.{Mem, Line, dump}
use osassignment_hk.Stdio.{Exec, done, crash, exit_1, Stdio}
use osassignment_hk.Loader.{load}
use osassignment_hk.Simulator.Config.{input_dir}

-- The loop, with the rounds that are left. The PCB `ld` has the handle 0, and `proc` the handle 1.
unfoldable pub run_both : Junk → List (Option ℕ) → ℕ → Os → Outcome Os
unfolding run
run_both junk temp zero os = ok os
run_both junk temp (suc n) os = do
  (_, os) ← run junk temp os 1
  (_, os) ← run junk temp os 0
  run_both junk temp n os

-- "input/p0"
abbrev pub demo_path : List ℕ
demo_path = input_dir ++ (b'p' ∷ b'0' ∷ [])

module _ {F : Type 0} (io : Stdio F) where
  -- `main`: the state, and the lines of `dump`.
  unfoldable pub demo :
      (ℕ → ℕ → Inst)
      → (ℕ → List ℕ)
      → (ℕ → List ℕ)
      → (ℕ → Proc)
      → Junk
      → List (Option ℕ)
      → ℕ
      → Mem
      → Os
      → Exec (Os × List Line)
  unfolding load run_both dump
  demo stale opcode buf blank junk temp avail_pid mem os =
      elim (load io (stale 0) (opcode 0) (buf 0) (blank 0) avail_pid demo_path) [
        | crash ↦ crash
        | exit_1 ↦ exit_1
        | done (ld, next_pid) ↦
            elim (load io (stale 1) (opcode 1) (buf 1) (blank 1) next_pid demo_path) [
              | crash ↦ crash
              | exit_1 ↦ exit_1
              | done (proc, _) ↦
                  elim (run_both junk temp proc.code.size (set_proc (set_proc os 0 ld) 1 proc)) [
                    | fault ↦ crash
                    | ok after ↦ done (after, dump mem)
                  ]
            ]
      ]
