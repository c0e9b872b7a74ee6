-- ===== src/Cpu/Tests.antt =====
-- Instructions of a process at a concrete state.
use osassignment_hk.Base.{
  ℕ, ◌+◌, ◌%◌, ◌^◌, ◌≡◌, refl, update, [], Option, some, Outcome, ok, fault, arith,
}
use osassignment_hk.Pte.{pgn, max_pgn, page_present, pte_set_fpn, pte_fpn, offst}
use osassignment_hk.Paging.{libread}
use osassignment_hk.Paging.Example.{junk}
use osassignment_hk.Process.{Os}
use osassignment_hk.Process.Example.{read_byte, two_steps, two_processes}
use osassignment_hk.Cpu.{fetch, execute, run}
use osassignment_hk.Cpu.Frame.{Frame, run-Frame}

-- The process 3 is before its READ.
abbrev reading : Os
reading = record two_processes {
  procs = update two_processes.procs 3 (record two_steps { pc = 1 });
}

abbrev state_of : Outcome (Option ℕ × Os) → Os
state_of (ok (stat, os)) = os
state_of fault = two_processes

abbrev read_os : Os
read_os = state_of (run junk [] reading 3)

read_returns : run junk [] reading 3 ≡ ok (some 0, read_os)
unfolding run fetch execute libread pgn max_pgn page_present pte_set_fpn pte_fpn offst
read_returns = refl

run-Frame_example : Frame reading 3 ((1 + 1) % 2 ^ 32) read_os
unfolding fetch
run-Frame_example =
    run-Frame junk [] reading 3 read_byte (some 0) read_os (omega arith) refl (λ e. cc) read_returns
