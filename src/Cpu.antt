-- ===== src/Cpu.antt =====
-- src/cpu.c: the instructions of a process, and `run`, which executes one. `run` is built with MM_PAGING;
-- the functions on the older memory, which it then does not call, are in Cpu/Legacy. A code is `none`
-- for -1.
pub mod Legacy
pub mod Frame
pub mod Stays
pub mod Tame
mod Tests
use osassignment_hk.Base.{
  ℕ, zero, suc, ◌+◌, ◌^◌, ◌%◌, leb, if◌then◌else◌, List, [], ◌∷◌, Option, none, some, Ret, success,
  failure, Outcome, ok, fault, ◌>>=◌,
}
use osassignment_hk.Base.Bytes.{to_byte}
use osassignment_hk.Libmem.{Junk, liballoc, libfree}
use osassignment_hk.Paging.{libread, libwrite}
use osassignment_hk.Syscall.{libsyscall, code_of}
use osassignment_hk.Process.{
  Opcode, calc, alloc, free, read, write, syscall, Inst, Proc, Os, set_proc, caller_of, put_caller,
}

-- `calc` does nothing and returns 0.
unfoldable pub calc_stat : ℕ
calc_stat = 0

-- `proc->code->text[pc]`
unfoldable pub fetch : List Inst → ℕ → Outcome Inst
fetch [] pc = fault
fetch (ins ∷ text) zero = ok ins
fetch (ins ∷ text) (suc pc) = fetch text pc

-- The `switch` of `run`. What READ reads goes into the copy of the instruction.
unfoldable pub execute : Junk → List (Option ℕ) → Os → ℕ → Inst → Opcode → Outcome (Option ℕ × Os)
unfolding calc_stat liballoc libfree libread libwrite libsyscall
execute junk temp os h ins calc = ok (some calc_stat, os)
execute junk temp os h ins alloc = do
  (rc, caller) ← liballoc junk (caller_of os h) ins.arg_0 ins.arg_1
  ok (code_of rc, put_caller os h caller)
execute junk temp os h ins free = do
  (rc, caller) ← libfree (caller_of os h) ins.arg_0
  ok (code_of rc, put_caller os h caller)
execute junk temp os h ins read = do
  (rc, _, caller) ← libread junk (caller_of os h) ins.arg_0 ins.arg_1
  ok (code_of rc, put_caller os h caller)
execute junk temp os h ins write = do
  (rc, caller) ← libwrite junk (caller_of os h) (to_byte ins.arg_0) ins.arg_1 ins.arg_2
  ok (code_of rc, put_caller os h caller)
execute junk temp os h ins syscall =
    libsyscall junk temp os h ins.arg_0 ins.arg_1 ins.arg_2 ins.arg_3

-- The process whose next instruction was fetched.
abbrev pub advanced : Proc → Proc
advanced proc = record proc { pc = (proc.pc + 1) % 2 ^ 32 }

unfoldable pub run : Junk → List (Option ℕ) → Os → ℕ → Outcome (Option ℕ × Os)
unfolding fetch execute
run junk temp os h =
    let proc = os.procs h in
    if leb proc.code.size proc.pc then ok (some 1, os) else do
      ins ← fetch proc.code.text proc.pc
      execute junk temp (set_proc os h (advanced proc)) h ins ins.opcode
