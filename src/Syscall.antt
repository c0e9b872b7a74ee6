-- ===== src/Syscall.antt =====
-- src/syscall.c, src/libstd.c, src/sys_listsyscall.c and src/sys_xxxhandler.c: the table of system calls
-- and their dispatch by number. The entries are those of src/syscalltbl.lst. A code is `none` for -1.
use osassignment_hk.Base.{
  ℕ, ◌==◌, if◌then◌else◌, List, [], ◌∷◌, Option, none, some, Ret, success, failure, Outcome, ok,
  ◌>>=◌,
}
use osassignment_hk.Libmem.{Junk}
use osassignment_hk.SysMem.{ScRegs, sys_memmap}
use osassignment_hk.Process.{Os, caller_of, put_caller}
use osassignment_hk.Killall.{sys_killall}

-- The functions that the table names.
pub data Handler : Type 0 where
  listsyscall memmap killall xxxhandler : Handler

-- `sys_call_table`, an entry with its number
abbrev pub sys_call_table : List (ℕ × Handler)
sys_call_table = (0, listsyscall) ∷ (17, memmap) ∷ (101, killall) ∷ (440, xxxhandler) ∷ []

abbrev pub code_of : Ret → Option ℕ
code_of success = some 0
code_of failure = none

unfoldable pub sys_ni_syscall : Os → Option ℕ × Os
sys_ni_syscall os = (some 0, os)

-- `__sys_listsyscall`: the entries that it prints, one on a line, and its code.
unfoldable pub sys_listsyscall : List (ℕ × Handler) × Option ℕ
sys_listsyscall = (sys_call_table, some 0)

unfoldable pub sys_xxxhandler : Os → Option ℕ × Os
sys_xxxhandler os = (some 0, os)

-- A handler on the process `h`: its code, the registers, and the state.
unfoldable pub handle :
    Junk → List (Option ℕ) → Handler → Os → ℕ → ScRegs → Outcome (Option ℕ × ScRegs × Os)
unfolding sys_listsyscall sys_memmap sys_killall sys_xxxhandler
handle junk temp listsyscall os h regs = ok (sys_listsyscall.1, regs, os)
handle junk temp memmap os h regs = do
  (rc, regs, caller) ← sys_memmap junk.value (caller_of os h) regs
  ok (code_of rc, regs, put_caller os h caller)
handle junk temp killall os h regs = do
  (count, os) ← sys_killall junk temp os h regs.a1
  ok (count, regs, os)
handle junk temp xxxhandler os h regs = ok ((sys_xxxhandler os).0, regs, (sys_xxxhandler os).1)

-- The `switch` of `syscall` over the entries that are left.
unfoldable pub switch :
    Junk
    → List (Option ℕ)
    → List (ℕ × Handler)
    → Os
    → ℕ
    → ℕ
    → ScRegs
    → Outcome (Option ℕ × ScRegs × Os)
unfolding handle sys_ni_syscall
switch junk temp [] os h nr regs = ok ((sys_ni_syscall os).0, regs, (sys_ni_syscall os).1)
switch junk temp ((k, sym) ∷ rest) os h nr regs =
    let later = switch junk temp rest os h nr regs in
    if nr == k then handle junk temp sym os h regs else later

unfoldable pub syscall :
    Junk → List (Option ℕ) → Os → ℕ → ℕ → ScRegs → Outcome (Option ℕ × ScRegs × Os)
unfolding switch
syscall junk temp os h nr regs = switch junk temp sys_call_table os h nr regs

unfoldable pub libsyscall :
    Junk → List (Option ℕ) → Os → ℕ → ℕ → ℕ → ℕ → ℕ → Outcome (Option ℕ × Os)
unfolding syscall
libsyscall junk temp os h syscall_idx a1 a2 a3 = do
  (rc, _, os) ← syscall junk temp os h syscall_idx (record { a1 = a1; a2 = a2; a3 = a3 })
  ok (rc, os)
