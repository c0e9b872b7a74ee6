-- ===== src/Cpu/Frame.antt =====
-- What an instruction of src/cpu.c leaves alone.
use osassignment_hk.Base.{
  ℕ, ◌+◌, ◌%◌, ◌^◌, ◌≡◌, ◌≢◌, refl, sym, false, ◌==◌, ==_iff, leb, update_self, update_other, List,
  [], ◌∷◌, Option, ok, Holds, Holds-any, All, if_false, >>=-step, ap, ◌∙◌, ◌<◌, Holds-ok, Holds->>=,
  Holds-if, arith,
}
use osassignment_hk.Base.Bytes.{to_byte}
use osassignment_hk.Mm.{Mm, Caller}
use osassignment_hk.Libmem.{Junk, liballoc, libfree}
use osassignment_hk.Paging.{libread, libwrite}
use osassignment_hk.SysMem.{ScRegs, sys_memmap}
use osassignment_hk.Syscall
use osassignment_hk.Syscall.{
  Handler, listsyscall, memmap, killall, xxxhandler, sys_call_table, sys_ni_syscall,
  sys_listsyscall, sys_xxxhandler, handle, switch, libsyscall,
}
use osassignment_hk.Process.{
  Opcode, calc, alloc, free, read, write, syscall, Inst, Proc, Os, set_proc, caller_of, put_caller,
}
use osassignment_hk.Cpu.{fetch, execute, advanced, run}

-- `after` is `os` but for the memory and the program counter of the process `h`, and for the devices.
pub record Frame (os : Os) (h pc : ℕ) (after : Os) : Type 0 where
  pub others : (k : ℕ) → h ≢ k → after.procs k ≡ os.procs k
  pub mm : Mm
  pub own : after.procs h ≡ record (os.procs h) { pc = pc; mm = mm }
  pub sched : after.sched ≡ os.sched
  pub freed : after.freed ≡ os.freed

module _ {A : Type 0} (os : Os) (h : ℕ) where
  abbrev pub Framed : A × Os → Type 0
  Framed r = Frame os h (os.procs h).pc r.1

put_caller-Frame :
    (os : Os) (h : ℕ) (caller : Caller) → Frame os h (os.procs h).pc (put_caller os h caller)
put_caller-Frame os h caller = record {
  others = λ k ne. update_other os.procs h (record (os.procs h) { mm = caller.mm }) k ne;
  mm = caller.mm;
  own = update_self os.procs h (record (os.procs h) { mm = caller.mm });
  sched = refl;
  freed = refl;
}

pub same-Frame : (os : Os) (h : ℕ) → Frame os h (os.procs h).pc os
same-Frame os h = record {
  others = λ k ne. refl;
  mm = (os.procs h).mm;
  own = refl;
  sched = refl;
  freed = refl;
}

abbrev pub FramedCall : Os → ℕ → Option ℕ × ScRegs × Os → Type 0
FramedCall os h r = Frame os h (os.procs h).pc r.2

-- Every handler but that of `killall`.
pub handle-Frame :
    (junk : Junk) (temp : List (Option ℕ)) (sym : Handler) (os : Os) (h : ℕ) (regs : ScRegs)
    → sym ≢ killall
    → Holds (FramedCall os h) (handle junk temp sym os h regs)
unfolding handle sys_xxxhandler
handle-Frame junk temp listsyscall os h regs ne = same-Frame os h
handle-Frame junk temp memmap os h regs ne =
    Holds-any (FramedCall os h) (sys_memmap junk.value (caller_of os h) regs) _
      (λ (rc, regs, caller). put_caller-Frame os h caller)
handle-Frame junk temp killall os h regs ne = absurd (ne refl)
handle-Frame junk temp xxxhandler os h regs ne = same-Frame os h

-- An entry that is not chosen, or that is tame.
abbrev Passed : ℕ → ℕ × Handler → Type 0
Passed nr e = nr ≡ e.0 → e.1 ≢ killall

switch-Frame :
    (junk : Junk) (temp : List (Option ℕ)) (table : List (ℕ × Handler)) (os : Os) (h nr : ℕ)
    (regs : ScRegs)
    → All (Passed nr) table
    → Holds (FramedCall os h) (switch junk temp table os h nr regs)
unfolding switch sys_ni_syscall
switch-Frame junk temp [] os h nr regs p = same-Frame os h
switch-Frame junk temp ((k, sym) ∷ rest) os h nr regs p =
    Holds-if (FramedCall os h) (nr == k) _ _
      (λ e. handle-Frame junk temp sym os h regs (p.0 ((==_iff nr k).0 e)))
      (λ e. switch-Frame junk temp rest os h nr regs p.1)

table-Passed : (nr : ℕ) → nr ≢ 101 → All (Passed nr) sys_call_table
table-Passed nr ne = (λ e f. cc, (λ e f. cc, (λ e f. ne e, (λ e f. cc, tt))))

module _ (junk : Junk) (temp : List (Option ℕ)) (os : Os) (h : ℕ) where
  libsyscall-Frame :
      (nr a1 a2 a3 : ℕ) → nr ≢ 101 → Holds (Framed os h) (libsyscall junk temp os h nr a1 a2 a3)
  unfolding libsyscall Syscall.syscall
  libsyscall-Frame nr a1 a2 a3 ne =
      Holds->>= (FramedCall os h) (Framed os h)
        (switch junk temp sys_call_table os h nr (record { a1 = a1; a2 = a2; a3 = a3 })) _
        (switch-Frame junk temp sys_call_table os h nr (record { a1 = a1; a2 = a2; a3 = a3 })
          (table-Passed nr ne))
        (λ (rc, regs, after) f. f)

  pub execute-Frame :
      (ins : Inst) (op : Opcode)
      → (op ≡ syscall → ins.arg_0 ≢ 101)
      → Holds (Framed os h) (execute junk temp os h ins op)
  unfolding execute
  execute-Frame ins calc tame = same-Frame os h
  execute-Frame ins alloc tame =
      Holds-any (Framed os h) (liballoc junk (caller_of os h) ins.arg_0 ins.arg_1) _
        (λ (rc, caller). put_caller-Frame os h caller)
  execute-Frame ins free tame =
      Holds-any (Framed os h) (libfree (caller_of os h) ins.arg_0) _
        (λ (rc, caller). put_caller-Frame os h caller)
  execute-Frame ins read tame =
      Holds-any (Framed os h) (libread junk (caller_of os h) ins.arg_0 ins.arg_1) _
        (λ (rc, value, caller). put_caller-Frame os h caller)
  execute-Frame ins write tame =
      Holds-any (Framed os h)
        (libwrite junk (caller_of os h) (to_byte ins.arg_0) ins.arg_1 ins.arg_2) _
        (λ (rc, caller). put_caller-Frame os h caller)
  execute-Frame ins syscall tame =
      libsyscall-Frame ins.arg_0 ins.arg_1 ins.arg_2 ins.arg_3 (tame refl)

abbrev the_mm : Proc → Mm → Proc
the_mm p m = record p { mm = m }

-- Setting the program counter first.
pub advanced-Frame :
    (os : Os) (h : ℕ) (after : Os)
    → Frame
        (set_proc os h (advanced (os.procs h)))
        h
        ((set_proc os h (advanced (os.procs h))).procs h).pc
        after
    → Frame os h (((os.procs h).pc + 1) % 2 ^ 32) after
advanced-Frame os h after f =
    let here : (set_proc os h (advanced (os.procs h))).procs h ≡ advanced (os.procs h) =
      update_self os.procs h (advanced (os.procs h)) in
    record {
      others = λ k ne. f.others k ne ∙ update_other os.procs h (advanced (os.procs h)) k ne;
      mm = f.mm;
      own = f.own ∙ ap (λ (p : Proc). the_mm p f.mm) here;
      sched = f.sched;
      freed = f.freed;
    }

-- If the program counter of a process is inside its code, the instruction is no call of killall,
-- and `run` returns, then the counter has gone on by one, and all that changed besides are the
-- memory of the process and the two devices.
pub run-Frame :
    (junk : Junk) (temp : List (Option ℕ)) (os : Os) (h : ℕ) (ins : Inst) (stat : Option ℕ)
    (after : Os)
    → (os.procs h).pc < (os.procs h).code.size
    → fetch (os.procs h).code.text (os.procs h).pc ≡ ok ins
    → (ins.opcode ≡ syscall → ins.arg_0 ≢ 101)
    → run junk temp os h ≡ ok (stat, after)
    → Frame os h (((os.procs h).pc + 1) % 2 ^ 32) after
unfolding run
run-Frame junk temp os h ins stat after inside fetched tame e =
    let open_here : leb (os.procs h).code.size (os.procs h).pc ≡ false = ground arith in
    let executes : execute junk temp (set_proc os h (advanced (os.procs h))) h ins ins.opcode
        ≡ ok (stat, after) =
      sym (if_false _ _ open_here ∙ >>=-step _ fetched) ∙ e in
    advanced-Frame os h after (
      Holds-ok (Framed (set_proc os h (advanced (os.procs h))) h) _ (stat, after)
        (execute-Frame junk temp (set_proc os h (advanced (os.procs h))) h ins ins.opcode tame)
        executes)
