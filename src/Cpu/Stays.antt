-- ===== src/Cpu/Stays.antt =====
-- What an instruction of src/cpu.c, a call of killall too, leaves of the scheduler.
use osassignment_hk.Base.{
  ℕ, ◌≡◌, ◌≢◌, refl, sym, ap, subst, fun_ext, ◌==◌, leb, ℕ_discrete, update-all, List, [], ◌∷◌,
  length, Option, Outcome, Holds, Holds-map, Holds-if, Holds->>=, Holds-any,
}
use osassignment_hk.Queue.{max_queue_size}
use osassignment_hk.Sched.Valid.{View, IsValid}
use osassignment_hk.Libmem.{Junk}
use osassignment_hk.SysMem.{ScRegs}
use osassignment_hk.Killall.{sys_killall}
use osassignment_hk.Killall.Stays.{Stays, SameSched-Stays, Stays-trans, sys_killall-Stays}
use osassignment_hk.Killall.Thins.{SameSched, SameSched-refl}
use osassignment_hk.Syscall
use osassignment_hk.Syscall.{
  Handler, listsyscall, memmap, killall, xxxhandler, sys_call_table, sys_ni_syscall, handle, switch,
  libsyscall,
}
use osassignment_hk.Process.{
  Opcode, calc, alloc, free, read, write, syscall, Inst, Os, set_proc, prio_of,
}
use osassignment_hk.Cpu.{fetch, execute, advanced, run}
use osassignment_hk.Cpu.Frame.{Frame, FramedCall, Framed, handle-Frame, execute-Frame}

Frame-SameSched : (os : Os) (h pc : ℕ) (after : Os) → Frame os h pc after → SameSched os after
Frame-SameSched os h pc after f = record {
  prio = fun_ext (λ k. elim (ℕ_discrete h k) [
    | yes e ↦ subst (λ j. prio_of after j ≡ prio_of os j) e (ap (λ p. p.prio) f.own)
    | no ne ↦ ap (λ p. p.prio) (f.others k ne)
  ]);
  freed = f.freed;
  sched = f.sched;
}

module _ (junk : Junk) (temp : List (Option ℕ)) (whole : length temp ≡ max_queue_size) where
  module _ (os : Os) (h : ℕ) (v : View ℕ) (valid : IsValid (prio_of os) os.sched v) where
    framed :
        (m : Outcome (Option ℕ × ScRegs × Os))
        → Holds (FramedCall os h) m
        → Holds (λ r. Stays os v r.2) m
    framed m =
        Holds-map (FramedCall os h) (λ r. Stays os v r.2) m
          (λ r f. SameSched-Stays os r.2 v valid (Frame-SameSched os h (os.procs h).pc r.2 f))

    handle-Stays :
        (sym : Handler) (regs : ScRegs)
        → Holds (λ r. Stays os v r.2) (handle junk temp sym os h regs)
    handle-Stays listsyscall regs =
        framed (handle junk temp listsyscall os h regs)
          (handle-Frame junk temp listsyscall os h regs (λ e. cc))
    handle-Stays memmap regs =
        framed (handle junk temp memmap os h regs)
          (handle-Frame junk temp memmap os h regs (λ e. cc))
    handle-Stays killall regs =
        unfold handle in
        Holds->>= (λ r. Stays os v r.1) (λ r. Stays os v r.2) (sys_killall junk temp os h regs.a1) _
          (sys_killall-Stays junk temp os h regs.a1 v whole valid) (λ r s. s)
    handle-Stays xxxhandler regs =
        framed (handle junk temp xxxhandler os h regs)
          (handle-Frame junk temp xxxhandler os h regs (λ e. cc))

    switch-Stays :
        (table : List (ℕ × Handler)) (nr : ℕ) (regs : ScRegs)
        → Holds (λ r. Stays os v r.2) (switch junk temp table os h nr regs)
    unfolding switch sys_ni_syscall
    switch-Stays [] nr regs = SameSched-Stays os os v valid (SameSched-refl os)
    switch-Stays ((k, sym) ∷ rest) nr regs =
        Holds-if (λ r. Stays os v r.2) (nr == k) _ _ (λ e. handle-Stays sym regs)
          (λ e. switch-Stays rest nr regs)

    libsyscall-Stays :
        (nr a1 a2 a3 : ℕ) → Holds (λ r. Stays os v r.1) (libsyscall junk temp os h nr a1 a2 a3)
    unfolding libsyscall Syscall.syscall
    libsyscall-Stays nr a1 a2 a3 =
        Holds->>= (λ r. Stays os v r.2) (λ r. Stays os v r.1)
          (switch junk temp sys_call_table os h nr (record { a1 = a1; a2 = a2; a3 = a3 })) _
          (switch-Stays sys_call_table nr (record { a1 = a1; a2 = a2; a3 = a3 })) (λ r s. s)

    other-Stays :
        (ins : Inst) (op : Opcode)
        → op ≢ syscall
        → Holds (λ r. Stays os v r.1) (execute junk temp os h ins op)
    other-Stays ins op ne =
        Holds-map (Framed os h) (λ r. Stays os v r.1) (execute junk temp os h ins op)
          (λ r f. SameSched-Stays os r.1 v valid (Frame-SameSched os h (os.procs h).pc r.1 f))
          (execute-Frame junk temp os h ins op (λ e. absurd (ne e)))

    execute-Stays :
        (ins : Inst) (op : Opcode) → Holds (λ r. Stays os v r.1) (execute junk temp os h ins op)
    execute-Stays ins calc = other-Stays ins calc (λ e. cc)
    execute-Stays ins alloc = other-Stays ins alloc (λ e. cc)
    execute-Stays ins free = other-Stays ins free (λ e. cc)
    execute-Stays ins read = other-Stays ins read (λ e. cc)
    execute-Stays ins write = other-Stays ins write (λ e. cc)
    execute-Stays ins syscall =
        unfold execute in libsyscall-Stays ins.arg_0 ins.arg_1 ins.arg_2 ins.arg_3

  -- Every instruction of a process, in a valid state of the scheduler.
  pub run-Stays :
      (os : Os) (h : ℕ) (v : View ℕ)
      → IsValid (prio_of os) os.sched v
      → Holds (λ r. Stays os v r.1) (run junk temp os h)
  unfolding run
  run-Stays os h v valid =
      let start = set_proc os h (advanced (os.procs h)) in
      let begun : SameSched os start = record {
        prio = fun_ext (update-all (λ k p. p.prio ≡ prio_of os k) os.procs h _ refl (λ k ne. refl));
        freed = refl;
        sched = refl;
      } in
      let s = SameSched-Stays os start v valid begun in
      Holds-if (λ r. Stays os v r.1) (leb (os.procs h).code.size (os.procs h).pc) _ _
        (λ e. SameSched-Stays os os v valid (SameSched-refl os))
        (λ e.
          Holds-any (λ r. Stays os v r.1) (fetch (os.procs h).code.text (os.procs h).pc) _
            (λ ins.
              Holds-map (λ r. Stays start s.0 r.1) (λ r. Stays os v r.1)
                (execute junk temp start h ins ins.opcode)
                (λ r later. Stays-trans os start r.1 v s later)
                (execute-Stays start h s.0 s.1.valid ins ins.opcode)))
