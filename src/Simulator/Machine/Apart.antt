-- ===== src/Simulator/Machine/Apart.antt =====
-- The steps of the threads of src/os.c, and what a step needs to keep: where each process is.
use osassignment_hk.Base.{
  ℕ, ◌≤◌, ◌≡◌, refl, sym, ap, subst, fun_ext, true, false, if◌then◌else◌, update, update_same,
  update-all₂, Option, none, some, arith, ltb→lt,
}
use osassignment_hk.Queue.{max_queue_size}
use osassignment_hk.Process.{Os}
use osassignment_hk.Simulator.{with_mm}
use osassignment_hk.Simulator.Machine.{
  Loc, Thread, World, Machine, at_thread, with_os, after_get, counted_down, top, getting, locking,
  checking, past_end, Step, looks, finishes, expires, goes_on, sees_none, sees_some, takes, skips,
  runs, putting, puts, reads, lists, adds, ends, Reach, here, next,
}
use osassignment_hk.Simulator.Machine.Owned.{
  Owned, Owned-drop, Owned-list, Owned-put, Owned-take, Owned-run, Owned-set_proc, Owned-add,
}

-- The process that a CPU has.
abbrev pub held : Machine → ℕ → Option ℕ
held m c = (m.threads c).cpu.proc

-- The processes of a machine are where they can be.
abbrev pub IsApart : Type 0 → Machine → Type 0
IsApart C m = Owned C (held m) m.ld.i m.os

held-at_thread :
    (m : Machine) (c : ℕ) (loc : Loc) (proc : Option ℕ) (t : ℕ)
    → held (at_thread m c loc proc t) ≡ update (held m) c proc
held-at_thread m c loc proc t = fun_ext (
    update-all₂ (λ d (th : Thread) (o : Option ℕ). th.cpu.proc ≡ o) m.threads (held m) c _ proc refl
      (λ d ne. refl))

module _ {F : Type 0} (w : World F) (C : Type 0)
    (few : C → w.args.num_processes ≤ max_queue_size) where
  -- What a CPU without a process has after it got `proc`.
  got :
      (m : Machine) (c t : ℕ) (loc loc' : Loc) (o proc : Option ℕ) (os : Os)
      → m.threads c ≡ record { loc = loc; cpu = record { proc = o; time_left = t } }
      → (held m c ≡ o → Owned C (update (held m) c proc) m.ld.i os)
      → (t' : ℕ) → IsApart C (at_thread (with_os m os) c loc' proc t')
  got m c t loc loc' o proc os e owned t' =
      subst (λ g. Owned C g m.ld.i os) (sym (held-at_thread (with_os m os) c loc' proc t'))
        (owned (ap (λ (th : Thread). th.cpu.proc) e))

  moved :
      (m : Machine) (c t : ℕ) (loc loc' : Loc) (o : Option ℕ) (os : Os)
      → m.threads c ≡ record { loc = loc; cpu = record { proc = o; time_left = t } }
      → Owned C (held m) m.ld.i os
      → (t' : ℕ) → IsApart C (at_thread (with_os m os) c loc' o t')
  moved m c t loc loc' o os e owned =
      got m c t loc loc' o o os e
        (λ has. subst (λ g. Owned C g m.ld.i os) (sym (update_same (held m) c o has)) owned)

  pub Step-IsApart : {m n : Machine} → IsApart C m → Step w m n → IsApart C n
  Step-IsApart {m} p (looks c t e f) =
      subst (IsApart C) (sym f) (moved m c t top (getting true) none m.os e p t)
  Step-IsApart {m} p (finishes c h t e live fin f) =
      subst (IsApart C) (sym f)
        (got m c t top (getting false) (some h) none _ e (λ has. Owned-drop p c h has) 0)
  Step-IsApart {m} p (expires c h t e live more over f) =
      subst (IsApart C) (sym f) (moved m c t top putting (some h) _ e (Owned-list p h) t)
  Step-IsApart {m} p (puts c h t s e put f) =
      subst (IsApart C) (sym f)
        (got m c t putting (getting false) (some h) none _ e (λ has. Owned-put p c h s has put) t)
  Step-IsApart {m} p (goes_on c h t e live more left f) =
      subst (IsApart C) (sym f) (moved m c t top checking (some h) m.os e p t)
  Step-IsApart {m} p (sees_none c t first e empty f) =
      subst (IsApart C) (sym f) (moved m c t (getting first) (after_get first none) none m.os e p t)
  Step-IsApart {m} p (sees_some c t first e some_wait f) =
      subst (IsApart C) (sym f) (moved m c t (getting first) (locking first) none m.os e p t)
  Step-IsApart {m} p (takes c t first proc s e gets f) = subst (IsApart C) (sym f) (
      got m c t (locking first) (after_get first proc) none proc _ e
        (λ has. Owned-take p c proc s has gets) t)
  Step-IsApart {m} p (skips c t e f) =
      subst (IsApart C) (sym f)
        (moved m c t checking (if m.loaded_all then past_end else top) none m.os e p t)
  Step-IsApart {m} p (runs junk temp c h t stat os e live whole tame run_ok f) =
      subst (IsApart C) (sym f) (
        moved m c t checking top (some h) os e (Owned-run p junk temp h stat os whole tame run_ok)
          (counted_down w.time_slot t))
  Step-IsApart {m} p (reads stale opcode buf blank proc avail_pid more unread e f) =
      subst (IsApart C) (sym f) (Owned-set_proc p _)
  Step-IsApart {m} p (lists junk_mm time more ready idle due f) =
      subst (IsApart C) (sym f)
        (Owned-list (Owned-set_proc p (with_mm junk_mm (m.os.procs m.ld.i))) m.ld.i)
  Step-IsApart {m} p (adds s more busy e f) =
      subst (IsApart C) (sym f)
        (Owned-add p s e (λ cond. omega (arith, few cond, ltb→lt m.ld.i w.args.num_processes more)))
  Step-IsApart p (ends over f) = subst (IsApart C) (sym f) p

  pub Reach-IsApart : {start m : Machine} → IsApart C start → Reach w start m → IsApart C m
  Reach-IsApart p here = p
  Reach-IsApart p (next r s) = Step-IsApart (Reach-IsApart p r) s
