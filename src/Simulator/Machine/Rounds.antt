-- ===== src/Simulator/Machine/Rounds.antt =====
-- A round of `cpu_routine` of src/os.c that no other thread interrupts, and its steps.
use osassignment_hk.Base.{
  length, List, ℕ, ◌≡◌, refl, sym, ap, subst, Bool, true, false, ◌==◌, if◌then◌else◌, update,
  update_self, update_same, update_twice, Option, none, some, ok, ◌>>=◌, Holds, Holds-map, Holds-if,
  Holds->>=, Holds-ok, Holds_self,
}
use osassignment_hk.Queue.{max_queue_size}
use osassignment_hk.Libmem.{Junk}
use osassignment_hk.Sched.{Sched, queue_empty, get_locked, get_mlq_proc, get_proc, put_proc}
use osassignment_hk.Process.{Os, set_sched, prio_of}
use osassignment_hk.Cpu.{run}
use osassignment_hk.Cpu.Tame.{AllTame, fetch-IsTame}
use osassignment_hk.Simulator.{Did, slot, stopped, Cpu, take_proc, recheck, cpu_round}
use osassignment_hk.Simulator.Machine.{
  Loc, World, Machine, at_thread, with_os, after_get, counted_down, top, getting, locking, checking,
  past_end, Step, Alone, begin, step, actor, putting, puts, listed, looks, finishes, expires,
  goes_on, sees_none, sees_some, takes, skips, runs,
}

-- Where a round ends.
abbrev pub place_of : Did → Loc
place_of slot = top
place_of stopped = past_end

-- The machine in which only the CPU `c` and the shared state differ from `m`.
abbrev pub with_cpu : Machine → ℕ → Os → Loc → Cpu → Machine
with_cpu m c os loc cpu = record m {
  os = os;
  threads = update m.threads c (record { loc = loc; cpu = cpu });
}

ap_if :
    (done_all : Bool)
    → (if done_all then past_end else top) ≡ place_of (if done_all then stopped else slot)
ap_if true = refl
ap_if false = refl

module _ {F : Type 0} (w : World F) (junk : Junk) (temp : List (Option ℕ))
    (whole : length temp ≡ max_queue_size) (start m : Machine) (c : ℕ) where
  -- Steps lead to the machine with the result of a round.
  abbrev Leads : Did × Cpu × Os → Type 0
  Leads r = Alone w (some c) start (with_cpu m c r.2 (place_of r.0) r.1)

  -- A step of the CPU `c`.
  advance :
      (os os' : Os) (loc loc' : Loc) (cpu : Cpu) (proc : Option ℕ) (t : ℕ)
      → Alone w (some c) start (with_cpu m c os loc cpu)
      → ((n : Machine)
          → n ≡ at_thread (with_os (with_cpu m c os loc cpu) os') c loc' proc t
          → (s : Step w (with_cpu m c os loc cpu) n) × (actor s ≡ some c))
      → Alone w (some c) start (with_cpu m c os' loc' (record { proc = proc; time_left = t }))
  advance os os' loc loc' cpu proc t reach moves =
      let (s, mine) = moves _ (
        ap (λ threads. record m { os = os'; threads = threads })
          (sym (
            update_twice m.threads c (record { loc = loc; cpu = cpu })
              (record { loc = loc'; cpu = record { proc = proc; time_left = t } })))) in
      step reach s mine

  -- Where the CPU `c` is in such a machine.
  at_place :
      (os : Os) (loc : Loc) (cpu : Cpu)
      → (with_cpu m c os loc cpu).threads c ≡ record { loc = loc; cpu = cpu }
  at_place os loc cpu = update_self m.threads c (record { loc = loc; cpu = cpu })

  recheck-Leads :
      (t : ℕ) (proc : Option ℕ) (os : Os)
      → AllTame os
      → Alone w (some c) start (with_cpu m c os checking (record { proc = proc; time_left = t }))
      → Holds Leads (recheck junk temp w.time_slot m.loaded_all t proc os)
  unfolding recheck
  recheck-Leads t none os tame reach =
      subst
        (λ loc.
          Alone w (some c) start (with_cpu m c os loc (record { proc = none; time_left = t })))
        (ap_if m.loaded_all)
        (advance os os checking (if m.loaded_all then past_end else top) _ none t reach
          (λ n e. (skips c t (at_place os checking _) e, refl)))
  recheck-Leads t (some h) os tame reach =
      Holds-if Leads (os.freed h) _ _ (λ e. tt)
        (λ live.
          Holds->>= (λ r. run junk temp os h ≡ ok r) Leads (run junk temp os h) _
            (Holds_self (run junk temp os h))
            (λ (stat, after) e.
              advance os after checking top _ (some h) (counted_down w.time_slot t) reach (λ n f. (
                runs junk temp c h t stat after (at_place os checking _) live whole
                    (fetch-IsTame (os.procs h).code.text (os.procs h).pc (tame h)) e f,
                refl,
              ))))

  -- `get_proc` from between its two locks on.
  take_proc-Leads :
      (first : Bool) (t : ℕ) (os : Os)
      → AllTame os
      → Alone w
          (some c)
          start
          (with_cpu m c os (getting first) (record { proc = none; time_left = t }))
      → Holds
          (λ r.
            Alone w
              (some c)
              start
              (with_cpu m c r.1 (after_get first r.0) (record { proc = r.0; time_left = t }))
            × AllTame r.1)
          (take_proc os)
  unfolding take_proc get_proc get_mlq_proc
  take_proc-Leads first t os tame reach =
      Holds->>=
        (λ (r : Option ℕ × Sched ℕ). Alone w (some c) start (
          with_cpu m c (set_sched os r.1) (after_get first r.0)
            (record { proc = r.0; time_left = t })))
        _ (get_mlq_proc (prio_of os) os.sched) _
        (Holds-if _ (queue_empty os.sched) (ok (none, os.sched)) (get_locked (prio_of os) os.sched)
          (λ e.
            advance os os (getting first) (after_get first none) _ none t reach
              (λ n f. (sees_none c t first (at_place os (getting first) _) e f, refl)))
          (λ e.
            Holds-map _ _ (get_locked (prio_of os) os.sched)
              (λ (proc, s) gets.
                advance os (set_sched os s) (locking first) (after_get first proc) _ proc t
                  (advance os os (getting first) (locking first) _ none t reach
                    (λ n f. (sees_some c t first (at_place os (getting first) _) e f, refl)))
                  (λ n f. (takes c t first proc s (at_place os (locking first) _) gets f, refl)))
              (Holds_self (get_locked (prio_of os) os.sched))))
        (λ r reach. (reach, tame))

  -- What `cpu_routine` does with what it got in its first branch.
  given :
      (t : ℕ) (proc : Option ℕ) (os : Os)
      → AllTame os
      → Alone w
          (some c)
          start
          (with_cpu m c os (after_get true proc) (record { proc = proc; time_left = t }))
      → Holds Leads (elim proc [
        | none ↦ ok (slot, record { proc = none; time_left = t }, os)
        | some h ↦ recheck junk temp w.time_slot m.loaded_all t (some h) os
      ])
  given t none os tame reach = reach
  given t (some h) os tame reach = recheck-Leads t (some h) os tame reach

  -- A CPU at the top of its loop, by what it has.
  idle-Leads :
      (t : ℕ) (os : Os)
      → AllTame os
      → Alone w (some c) start (with_cpu m c os top (record { proc = none; time_left = t }))
      → Holds Leads
          (cpu_round junk temp w.time_slot m.loaded_all (record { proc = none; time_left = t }) os)
  unfolding cpu_round
  idle-Leads t os tame reach =
      Holds->>=
        (λ (r : Option ℕ × Os).
          Alone w (some c) start
            (with_cpu m c r.1 (after_get true r.0) (record { proc = r.0; time_left = t }))
          × AllTame r.1)
        Leads (take_proc os) _
        (take_proc-Leads true t os tame (
          advance os os top (getting true) _ none t reach
            (λ n e. (looks c t (at_place os top _) e, refl))))
        (λ (proc, os) (reach, tame). given t proc os tame reach)

  -- A CPU that gave up its process.
  change-Leads :
      (t : ℕ) (os : Os)
      → AllTame os
      → Alone w
          (some c)
          start
          (with_cpu m c os (getting false) (record { proc = none; time_left = t }))
      → Holds Leads
          (take_proc os >>= λ (proc, os). recheck junk temp w.time_slot m.loaded_all t proc os)
  change-Leads t os tame reach =
      Holds->>=
        (λ (r : Option ℕ × Os).
          Alone w (some c) start (with_cpu m c r.1 checking (record { proc = r.0; time_left = t }))
          × AllTame r.1)
        Leads (take_proc os) _ (take_proc-Leads false t os tame reach)
        (λ (proc, os) (reach, tame). recheck-Leads t proc os tame reach)

  busy-Leads :
      (t h : ℕ) (os : Os)
      → AllTame os
      → Alone w (some c) start (with_cpu m c os top (record { proc = some h; time_left = t }))
      → Holds Leads (
          cpu_round junk temp w.time_slot m.loaded_all (record { proc = some h; time_left = t }) os)
  unfolding cpu_round put_proc
  busy-Leads t h os tame reach =
      Holds-if Leads (os.freed h) _ _ (λ e. tt)
        (λ live.
          Holds-if Leads ((os.procs h).pc == (os.procs h).code.size) _ _
            (λ fin.
              change-Leads 0 (record os { freed = update os.freed h true }) tame
                (advance os (record os { freed = update os.freed h true }) top (getting false) _
                  none 0 reach (λ n e. (finishes c h t (at_place os top _) live fin e, refl))))
            (λ more.
              Holds-if Leads (t == 0) _ _
                (λ over.
                  Holds->>= (λ s. put_proc (prio_of os) h os.sched ≡ ok s) Leads
                    (put_proc (prio_of os) h os.sched) _ (Holds_self _)
                    (λ s put. change-Leads t (set_sched os s) tame (
                      let first = set_sched os (listed h os.sched) in
                      advance first (set_sched os s) putting (getting false) _ none t
                        (advance os first top putting _ (some h) t reach
                          (λ n e. (expires c h t (at_place os top _) live more over e, refl)))
                        (λ n e. (puts c h t s (at_place first putting _) put e, refl)))))
                (λ left. recheck-Leads t (some h) os tame (
                  advance os os top checking _ (some h) t reach
                    (λ n e. (goes_on c h t (at_place os top _) live more left e, refl))))))

  by_process :
      (proc : Option ℕ) (t : ℕ) (os : Os)
      → AllTame os
      → Alone w (some c) start (with_cpu m c os top (record { proc = proc; time_left = t }))
      → Holds Leads
          (cpu_round junk temp w.time_slot m.loaded_all (record { proc = proc; time_left = t }) os)
  by_process none t os tame reach = idle-Leads t os tame reach
  by_process (some h) t os tame reach = busy-Leads t h os tame reach

  round-Leads :
      (cpu : Cpu) (os : Os)
      → AllTame os
      → Alone w (some c) start (with_cpu m c os top cpu)
      → Holds Leads (cpu_round junk temp w.time_slot m.loaded_all cpu os)
  round-Leads cpu os tame reach = by_process cpu.proc cpu.time_left os tame reach

-- If no code calls killall, whose local queue has ten slots, a CPU is at the top of its loop, and a
-- round of it returns, then steps of this CPU alone lead from there to the machine with what the
-- round leaves.
pub cpu_round-Alone :
    {F : Type 0} (w : World F) (junk : Junk) (temp : List (Option ℕ)) (m : Machine) (c : ℕ)
    (cpu : Cpu) (did : Did) (after : Cpu) (os : Os)
    → AllTame m.os
    → length temp ≡ max_queue_size
    → m.threads c ≡ record { loc = top; cpu = cpu }
    → cpu_round junk temp w.time_slot m.loaded_all cpu m.os ≡ ok (did, after, os)
    → Alone w (some c) m (with_cpu m c os (place_of did) after)
cpu_round-Alone w junk temp m c cpu did after os tame whole e returns =
    Holds-ok (Leads w junk temp whole m m c) _ (did, after, os)
      (round-Leads w junk temp whole m m c cpu m.os tame (
        subst (λ threads. Alone w (some c) m (record m { threads = threads }))
          (sym (update_same m.threads c _ e)) begin))
      returns
