-- ===== src/Simulator/Machine/Fair.antt =====
-- How long a process waits in src/os.c, counted in the steps at which the CPUs take others.
use osassignment_hk.Base.{
  ℕ, suc, ◌<◌, ◌≡◌, sym, ap, subst, ◌≢◌, false, List, ◌∷◌, ◌++◌, length, length-append, Option,
  none, some, Holds-ok, arith,
}
use osassignment_hk.Queue.{max_queue_size}
use osassignment_hk.Queue.Represents.{size-le}
use osassignment_hk.Sched.{max_prio, put_mlq_proc, add_mlq_proc}
use osassignment_hk.Sched.Valid.{View, IsValid}
use osassignment_hk.Sched.Init.{HasArrays}
use osassignment_hk.Sched.Wait.{lag_bound}
use osassignment_hk.Sched.Fair.{patience_bound}
use osassignment_hk.Process.{Os, prio_of}
use osassignment_hk.Cpu.{run}
use osassignment_hk.Cpu.Tame.{RunFramed, run-RunFramed}
use osassignment_hk.Memphy.{Memphy}
use osassignment_hk.Timer.{Timer}
use osassignment_hk.Simulator.Config.{Config, init_system}
use osassignment_hk.Simulator.Machine.{
  World, Machine, started, Step, looks, finishes, expires, goes_on, sees_none, sees_some, takes,
  skips, runs, puts, reads, lists, adds, ends, Reach,
}
use osassignment_hk.Simulator.Machine.Apart.{IsApart, Step-IsApart, Reach-IsApart}
use osassignment_hk.Simulator.Machine.Exclusion.{started-IsApart}
use osassignment_hk.Simulator.Machine.Room.{Represents-unique}
use osassignment_hk.Simulator.Machine.Waits.{
  Grows, Queued, Queued-Grows, Queued-get_locked, wait-Queued, listed-Grows, put_mlq_proc-Grows,
  add_mlq_proc-Grows,
}

-- What a step takes from the scheduler, if it is the locked part of `get_mlq_proc`.
abbrev pub gives : {F : Type 0} {w : World F} {m n : Machine} → Step w m n → Option (Option ℕ)
gives (looks c t e f) = none
gives (finishes c h t e live fin f) = none
gives (expires c h t e live more over f) = none
gives (puts c h t s e put f) = none
gives (goes_on c h t e live more left f) = none
gives (sees_none c t first e empty f) = none
gives (sees_some c t first e some_wait f) = none
gives (takes c t first proc s e gets f) = some proc
gives (skips c t e f) = none
gives (runs junk temp c h t stat os e live whole tame run_ok f) = none
gives (reads stale opcode buf blank proc avail_pid more unread e f) = none
gives (lists junk_mm time more ready idle due f) = none
gives (adds s more busy e f) = none
gives (ends over f) = none

-- The number of steps that take from the scheduler.
abbrev pub later : ℕ → Option (Option ℕ) → ℕ
later k none = k
later k (some r) = suc k

-- Steps from `m`, of which none takes the process `h`, and the given number take from the scheduler.
pub data Passing {F : Type 0} (w : World F) (h : ℕ) (m : Machine) : ℕ → Machine → Type 0 where
  no_step : Passing w h m 0 m
  step :
      {k : ℕ} {n o : Machine}
      → Passing w h m k n
      → (s : Step w n o) → gives s ≢ some (some h)
      → Passing w h m (later k (gives s)) o

at_end :
    {h p bound j : ℕ} {m n : Machine}
    → n ≡ m
    → Queued h p bound j m.os.sched
    → Queued h p bound j n.os.sched
at_end {h} {p} {bound} {j} f q = subst (λ (n : Machine). Queued h p bound j n.os.sched) (sym f) q

module _ {F : Type 0} (w : World F) {h p bound k : ℕ} (b : p < max_prio) where
  Step-Queued :
      {m n : Machine}
      → IsApart ⊥ m
      → (s : Step w m n) → gives s ≢ some (some h)
      → Queued h p bound k m.os.sched
      → Queued h p bound (later k (gives s)) n.os.sched
  Step-Queued a (looks c t e f) other q = at_end f q
  Step-Queued a (finishes c x t e live fin f) other q = at_end f q
  Step-Queued {m} a (expires c x t e live more over f) other q =
      at_end f (Queued-Grows q (listed-Grows x m.os.sched))
  Step-Queued {m} a (puts c x t s e put f) other q = at_end f (
      Queued-Grows q (
        Holds-ok (Grows m.os.sched) (put_mlq_proc (prio_of m.os) x m.os.sched) s
          (put_mlq_proc-Grows (prio_of m.os) x m.os.sched) put))
  Step-Queued a (goes_on c x t e live more left f) other q = at_end f q
  Step-Queued a (sees_none c t first e empty f) other q = at_end f q
  Step-Queued a (sees_some c t first e some_wait f) other q = at_end f q
  Step-Queued a (takes c t first proc s e gets f) other q =
      at_end f (Queued-get_locked proc a.valid b q gets (λ x. other (ap some x)))
  Step-Queued a (skips c t e f) other q = at_end f q
  Step-Queued {m} a (runs junk temp c x t stat os e live whole tame run_ok f) other q =
      let frame =
        Holds-ok (RunFramed junk temp m.os x) (run junk temp m.os x) (stat, os)
          (run-RunFramed junk temp m.os x tame) run_ok in
      at_end f (subst (Queued h p bound k) (sym frame.1.sched) q)
  Step-Queued a (reads stale opcode buf blank proc avail_pid more unread e f) other q = at_end f q
  Step-Queued {m} a (lists junk_mm time more ready idle due f) other q =
      at_end f (Queued-Grows q (listed-Grows m.ld.i m.os.sched))
  Step-Queued {m} a (adds s more busy e f) other q = at_end f (
      Queued-Grows q (
        Holds-ok (Grows m.os.sched) (add_mlq_proc (prio_of m.os) m.ld.i m.os.sched) s
          (add_mlq_proc-Grows (prio_of m.os) m.ld.i m.os.sched) e))
  Step-Queued a (ends over f) other q = at_end f q

module _ {F : Type 0} (w : World F) where
  Passing-Queued :
      {h p bound : ℕ} {m : Machine} {k : ℕ} {n : Machine}
      → p < max_prio
      → IsApart ⊥ m
      → Queued h p bound 0 m.os.sched
      → Passing w h m k n
      → IsApart ⊥ n × Queued h p bound k n.os.sched
  Passing-Queued b a q no_step = (a, q)
  Passing-Queued b a q (step before s other) =
      let (a', q') = Passing-Queued b a q before in
      (Step-IsApart w ⊥ absurd a' s, Step-Queued w b a' s other q')

-- If a process waits at a priority in a state that the loader and the CPUs reach from the start of
-- the program, then in any continuation up to the first call of killall, in any order of the steps,
-- in which no CPU takes that process, the CPUs take from the scheduler fewer than 197,410 times,
-- and the process still waits there.
pub Passing-Bounded :
    {F : Type 0} (w : World F) (junk : List ℕ) (blank : Memphy) (timer : Timer) (os : Os)
    (config : Config)
    → HasArrays os.sched
    → ((h : ℕ) → os.freed h ≡ false)
    → {m n : Machine} {v : View ℕ} {p k : ℕ}
    → Reach w (started (init_system junk blank timer os config)) m
    → IsValid (prio_of m.os) m.os.sched v
    → p < max_prio
    → (h : ℕ) (front back : List ℕ) → v.ready p ≡ front ++ h ∷ back
    → Passing w h m k n
    → (k < patience_bound)
      × (u : View ℕ) × IsValid (prio_of n.os) n.os.sched u
      × (front' : List ℕ) × (back' : List ℕ) × (u.ready p ≡ front' ++ h ∷ back')
Passing-Bounded w junk blank timer os config arrays live {n = n} {v = v} {p = p} {k = k} reach valid
      b h front back place passing =
    let small : length front < max_queue_size =
      omega (arith, size-le (valid.holds p b), ap length place, length-append front (h ∷ back)) in
    let apart =
      Reach-IsApart w ⊥ absurd (started-IsApart ⊥ junk blank timer os config arrays live) reach in
    let (last, q) = Passing-Queued w b apart (wait-Queued valid b h front back place) passing in
    (
      omega (arith, small, q.sooner, lag_bound v p valid.in_range valid.budget),
      last.view,
      last.valid,
      q.front,
      q.back,
      Represents-unique (last.valid.holds p b) q.holds,
    )
