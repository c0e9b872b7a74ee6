-- ===== src/Simulator/Machine/Loads.antt =====
-- A round of `ld_routine` of src/os.c that no other thread interrupts, and its steps.
use osassignment_hk.Base.{
  ℕ, ◌%◌, ◌^◌, ◌≡◌, Option, refl, subst, true, false, ltb, get_or, List, none, Outcome, ok, fault,
  Holds, Holds-if, Holds->>=, Holds_self,
}
use osassignment_hk.Mm.{Mm}
use osassignment_hk.Sched.{add_proc}
use osassignment_hk.Process.{Inst, Proc, Os, set_proc, prio_of}
use osassignment_hk.Stdio.{Exec, done, crash, exit_1, Done, Done-done, Done-if}
use osassignment_hk.Simulator.{Did, slot, stopped, Ld, ld_ready, ld_round, of_outcome}
use osassignment_hk.Simulator.Load.{given_mm}
use osassignment_hk.Simulator.Machine.{
  World, Machine, Reach, next, reads, lists, adds, ends, Alone, begin, step,
}

Done-of_outcome {ℓ κ} :
    {A : Type ℓ} (P : A → Type κ) (m : Outcome A) → Holds P m → Done P (of_outcome m)
Done-of_outcome P (ok a) h = h
Done-of_outcome P fault h = tt

-- The machine after a round: the loader is not between two locks.
abbrev pub after_loader : Machine → Did → Ld → Os → Machine
after_loader m did ld os = record m {
  os = os;
  ld = ld;
  adding = false;
  loaded_all = elim did [ slot ↦ m.loaded_all | stopped ↦ true ];
}

module _ {F : Type 0} (w : World F) (start m : Machine) where
  abbrev Leads : Did × Ld × Os → Type 0
  Leads r = Alone w none start (after_loader m r.0 r.1 r.2)

  -- The loader has a process.
  ready-Leads :
      (junk_mm : Mm) (time : ℕ) (ld : Ld) (os : Os)
      → ltb ld.i w.args.num_processes ≡ true
      → ld.loaded ≡ true
      → Alone w none start (after_loader m slot ld os)
      → Holds Leads (ld_ready junk_mm w.args time ld os)
  unfolding ld_ready add_proc
  ready-Leads junk_mm time ld os more ready alone =
      let given = given_mm junk_mm ld.i os in
      Holds-if Leads (ltb time (get_or w.args.start_time ld.i 0)) _ _ (λ early. alone)
        (λ due.
          Holds->>= (λ s. add_proc (prio_of given) ld.i given.sched ≡ ok s) Leads
            (add_proc (prio_of given) ld.i given.sched) _ (Holds_self _)
            (λ s added.
              step (step alone (lists junk_mm time more ready refl due refl) refl)
                (adds s more refl added refl) refl))

  -- The loader has read a file.
  read-Leads :
      (junk_mm : Mm) (time : ℕ) (ld : Ld) (os : Os) (r : Exec (Proc × ℕ))
      → ltb ld.i w.args.num_processes ≡ true
      → ((proc : Proc) (avail_pid : ℕ)
          → r ≡ done (proc, avail_pid)
          → Alone w none start (
              after_loader m slot
                (record ld { avail_pid = avail_pid; loaded = true })
                (set_proc os ld.i (record proc { prio = get_or w.args.prio ld.i 0 % 2 ^ 32 }))))
      → Done Leads (elim r [
        | done (proc, avail_pid) ↦
            let proc = record proc { prio = get_or w.args.prio ld.i 0 % 2 ^ 32 } in
            of_outcome (
              ld_ready junk_mm w.args time
                (record ld { avail_pid = avail_pid; loaded = true })
                (set_proc os ld.i proc))
        | crash ↦ crash
        | exit_1 ↦ exit_1
      ])
  read-Leads junk_mm time ld os (done (proc, avail_pid)) more alone = Done-of_outcome Leads _ (
      ready-Leads junk_mm time (record ld { avail_pid = avail_pid; loaded = true })
        (set_proc os ld.i (record proc { prio = get_or w.args.prio ld.i 0 % 2 ^ 32 })) more refl
        (alone proc avail_pid refl))
  read-Leads junk_mm time ld os crash more alone = tt
  read-Leads junk_mm time ld os exit_1 more alone = tt

  round-Leads :
      (stale : ℕ → Inst) (opcode buf : List ℕ) (blank : Proc) (junk_mm : Mm) (time : ℕ) (ld : Ld)
      (os : Os)
      → Alone w none start (after_loader m slot ld os)
      → Done Leads (ld_round w.io stale opcode buf blank junk_mm w.args time ld os)
  unfolding ld_round
  round-Leads stale opcode buf blank junk_mm time ld os alone =
      Done-if Leads (ltb ld.i w.args.num_processes) _ _
        (λ more.
          Done-if Leads ld.loaded _ _
            (λ ready. Done-of_outcome Leads _ (ready-Leads junk_mm time ld os more ready alone))
            (λ unread. read-Leads junk_mm time ld os _ more (λ proc avail_pid e.
              step alone (reads stale opcode buf blank proc avail_pid more unread e refl) refl)))
        (λ over. step alone (ends over refl) refl)

-- If the loader is not between the two locks of `add_proc`, and a round of it returns, then steps of the
-- loader alone lead from there to the machine with what the round leaves.
pub ld_round-Alone :
    {F : Type 0} (w : World F) (stale : ℕ → Inst) (opcode buf : List ℕ) (blank : Proc)
    (junk_mm : Mm) (time : ℕ) (m : Machine) (did : Did) (ld : Ld) (os : Os)
    → m.adding ≡ false
    → ld_round w.io stale opcode buf blank junk_mm w.args time m.ld m.os ≡ done (did, ld, os)
    → Alone w none m (after_loader m did ld os)
ld_round-Alone w stale opcode buf blank junk_mm time m did ld os idle returns =
    Done-done (Leads w m m) _ (did, ld, os)
      (round-Leads w m m stale opcode buf blank junk_mm time m.ld m.os
        (subst (λ adding. Alone w none m (record m { adding = adding })) idle begin))
      returns

-- The steps of one thread after a run of all.
pub Reach-Alone :
    {F : Type 0} {w : World F} {who : Option ℕ} {start m n : Machine}
    → Reach w start m
    → Alone w who m n
    → Reach w start n
Reach-Alone r begin = r
Reach-Alone r (step a s mine) = next (Reach-Alone r a) s
