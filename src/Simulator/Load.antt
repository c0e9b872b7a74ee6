-- ===== src/Simulator/Load.antt =====
-- How the loader of src/os.c adds a process.
use osassignment_hk.Base.{
  ◌⊎◌, inl, inr, if_true, lt→ltb, dec_lt, fault, arith, Outcome, ap, ◌>>=◌, update-all, update_self,
  ℕ, ◌+◌, ◌<◌, ◌≤◌, ◌≡◌, refl, sym, subst, fun_ext, ◌∙◌, false, le→not_ltb, get_or, ok, >>=-step,
  if_false,
}
use osassignment_hk.Mm.{Mm, init_mm}
use osassignment_hk.Sched.{Sched, max_prio, add_proc}
use osassignment_hk.Sched.Valid.{View, IsValid, put_view, add_proc-IsValid, add_proc-fault}
use osassignment_hk.Process.{Proc, Os, set_proc, set_sched, prio_of}
use osassignment_hk.Simulator.{slot, LdArgs, Ld, with_mm, ld_ready}

-- The state with the memory of a process.
abbrev pub given_mm : Mm → ℕ → Os → Os
given_mm junk_mm h os = set_proc os h (with_mm junk_mm (os.procs h))

-- A memory does not change a priority.
prio_of-given_mm : (junk_mm : Mm) (h : ℕ) (os : Os) → prio_of (given_mm junk_mm h os) ≡ prio_of os
unfolding with_mm
prio_of-given_mm junk_mm h os = fun_ext (
    update-all (λ j (p : Proc). p.prio ≡ prio_of os j) os.procs h (with_mm junk_mm (os.procs h))
      refl (λ j ne. refl))

-- What `ld_ready` does when the time of a process has come and its `prio` is below MAX_PRIO.
abbrev pub Added : Mm → LdArgs → ℕ → Ld → Os → View ℕ → Type 0
Added junk_mm args time ld os v =
    (s : Sched ℕ) × (ld_ready junk_mm args time ld os
      ≡ ok (
        slot,
        record ld { i = ld.i + 1; loaded = false },
        set_sched (given_mm junk_mm ld.i os) s,
      ))
    × IsValid (prio_of os) s (put_view (prio_of os) ld.i v)
    × ((given_mm junk_mm ld.i os).procs ld.i ≡ record (os.procs ld.i) { mm = init_mm junk_mm })

ld_ready_adds :
    (junk_mm : Mm) (args : LdArgs) (time : ℕ) (ld : Ld) (os : Os) (v : View ℕ)
    → IsValid (prio_of os) os.sched v
    → get_or args.start_time ld.i 0 ≤ time
    → prio_of os ld.i < max_prio
    → Added junk_mm args time ld os v
unfolding ld_ready with_mm
ld_ready_adds junk_mm args time ld os v valid due bound =
    let (s, e, valid') = add_proc-IsValid valid ld.i bound in
    (
      s,
      if_false _ _ (le→not_ltb _ _ due)
          ∙ >>=-step _ (
              subst (λ prio. add_proc prio ld.i os.sched ≡ ok s)
                (sym (prio_of-given_mm junk_mm ld.i os)) e),
      valid',
      update_self os.procs ld.i _,
    )

-- Let the scheduler be in a valid state, and a process be loaded. Before its time nothing changes.
-- At its time, and if its `prio` is not below MAX_PRIO, the queues are left: a fault. Otherwise
-- `init_mm` sets up the memory that malloc gave; the process is put behind the others of its
-- priority and of the running list, where either drops it if it holds ten already; the state is
-- valid; and the next process is next.
pub ld_ready-cases :
    (junk_mm : Mm) (args : LdArgs) (time : ℕ) (ld : Ld) (os : Os) (v : View ℕ)
    → IsValid (prio_of os) os.sched v
    → ((time < get_or args.start_time ld.i 0)
        × (ld_ready junk_mm args time ld os ≡ ok (slot, ld, os)))
      ⊎ (((get_or args.start_time ld.i 0 ≤ time)
            × (max_prio ≤ prio_of os ld.i)
            × (ld_ready junk_mm args time ld os ≡ fault))
          ⊎ Added junk_mm args time ld os v)
unfolding ld_ready with_mm
ld_ready-cases junk_mm args time ld os v valid =
    elim (dec_lt time (get_or args.start_time ld.i 0)) [
      | yes early ↦ inl (early, if_true _ _ (lt→ltb _ _ early))
      | no due ↦ elim (dec_lt (prio_of os ld.i) max_prio) [
        | yes bound ↦ inr (inr (ld_ready_adds junk_mm args time ld os v valid (omega arith) bound))
        | no over ↦
            let past : max_prio ≤ prio_of os ld.i = omega arith in
            inr (
              inl (
                omega arith,
                past,
                if_false _ _ (le→not_ltb time (get_or args.start_time ld.i 0) (omega arith))
                    ∙ ap
                        (λ (m : Outcome (Sched ℕ)). m >>= λ s. ok (
                          slot,
                          record ld { i = ld.i + 1; loaded = false },
                          set_sched (given_mm junk_mm ld.i os) s,
                        ))
                        (subst (λ prio. add_proc prio ld.i os.sched ≡ fault)
                          (sym (prio_of-given_mm junk_mm ld.i os))
                          (add_proc-fault (prio_of os) ld.i os.sched past)),
              ))
      ]
    ]
