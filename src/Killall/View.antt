-- ===== src/Killall/View.antt =====
-- System call 101 of src/sys_killall.c, seen by the scheduler.
use osassignment_hk.Base.{
  ℕ, ◌+◌, ◌≡◌, ◌<◌, ◌∙◌, ap, sym, subst, Bool, List, length, All, Option, some, ok, >>=-step, arith,
}
use osassignment_hk.Queue.{Queue, max_queue_size}
use osassignment_hk.Sched.{Sched, max_prio}
use osassignment_hk.Sched.Valid.{View, IsValid}
use osassignment_hk.Process.{Os, set_sched, prio_of}
use osassignment_hk.Killall.{set_running, purge_ready, kill_named}
use osassignment_hk.Killall.Times.{
  is_named, times, released_os, released_os_twice, is_named-released_os, prio_of-released_os, Ready,
  Ready-released_os, All-map,
}
use osassignment_hk.Killall.Queues.{
  with_ready, named_total, all_times, purge_ready-Survivors, survivors-Same,
}
use osassignment_hk.Killall.Items.{survivors, named_count, SameItems}
use osassignment_hk.Killall.Running.{AnyReady, purge-SameItems}

-- What the processes that wait are after the call.
abbrev pub killed : (ℕ → Bool) → View ℕ → View ℕ
killed named v = record v { ready = λ p. survivors named (v.ready p) }

-- How often the call finds each process of the name.
abbrev pub found : (ℕ → Bool) → View ℕ → ℕ → ℕ
found named v k = all_times named v.ready max_prio 0 k + times named v.running k

-- In a valid state of the scheduler, where no PCB that waits is freed and those of the name have an
-- area, the loop of `__sys_killall` over the 140 ready queues returns, counts the processes of the
-- name that waited and frees their regions, and leaves a valid state in which the others wait as
-- before, in their order.
pub purge_ready-IsValid :
    (junk : List (Option ℕ)) (name : List ℕ) (named : ℕ → Bool) (terminated : ℕ) (os : Os)
    (v : View ℕ)
    → length junk ≡ max_queue_size
    → is_named os.procs name ≡ named
    → IsValid (prio_of os) os.sched v
    → ((p : ℕ) → p < max_prio → All (Ready os.procs os.freed name p) (v.ready p))
    → (queues : ℕ → Queue ℕ) × (purge_ready junk name max_prio 0 terminated os
        ≡ ok (
          terminated + named_total named v.ready max_prio 0,
          with_ready (released_os (all_times named v.ready max_prio 0) os) queues,
        ))
      × IsValid (prio_of os) (with_ready os queues).sched (killed named v)
purge_ready-IsValid junk name named terminated os v whole agrees valid ready =
    let (queues, run, left, _) =
      purge_ready-Survivors junk name named v.ready whole max_prio 0 terminated os
        os.sched.mlq_ready_queue agrees (λ k a b. valid.holds k (omega arith))
        (λ k a b. ready k (omega arith)) in
    (
      queues,
      run,
      record {
        holds = λ p b. left p (omega arith) (omega arith);
        lists = valid.lists;
        sorted = λ p. survivors-Same named (prio_of os) p (v.ready p) (valid.sorted p);
        slots = valid.slots;
        prio_eq = valid.prio_eq;
        slot_eq = valid.slot_eq;
        in_range = valid.in_range;
        budget = valid.budget;
      },
    )

module _ (junk : List (Option ℕ)) (os : Os) (v : View ℕ) (whole : length junk ≡ max_queue_size)
    (valid : IsValid (prio_of os) os.sched v) (name : List ℕ) (named : ℕ → Bool)
    (agrees : is_named os.procs name ≡ named) where
  -- In a valid state of the scheduler, where no enlisted PCB is freed and those of the name have an
  -- area, system call 101 with the name returns how many processes of the name it found on the
  -- running list and in the ready queues. It leaves a valid state in which the others wait as
  -- before, in their order, and the others are on the running list, each as often as before. The
  -- regions of a process of the name are freed as often as it was found; nothing else changes.
  pub kill_named-IsValid :
      All (AnyReady os name) v.running
      → ((p : ℕ) → p < max_prio → All (Ready os.procs os.freed name p) (v.ready p))
      → (s : Sched ℕ) × (running : List ℕ) × (kill_named junk name os
          ≡ ok (
            some (named_count named v.running + named_total named v.ready max_prio 0),
            set_sched (released_os (found named v) os) s,
          ))
        × SameItems running (survivors named v.running)
        × IsValid (prio_of os) s (record (killed named v) { running = running })
  unfolding kill_named
  kill_named-IsValid listed ready =
      let (q, running, run, r, same) =
        purge-SameItems junk name named 0 v.running os.sched.running_list os whole agrees
          valid.lists listed in
      let freed = released_os (times named v.running) os in
      let middle : IsValid (prio_of freed) (set_running freed q).sched
          (record v { running = running }) =
        record {
          holds = valid.holds;
          lists = r;
          sorted =
              subst (λ prio. (p : ℕ) → All (λ h. prio h ≡ p) (v.ready p))
                (sym (prio_of-released_os (times named v.running) os)) valid.sorted;
          slots = valid.slots;
          prio_eq = valid.prio_eq;
          slot_eq = valid.slot_eq;
          in_range = valid.in_range;
          budget = valid.budget;
        } in
      let (queues, rest, valid') =
        purge_ready-IsValid junk name named (0 + named_count named v.running) (set_running freed q)
          (record v { running = running }) whole
          (is_named-released_os (times named v.running) os name ∙ agrees) middle
          (λ p b.
            All-map (Ready os.procs os.freed name p) (Ready freed.procs os.freed name p) (v.ready p)
              (Ready-released_os (times named v.running) os name p) (ready p b)) in
      (
        (with_ready (set_running os q) queues).sched,
        running,
        >>=-step _ run
            ∙ >>=-step _ rest
            ∙ ap
                (λ o. ok (
                  some (0 + named_count named v.running + named_total named v.ready max_prio 0),
                  set_sched o (with_ready (set_running os q) queues).sched,
                ))
                (released_os_twice (all_times named v.ready max_prio 0) (times named v.running) os)
            ∙ ap
                (λ (n : ℕ). ok (
                  some (n + named_total named v.ready max_prio 0),
                  set_sched (released_os (found named v) os)
                      (with_ready (set_running os q) queues).sched,
                ))
                (omega arith),
        same,
        subst
            (λ prio.
              IsValid prio (with_ready (set_running os q) queues).sched
                (record (killed named v) { running = running }))
            (prio_of-released_os (times named v.running) os) valid',
      )
