-- ===== src/Killall/Tests.antt =====
-- Two processes wait at priority 1, and the name of one of them is killed.
use osassignment_hk.Base.{
  Bool-cases, inl, inr, ap, sym, ◌∙◌, ◌*◌, ◌==◌, if◌then◌else◌, ◌^◌, true, ℕ, true, ◌≤◌, ◌+◌, ◌<◌,
  ◌≡◌, refl, update-all, List, [], ◌∷◌, replicate, All, none, some, ok, arith,
}
use osassignment_hk.Queue.{empty}
use osassignment_hk.Sched.{Sched, max_prio}
use osassignment_hk.Sched.Valid.{View, IsValid, put_view, add_proc-IsValid}
use osassignment_hk.Sched.Init.{initial, init_scheduler-IsValid}
use osassignment_hk.Pte.{pagesz, pgn, max_pgn, page_present, pte_set_fpn, pte_fpn, offst}
use osassignment_hk.Paging.Example.{ram, memory, area, process, junk, area_found}
use osassignment_hk.Pte.Laws.{pgn_lem, offst_lem}
use osassignment_hk.Mm.{Caller}
use osassignment_hk.Paging.Access.{Mapped}
use osassignment_hk.Killall.Call.{name_at, sys_killall-IsValid}
use osassignment_hk.Killall.Items.{SameItems, occurrences, survivors, named_count}
use osassignment_hk.Process.{Os, set_sched, prio_of}
use osassignment_hk.Process.Example.{unset, empty_queue, two_steps, other_name, two_processes}
use osassignment_hk.Killall.{Purge, c_string, same_text, is_linked, sys_killall, purge_loop}
use osassignment_hk.Killall.Times.{is_named, released_os, Ready}
use osassignment_hk.Killall.Survivors.{purge_loop_ends}
use osassignment_hk.Killall.Queues.{named_total, all_times}
use osassignment_hk.Killall.View.{killed, found}

-- The register 1 of the process 7 names its region 1.
abbrev with_regs : Os
with_regs = record two_processes {
  procs =
      λ h. if h == 7 then record other_name { regs = λ r. if r == 1 then 1 else 0 } else two_steps;
}

abbrev view : View ℕ
view = put_view (prio_of with_regs) 3 (put_view (prio_of with_regs) 7 initial)

both_wait : (s : Sched ℕ) × IsValid (prio_of with_regs) s view
both_wait =
    let nothing_put =
      init_scheduler-IsValid (prio_of with_regs) unset
        (record { queues = λ p. refl; running = refl }) in
    let (_, _, one) = add_proc-IsValid nothing_put 7 (omega arith) in
    let (s, _, two) = add_proc-IsValid one 3 (omega arith) in (s, two)

abbrev waiting_os : Os
waiting_os = record with_regs { sched = both_wait.0 }

abbrev name_q : List ℕ
name_q = b'q' ∷ []

process-Ready : (h : ℕ) → Ready with_regs.procs with_regs.freed name_q 1 h
process-Ready h = record {
  live = refl;
  prio = ground arith;
  area = λ e. elim (Bool-cases (h == 7)) [
    | inl e ↦ rw e (area, [], refl)
    | inr e ↦ rw e (area, [], refl)
  ];
}

abbrev holding : (ℕ → ℕ) → Caller
holding storage = record process { mram = record ram { storage = storage } }

-- Byte `i` of region 0 is in frame 1.
first_page : (i : ℕ) → i < 256 → (pgn (0 + i) ≡ 0) × (offst (0 + i) ≡ i)
first_page i lt = (omega (arith, pgn_lem (0 + i)), omega (arith, offst_lem (0 + i)))

region-Mapped :
    (storage : ℕ → ℕ) (i : ℕ)
    → i < 256
    → storage (256 + i) < 2 ^ 8
    → Mapped (holding storage) 0 i (256 + i)
unfolding pte_set_fpn page_present pte_fpn max_pgn
region-Mapped storage i lt small =
    let (page, place) = first_page i lt in
    record {
      area = (0, area);
      found = area_found;
      entry = omega arith;
      low = omega (arith, page);
      present = ap (λ p. page_present (memory.pgd p)) page;
      place =
          ap (λ (o : ℕ). 256 + o) (sym place)
          ∙ ap (λ p. pte_fpn (memory.pgd p) * pagesz + offst (0 + i)) (sym page);
      random = omega arith;
      inside = omega arith;
      byte = small;
    }

abbrev two_waiting : Purge
two_waiting = record {
  queue = record { proc = some 7 ∷ some 3 ∷ replicate 8 none; size = 2 };
  temp = empty_queue;
  terminated = 0;
  os = with_regs;
}

purge_loop_ends_example :
    (after : Purge) × ((m : ℕ) → 2 ≤ m → purge_loop name_q m two_waiting ≡ ok after)
    × (empty after.queue ≡ true)
purge_loop_ends_example =
    purge_loop_ends name_q 1 (7 ∷ 3 ∷ []) two_waiting
      (record { rest = replicate 8 none; slots = refl; counted = refl; whole = refl })
      (record { rest = replicate 10 none; slots = refl; counted = refl; whole = refl })
      (process-Ready 7, (process-Ready 3, tt))

-- The process 3 has the text "q" at the start of its region 0.
abbrev q_bytes : ℕ → ℕ
q_bytes a = if a == 256 then b'q' else 0

abbrev calling_os : Os
calling_os = record with_regs {
  mram = record ram { storage = q_bytes };
  sched = record both_wait.0 { linked = 3 ∷ 7 ∷ [] };
}

calling-Ready :
    (h p : ℕ)
    → p ≡ 1
    → Ready with_regs.procs with_regs.freed (name_at calling_os (λ i. 256 + i)) p h
calling-Ready h p e = record {
  live = refl;
  prio = ground arith;
  area = λ e. elim (Bool-cases (h == 7)) [
    | inl e ↦ rw e (area, [], refl)
    | inr e ↦ rw e (area, [], refl)
  ];
}

-- The process 7 has the name. It is counted twice: on the running list and in its ready queue.
counted_twice :
    (name_at calling_os (λ i. 256 + i) ≡ name_q)
    × (named_count (is_named calling_os.procs name_q) view.running
          + named_total (is_named calling_os.procs name_q) view.ready max_prio 0
        ≡ 2)
unfolding c_string named_count named_total same_text
counted_twice = (refl, refl)

sys_killall-IsValid_example :
    (s : Sched ℕ) × (running : List ℕ) × (sys_killall junk (replicate 10 none) calling_os 3 0
      ≡ ok (
        some (
            named_count (is_named calling_os.procs (name_at calling_os (λ i. 256 + i))) view.running
            + named_total
                (is_named calling_os.procs (name_at calling_os (λ i. 256 + i)))
                view.ready
                max_prio
                0),
        set_sched
            (released_os
              (found (is_named calling_os.procs (name_at calling_os (λ i. 256 + i))) view)
              calling_os)
            s,
      ))
    × SameItems running
        (survivors (is_named calling_os.procs (name_at calling_os (λ i. 256 + i))) view.running)
    × IsValid
        (prio_of calling_os)
        s
        (record (killed (is_named calling_os.procs (name_at calling_os (λ i. 256 + i))) view) {
          running = running;
        })
unfolding is_linked
sys_killall-IsValid_example =
    let valid = both_wait.1 in
    sys_killall-IsValid junk (replicate 10 none) calling_os 3 0 (λ i. 256 + i)
      (λ i lt. region-Mapped q_bytes i (omega arith) (ground arith)) (omega arith) refl view refl
      (record {
        holds = valid.holds;
        lists = valid.lists;
        sorted = valid.sorted;
        slots = valid.slots;
        prio_eq = valid.prio_eq;
        slot_eq = valid.slot_eq;
        in_range = valid.in_range;
        budget = valid.budget;
      })
      (calling-Ready 7 1 refl, (calling-Ready 3 1 refl, tt))
      (update-all
        (λ p l.
          p < max_prio
          → All (Ready with_regs.procs with_regs.freed (name_at calling_os (λ i. 256 + i)) p) l)
        (put_view (prio_of with_regs) 7 initial).ready 1 (7 ∷ 3 ∷ [])
        (λ b. (calling-Ready 7 1 refl, (calling-Ready 3 1 refl, tt))) (λ p other b. ground arith))

-- Its region comes back twice.
regions_twice : found (is_named calling_os.procs name_q) view 7 ≡ 2
unfolding all_times occurrences same_text
regions_twice = refl
