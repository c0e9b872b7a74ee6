-- ===== src/Killall/Running.antt =====
-- What the loops of src/sys_killall.c over the running list leave of it. Its processes may have different
-- priorities, so that their order changes.
use osassignment_hk.Base.{
  ℕ, zero, suc, ◌+◌, ◌≤◌, ◌≡◌, refl, ap, fun_ext, ◌∙◌, inl, inr, Bool, true, false, List, [], ◌∷◌,
  ◌++◌, length, length-append, All, Option, some, ok, >>=-step, if_false, Bool-cases, arith,
}
use osassignment_hk.Queue.{Queue, max_queue_size, enqueue}
use osassignment_hk.Queue.Represents.{Represents, size-le, enqueue-Represents}
use osassignment_hk.Process.{Os, prio_of}
use osassignment_hk.Killall.{Purge, purge_loop, restore_loop, purge}
use osassignment_hk.Killall.Survivors.{
  busy_queue, judged_named, judged_other, one_round, terminating, released_os_none,
}
use osassignment_hk.Killall.Times.{
  is_named, once, times, released_os, released_os_twice, is_named-released_os, Ready,
  Ready-released_os, All-map,
}
use osassignment_hk.Killall.Items.{
  survivors, named_count, occurrences, SameItems, occurrences-append,
}
use osassignment_hk.Killall.Cuts.{
  Cut, Cut-length, Cut-occurrences, Cut-survivors, Cut-count, Cut-All, Cut-times_named,
  Cut-times_other, dequeue-Cut,
}

-- A PCB as `Ready` says, of any priority.
abbrev pub AnyReady : Os → List ℕ → ℕ → Type 0
AnyReady os name h = Ready os.procs os.freed name (prio_of os h) h

pub restore_loop-SameItems :
    (prio : ℕ → ℕ) (n : ℕ) (l before : List ℕ) (queue temp : Queue ℕ)
    → n ≡ length l
    → Represents queue before
    → Represents temp l
    → length before + length l ≤ max_queue_size
    → (after : Queue ℕ) × (m : List ℕ) × (restore_loop prio n queue temp ≡ ok after)
      × Represents after m
      × ((x : ℕ) → occurrences x m ≡ occurrences x before + occurrences x l)
unfolding restore_loop
restore_loop-SameItems prio zero [] before queue temp e r t fits =
    unfold occurrences in (queue, before, refl, r, λ x. omega arith)
restore_loop-SameItems prio zero (h ∷ l) before queue temp e r t fits = absurd (omega arith)
restore_loop-SameItems prio (suc n) [] before queue temp e r t fits = absurd (omega arith)
restore_loop-SameItems prio (suc n) (h ∷ l) before queue temp e r t fits =
    let (a, temp', others, taken, c, t') = dequeue-Cut prio h l t in
    let (after, m, run, r', same) =
      restore_loop-SameItems prio n others (before ++ a ∷ []) (enqueue queue (some a)) temp'
        (omega (arith, Cut-length c)) (enqueue-Represents r a (omega arith)) t'
        (omega (arith, length-append before (a ∷ []), Cut-length c)) in
    (
      after,
      m,
      if_false _ _ (busy_queue t) ∙ >>=-step _ taken ∙ run,
      r',
      λ x. omega (arith, same x, occurrences-append x before (a ∷ []), Cut-occurrences c x),
    )

-- What `purge_loop` leaves of a queue `l`, with the processes `kept` put aside before.
record Leaves (named : ℕ → Bool) (s : Purge) (l kept : List ℕ) (after : Purge) (aside : List ℕ)
    : Type 0 where
  emptied : Represents after.queue []
  holds : Represents after.temp aside
  items : (x : ℕ) → occurrences x aside ≡ occurrences x kept + occurrences x (survivors named l)
  fits : length aside ≤ length kept + length l
  counted : after.terminated ≡ s.terminated + named_count named l
  same_os : after.os ≡ released_os (times named l) s.os

abbrev PurgesTo : List ℕ → (ℕ → Bool) → ℕ → Purge → List ℕ → List ℕ → Type 0
PurgesTo name named n s l kept =
    (after : Purge) × (aside : List ℕ) × (purge_loop name n s ≡ ok after)
    × Leaves named s l kept after aside

nothing : (x : ℕ) → occurrences x [] ≡ 0
unfolding occurrences
nothing x = refl

named_Leaves :
    (named : ℕ → Bool) (a : ℕ) (l others kept aside : List ℕ) (s after : Purge) (q : Queue ℕ)
    → Cut l others a
    → named a ≡ true
    → Leaves named (terminating s q a) others kept after aside
    → Leaves named s l kept after aside
named_Leaves named a l others kept aside s after q c e d =
    let gone : survivors named (a ∷ []) ≡ [] = unfold survivors in rw e refl in
    let one : named_count named (a ∷ []) ≡ 1 = unfold named_count in rw e (omega arith) in
    let none_left : (x : ℕ) → occurrences x (survivors named (a ∷ [])) ≡ 0 =
      λ x. rw gone (nothing x) in
    record {
      emptied = d.emptied;
      holds = d.holds;
      items = λ x. omega (arith, d.items x, Cut-survivors c named x, none_left x);
      fits = omega (arith, d.fits, Cut-length c);
      counted = omega (arith, d.counted, Cut-count c named, one);
      same_os =
          d.same_os
          ∙ released_os_twice (times named others) (once a) s.os
          ∙ ap (λ t. released_os t s.os) (fun_ext (Cut-times_named c named e));
    }

other_Leaves :
    (named : ℕ → Bool) (a : ℕ) (l others kept aside : List ℕ) (s after : Purge) (q : Queue ℕ)
    → Cut l others a
    → named a ≡ false
    → Leaves named
        (record s { queue = q; temp = enqueue s.temp (some a) })
        others
        (kept ++ a ∷ [])
        after
        aside
    → Leaves named s l kept after aside
other_Leaves named a l others kept aside s after q c e d =
    let stays : survivors named (a ∷ []) ≡ a ∷ [] = unfold survivors in rw e refl in
    let none_counted : named_count named (a ∷ []) ≡ 0 = unfold named_count in rw e (omega arith) in
    let one_left = λ (x : ℕ). ap (occurrences x) stays in
    record {
      emptied = d.emptied;
      holds = d.holds;
      items = λ x. omega (
        arith,
        d.items x,
        Cut-survivors c named x,
        one_left x,
        occurrences-append x kept (a ∷ []),
      );
      fits = omega (arith, d.fits, Cut-length c, length-append kept (a ∷ []));
      counted = omega (arith, d.counted, Cut-count c named, none_counted);
      same_os = d.same_os ∙ ap (λ t. released_os t s.os) (fun_ext (Cut-times_other c named e));
    }

-- The rest of a queue is ready after processes were terminated.
pub All-AnyReady :
    (t : ℕ → ℕ) (name : List ℕ) (os : Os) (l : List ℕ)
    → All (AnyReady os name) l
    → All (AnyReady (released_os t os) name) l
All-AnyReady t name os l = All-map (AnyReady os name) (AnyReady (released_os t os) name) l (λ h r.
    record {
      live = r.live;
      prio = refl;
      area = (Ready-released_os t os name (prio_of os h) h r).area;
    })

purge_loop-Leaves :
    (name : List ℕ) (named : ℕ → Bool) (n : ℕ) (l kept : List ℕ) (s : Purge)
    → is_named s.os.procs name ≡ named
    → n ≡ length l
    → Represents s.queue l
    → Represents s.temp kept
    → length kept + length l ≤ max_queue_size
    → All (AnyReady s.os name) l
    → PurgesTo name named n s l kept
purge_loop-Leaves name named zero [] kept s agrees e r t fits ready =
    unfold purge_loop survivors named_count in
    (
      s,
      kept,
      refl,
      record {
        emptied = r;
        holds = t;
        items = λ x. omega (arith, nothing x);
        fits = omega arith;
        counted = omega arith;
        same_os = released_os_none named s.os;
      },
    )
purge_loop-Leaves name named zero (h ∷ l) kept s agrees e r t fits ready = absurd (omega arith)
purge_loop-Leaves name named (suc n) [] kept s agrees e r t fits ready = absurd (omega arith)
purge_loop-Leaves name named (suc n) (h ∷ l) kept s agrees e r t fits ready =
    let (a, q, others, taken, c, r') = dequeue-Cut (prio_of s.os) h l r in
    let (here, rest) = Cut-All c (AnyReady s.os name) ready in
    let round = one_round name named (prio_of s.os a) n a s q agrees (busy_queue r) taken here in
    elim (Bool-cases (named a)) [
      | inl yes_named ↦
          let (after, aside, run, d) =
            purge_loop-Leaves name named n others kept (terminating s q a)
              (is_named-released_os (once a) s.os name ∙ agrees) (omega (arith, Cut-length c)) r' t
              (omega (arith, Cut-length c)) (All-AnyReady (once a) name s.os others rest) in
          (
            after,
            aside,
            round
                ∙ ap (purge_loop name n) (judged_named named a (record s { queue = q }) yes_named)
                ∙ run,
            named_Leaves named a (h ∷ l) others kept aside s after q c yes_named d,
          )
      | inr not_named ↦
          let (after, aside, run, d) =
            purge_loop-Leaves name named n others (kept ++ a ∷ [])
              (record s { queue = q; temp = enqueue s.temp (some a) }) agrees
              (omega (arith, Cut-length c)) r' (enqueue-Represents t a (omega arith))
              (omega (arith, length-append kept (a ∷ []), Cut-length c)) rest in
          (
            after,
            aside,
            round
                ∙ ap (purge_loop name n) (judged_other named a (record s { queue = q }) not_named)
                ∙ run,
            other_Leaves named a (h ∷ l) others kept aside s after q c not_named d,
          )
    ]

-- If a queue holds ready processes of any priorities that are not freed, and those of the name have an
-- area, then the loops of `__sys_killall` over it return, leave the processes with other names, in
-- some order, count the others and free their regions, and change nothing else.
pub purge-SameItems :
    (junk : List (Option ℕ)) (name : List ℕ) (named : ℕ → Bool) (terminated : ℕ) (l : List ℕ)
    (queue : Queue ℕ) (os : Os)
    → length junk ≡ max_queue_size
    → is_named os.procs name ≡ named
    → Represents queue l
    → All (AnyReady os name) l
    → (after : Queue ℕ) × (m : List ℕ) × (purge junk name queue terminated os
        ≡ ok (after, terminated + named_count named l, released_os (times named l) os))
      × Represents after m
      × SameItems m (survivors named l)
unfolding purge
purge-SameItems junk name named terminated l queue os whole agrees r ready =
    let start : Purge = record {
      queue = queue;
      temp = record { proc = junk; size = 0 };
      terminated = terminated;
      os = os;
    } in
    let none_aside : Represents start.temp [] = record {
      rest = junk;
      slots = refl;
      counted = refl;
      whole = whole;
    } in
    let (s, aside, run, d) =
      purge_loop-Leaves name named queue.size l [] start agrees r.counted r none_aside
        (omega (arith, size-le r)) ready in
    let (after, m, back, r', same) =
      restore_loop-SameItems (prio_of s.os) s.temp.size aside [] s.queue s.temp d.holds.counted
        d.emptied d.holds (omega (arith, d.fits, size-le r)) in
    (
      after,
      m,
      >>=-step _ run
          ∙ >>=-step _ back
          ∙ ap (λ n. ok (after, n, s.os)) d.counted
          ∙ ap (λ o. ok (after, terminated + named_count named l, o)) d.same_os,
      r',
      λ x. omega (arith, same x, d.items x, nothing x),
    )
