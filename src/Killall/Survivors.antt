-- ===== src/Killall/Survivors.antt =====
-- What the loops of src/sys_killall.c over a ready queue leave of it.
use mathlib.Core.List.{append_assoc, append-nil}
use osassignment_hk.Base.{
  ℕ, zero, suc, ◌+◌, ◌≤◌, ◌≡◌, refl, sym, ap, subst, fun_ext, ◌∙◌, inl, inr, Bool, true, false,
  ◌==◌, if◌then◌else◌, List, [], ◌∷◌, ◌++◌, length, length-append, All, some, ok, >>=-step, if_true,
  if_false, Bool-cases, arith,
}
use osassignment_hk.Queue.{Queue, max_queue_size, empty, enqueue, dequeue}
use osassignment_hk.Queue.Represents.{Represents, size-le, empty_lem, enqueue-Represents}
use osassignment_hk.Queue.Fifo.{dequeue_fifo}
use osassignment_hk.Process.{Os, prio_of}
use osassignment_hk.Killall.{Purge, judge, purge_loop}
use osassignment_hk.Killall.Items.{occurrences, survivors, named_count}
use osassignment_hk.Killall.Release.{free_regs-released}
use osassignment_hk.Killall.Times.{
  is_named, repeat, once, times, released_os, released_os_once, released_os_twice,
  is_named-released_os, Ready, Ready-released_os, All-map, times_named, times_other,
}

pub Ready-Same :
    (os : Os) (name : List ℕ) (p : ℕ) (l : List ℕ)
    → All (Ready os.procs os.freed name p) l
    → All (λ h. prio_of os h ≡ p) l
Ready-Same os name p [] r = tt
Ready-Same os name p (h ∷ l) r = (r.0.prio, Ready-Same os name p l r.1)

pub busy_queue : {q : Queue ℕ} {a : ℕ} {l : List ℕ} → Represents q (a ∷ l) → empty q ≡ false
busy_queue {q} {a} {l} r =
    let more : (suc (length l) == 0) ≡ false = ground arith in empty_lem r ∙ more

-- The state after a process was judged.
pub judged : (ℕ → Bool) → ℕ → Purge → Purge
judged named h s =
    if named h
    then record s { terminated = s.terminated + 1; os = released_os (once h) s.os }
    else record s { temp = enqueue s.temp (some h) }

judge-judged :
    (name : List ℕ) (named : ℕ → Bool) (p h : ℕ) (s : Purge)
    → is_named s.os.procs name ≡ named
    → Ready s.os.procs s.os.freed name p h
    → judge name h s ≡ ok (judged named h s)
unfolding judge judged
judge-judged name named p h s agrees r =
    let tells : is_named s.os.procs name h ≡ named h = ap (λ f. f h) agrees in
    if_false _ _ r.live ∙ elim (Bool-cases (named h)) [
      | inl e ↦
          if_true _ _ (tells ∙ e)
          ∙ >>=-step _ (free_regs-released s.os h (r.area (tells ∙ e)))
          ∙ ap (λ o. ok (record s { terminated = s.terminated + 1; os = o }))
              (released_os_once s.os h)
          ∙ rw e refl
      | inr e ↦ if_false _ _ (tells ∙ e) ∙ rw e refl
    ]

pub judged_named :
    (named : ℕ → Bool) (h : ℕ) (s : Purge)
    → named h ≡ true
    → judged named h s ≡ record s { terminated = s.terminated + 1; os = released_os (once h) s.os }
unfolding judged
judged_named named h s e = if_true _ _ e

pub judged_other :
    (named : ℕ → Bool) (h : ℕ) (s : Purge)
    → named h ≡ false
    → judged named h s ≡ record s { temp = enqueue s.temp (some h) }
unfolding judged
judged_other named h s e = if_false _ _ e

-- What `purge_loop` leaves of a queue `l`, with the processes `kept` put aside before.
pub record Drained (named : ℕ → Bool) (s : Purge) (l kept : List ℕ) (after : Purge) : Type 0 where
  pub emptied : Represents after.queue []
  pub aside : Represents after.temp (kept ++ survivors named l)
  pub counted : after.terminated ≡ s.terminated + named_count named l
  pub same_os : after.os ≡ released_os (times named l) s.os

-- The loop ends by itself, after `n` rounds at most.
abbrev pub Drains : List ℕ → (ℕ → Bool) → ℕ → Purge → List ℕ → List ℕ → Type 0
Drains name named n s l kept =
    (after : Purge) × ((m : ℕ) → n ≤ m → purge_loop name m s ≡ ok after)
    × Drained named s l kept after

nothing_left :
    (name : List ℕ) (s : Purge) → empty s.queue ≡ true → (m : ℕ) → purge_loop name m s ≡ ok s
unfolding purge_loop
nothing_left name s e zero = refl
nothing_left name s e (suc m) = if_true _ _ e

later_rounds :
    (name : List ℕ) (n : ℕ) (s s' after : Purge)
    → ((m : ℕ) → purge_loop name (suc m) s ≡ purge_loop name m s')
    → ((m : ℕ) → n ≤ m → purge_loop name m s' ≡ ok after)
    → (m : ℕ) → suc n ≤ m
    → purge_loop name m s ≡ ok after
later_rounds name n s s' after first run zero le = absurd (omega arith)
later_rounds name n s s' after first run (suc m) le = first m ∙ run m (omega arith)

-- One round, and what the others leave.
pub one_round :
    (name : List ℕ) (named : ℕ → Bool) (p n h : ℕ) (s : Purge) (q : Queue ℕ)
    → is_named s.os.procs name ≡ named
    → empty s.queue ≡ false
    → dequeue (prio_of s.os) s.queue ≡ ok (some h, q)
    → Ready s.os.procs s.os.freed name p h
    → purge_loop name (suc n) s ≡ purge_loop name n (judged named h (record s { queue = q }))
unfolding purge_loop
one_round name named p n h s q agrees busy e r =
    if_false _ _ busy
    ∙ >>=-step _ e
    ∙ >>=-step _ (judge-judged name named p h (record s { queue = q }) agrees r)

-- The state after a process of the name.
abbrev pub terminating : Purge → Queue ℕ → ℕ → Purge
terminating s q h = record s {
  queue = q;
  terminated = s.terminated + 1;
  os = released_os (once h) s.os;
}

-- Terminating `h` and then those of `l`.
pub released_os_named :
    (named : ℕ → Bool) (h : ℕ) (l : List ℕ) (os : Os)
    → named h ≡ true
    → released_os (times named l) (released_os (once h) os) ≡ released_os (times named (h ∷ l)) os
released_os_named named h l os e =
    released_os_twice (times named l) (once h) os
    ∙ ap (λ t. released_os t os) (fun_ext (times_named named h l e))

named_Drained :
    (named : ℕ → Bool) (h : ℕ) (l kept : List ℕ) (s after : Purge) (q : Queue ℕ)
    → named h ≡ true
    → Drained named (terminating s q h) l kept after
    → Drained named s (h ∷ l) kept after
unfolding survivors named_count
named_Drained named h l kept s after q e d = record {
  emptied = d.emptied;
  aside = rw e d.aside;
  counted = rw e (omega (arith, d.counted));
  same_os = d.same_os ∙ released_os_named named h l s.os e;
}

other_Drained :
    (named : ℕ → Bool) (h : ℕ) (l kept : List ℕ) (s after : Purge) (q : Queue ℕ)
    → named h ≡ false
    → Drained named
        (record s { queue = q; temp = enqueue s.temp (some h) })
        l
        (kept ++ h ∷ [])
        after
    → Drained named s (h ∷ l) kept after
unfolding survivors named_count
other_Drained named h l kept s after q e d = record {
  emptied = d.emptied;
  aside =
      rw e (subst (Represents after.temp) (append_assoc kept (h ∷ []) (survivors named l)) d.aside);
  counted = rw e (omega (arith, d.counted));
  same_os = d.same_os ∙ ap (λ t. released_os t s.os) (fun_ext (times_other named h l e));
}

-- Nobody is terminated.
pub released_os_none : (named : ℕ → Bool) (os : Os) → os ≡ released_os (times named []) os
unfolding repeat occurrences
released_os_none named os =
    ap (λ f. record os { procs = f })
      (fun_ext (λ k. elim (Bool-cases (named k)) [ inl e ↦ rw e refl | inr e ↦ rw e refl ]))

-- The rest of a queue is ready after a process was terminated.
pub All-Ready :
    (h : ℕ) (name : List ℕ) (p : ℕ) (os : Os) (l : List ℕ)
    → All (Ready os.procs os.freed name p) l
    → All (Ready (released_os (once h) os).procs os.freed name p) l
All-Ready h name p os l =
    All-map (Ready os.procs os.freed name p) (Ready (released_os (once h) os).procs os.freed name p)
      l (Ready-released_os (once h) os name p)

pub purge_loop-Drains :
    (name : List ℕ) (named : ℕ → Bool) (p n : ℕ) (l kept : List ℕ) (s : Purge)
    → is_named s.os.procs name ≡ named
    → n ≡ length l
    → Represents s.queue l
    → Represents s.temp kept
    → length kept + length l ≤ max_queue_size
    → All (Ready s.os.procs s.os.freed name p) l
    → Drains name named n s l kept
purge_loop-Drains name named p zero [] kept s agrees e r t fits ready =
    unfold survivors named_count in
    (
      s,
      λ m le. nothing_left name s (empty_lem r) m,
      record {
        emptied = r;
        aside = subst (Represents s.temp) (sym (append-nil kept)) t;
        counted = omega arith;
        same_os = released_os_none named s.os;
      },
    )
purge_loop-Drains name named p zero (h ∷ l) kept s agrees e r t fits ready = absurd (omega arith)
purge_loop-Drains name named p (suc n) [] kept s agrees e r t fits ready = absurd (omega arith)
purge_loop-Drains name named p (suc n) (h ∷ l) kept s agrees e r t fits ready =
    let (q, taken, r') =
      dequeue_fifo (prio_of s.os) p h l r (Ready-Same s.os name p (h ∷ l) ready) in
    let round = λ (m : ℕ). one_round name named p m h s q agrees (busy_queue r) taken ready.0 in
    elim (Bool-cases (named h)) [
      | inl yes_named ↦
          let (after, run, d) =
            purge_loop-Drains name named p n l kept (terminating s q h)
              (is_named-released_os (once h) s.os name ∙ agrees) (omega arith) r' t (omega arith)
              (All-Ready h name p s.os l ready.1) in
          (
            after,
            later_rounds name n s _ after
                (λ m.
                  round m
                  ∙ ap (purge_loop name m)
                      (judged_named named h (record s { queue = q }) yes_named))
                run,
            named_Drained named h l kept s after q yes_named d,
          )
      | inr not_named ↦
          let (after, run, d) =
            purge_loop-Drains name named p n l (kept ++ h ∷ [])
              (record s { queue = q; temp = enqueue s.temp (some h) }) agrees (omega arith) r'
              (enqueue-Represents t h (omega arith)) (omega (arith, length-append kept (h ∷ [])))
              ready.1 in
          (
            after,
            later_rounds name n s _ after
                (λ m.
                  round m
                  ∙ ap (purge_loop name m)
                      (judged_other named h (record s { queue = q }) not_named))
                run,
            other_Drained named h l kept s after q not_named d,
          )
    ]

-- If a queue holds ready processes of one priority that are not freed, and those of the name have
-- an area, then the loop of `__sys_killall` that empties it ends: with as many rounds as the queue
-- has processes, or with any greater number, it returns the same, and the queue is empty.
pub purge_loop_ends :
    (name : List ℕ) (p : ℕ) (l : List ℕ) (s : Purge)
    → Represents s.queue l
    → Represents s.temp []
    → All (Ready s.os.procs s.os.freed name p) l
    → (after : Purge) × ((m : ℕ) → s.queue.size ≤ m → purge_loop name m s ≡ ok after)
      × (empty after.queue ≡ true)
purge_loop_ends name p l s r t ready =
    let (after, run, d) =
      purge_loop-Drains name (is_named s.os.procs name) p s.queue.size l [] s refl r.counted r t
        (omega (arith, size-le r)) ready in
    (after, run, empty_lem d.emptied)
