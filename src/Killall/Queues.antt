-- ===== src/Killall/Queues.antt =====
-- What src/sys_killall.c leaves of the ready queues.
use mathlib.Core.List.{append_assoc, append-nil}
use osassignment_hk.Base.{
  ℕ, zero, suc, ◌+◌, ◌≤◌, ◌<◌, ◌≡◌, refl, sym, ap, subst, fun_ext, ◌∙◌, inl, inr, Bool, update,
  update_self, update_other, ℕ_discrete, List, [], ◌∷◌, ◌++◌, length, length-append, All, Option,
  some, ok, >>=-step, if_false, Bool-cases, arith,
}
use osassignment_hk.Queue.{Queue, max_queue_size, enqueue}
use osassignment_hk.Queue.Represents.{Represents, size-le, enqueue-Represents}
use osassignment_hk.Queue.Fifo.{dequeue_fifo}
use osassignment_hk.Process.{Os, prio_of}
use osassignment_hk.Killall.{Purge, restore_loop, purge, purge_ready}
use osassignment_hk.Killall.Items.{survivors, named_count}
use osassignment_hk.Killall.Times.{
  is_named, repeat, times, released_os, released_os_twice, is_named-released_os,
  prio_of-released_os, Ready, Ready-released_os, All-map,
}
use osassignment_hk.Killall.Survivors.{Ready-Same, busy_queue, purge_loop-Drains}

-- The loop that moves the processes back appends them.
restore_loop-append :
    (prio : ℕ → ℕ) (p n : ℕ) (l before : List ℕ) (queue temp : Queue ℕ)
    → n ≡ length l
    → Represents queue before
    → Represents temp l
    → length before + length l ≤ max_queue_size
    → All (λ h. prio h ≡ p) l
    → (after : Queue ℕ) × (restore_loop prio n queue temp ≡ ok after)
      × Represents after (before ++ l)
unfolding restore_loop
restore_loop-append prio p zero [] before queue temp e r t fits same =
    (queue, refl, subst (Represents queue) (sym (append-nil before)) r)
restore_loop-append prio p zero (h ∷ l) before queue temp e r t fits same = absurd (omega arith)
restore_loop-append prio p (suc n) [] before queue temp e r t fits same = absurd (omega arith)
restore_loop-append prio p (suc n) (h ∷ l) before queue temp e r t fits same =
    let (temp', taken, t') = dequeue_fifo prio p h l t same in
    let (after, run, r') =
      restore_loop-append prio p n l (before ++ h ∷ []) (enqueue queue (some h)) temp' (omega arith)
        (enqueue-Represents r h (omega arith)) t' (omega (arith, length-append before (h ∷ [])))
        same.1 in
    (
      after,
      if_false _ _ (busy_queue t) ∙ >>=-step _ taken ∙ run,
      subst (Represents after) (append_assoc before (h ∷ []) l) r',
    )

pub survivors-Same :
    (named : ℕ → Bool) (prio : ℕ → ℕ) (p : ℕ) (l : List ℕ)
    → All (λ h. prio h ≡ p) l
    → All (λ h. prio h ≡ p) (survivors named l)
unfolding survivors
survivors-Same named prio p [] same = tt
survivors-Same named prio p (h ∷ l) same = elim (Bool-cases (named h)) [
  | inl e ↦ rw e (survivors-Same named prio p l same.1)
  | inr e ↦ rw e (same.0, survivors-Same named prio p l same.1)
]

length-survivors : (named : ℕ → Bool) (l : List ℕ) → length (survivors named l) ≤ length l
unfolding survivors
length-survivors named [] = omega arith
length-survivors named (h ∷ l) = ground (arith, length-survivors named l)

-- If a queue holds ready processes of one priority that are not freed, and those of the name have
-- an area, then the loops of `__sys_killall` over it return, take the processes of the name out,
-- leave the others in their order, count what they took out, free the regions of those once for
-- each time, and change nothing else.
pub purge-Survivors :
    (junk : List (Option ℕ)) (name : List ℕ) (named : ℕ → Bool) (p terminated : ℕ) (l : List ℕ)
    (queue : Queue ℕ) (os : Os)
    → length junk ≡ max_queue_size
    → is_named os.procs name ≡ named
    → Represents queue l
    → All (Ready os.procs os.freed name p) l
    → (after : Queue ℕ) × (purge junk name queue terminated os
        ≡ ok (after, terminated + named_count named l, released_os (times named l) os))
      × Represents after (survivors named l)
unfolding purge
purge-Survivors junk name named p terminated l queue os whole agrees r ready =
    let start : Purge = record {
      queue = queue;
      temp = record { proc = junk; size = 0 };
      terminated = terminated;
      os = os;
    } in
    let nothing : Represents start.temp [] = record {
      rest = junk;
      slots = refl;
      counted = refl;
      whole = whole;
    } in
    let (s, run, d) =
      purge_loop-Drains name named p queue.size l [] start agrees r.counted r nothing
        (omega (arith, size-le r)) ready in
    let fits : 0 + length (survivors named l) ≤ max_queue_size =
      omega (arith, size-le r, length-survivors named l) in
    let same_prio : prio_of s.os ≡ prio_of os =
      ap prio_of d.same_os ∙ prio_of-released_os (times named l) os in
    let (after, back, r') =
      restore_loop-append (prio_of s.os) p s.temp.size (survivors named l) [] s.queue s.temp
        d.aside.counted d.emptied d.aside fits
        (subst (λ (prio : ℕ → ℕ). All (λ h. prio h ≡ p) (survivors named l)) (sym same_prio)
          (survivors-Same named (prio_of os) p l (Ready-Same os name p l ready))) in
    (
      after,
      >>=-step _ (run queue.size (omega arith))
          ∙ >>=-step _ back
          ∙ ap (λ n. ok (after, n, s.os)) d.counted
          ∙ ap (λ o. ok (after, terminated + named_count named l, o)) d.same_os,
      r',
    )

-- `os` with other ready queues.
abbrev pub with_ready : Os → (ℕ → Queue ℕ) → Os
with_ready os queues = record os { sched = record os.sched { mlq_ready_queue = queues } }

-- How many processes of the priorities from `p` on have the name.
unfoldable pub named_total : (ℕ → Bool) → (ℕ → List ℕ) → ℕ → ℕ → ℕ
named_total named waiting zero p = 0
named_total named waiting (suc n) p =
    named_count named (waiting p) + named_total named waiting n (p + 1)

-- How often the processes of the name stand in the lists of these priorities.
unfoldable pub all_times : (ℕ → Bool) → (ℕ → List ℕ) → ℕ → ℕ → ℕ → ℕ
all_times named waiting zero p k = 0
all_times named waiting (suc n) p k =
    all_times named waiting n (p + 1) k + times named (waiting p) k

pub released_os_no_times : (t : ℕ → ℕ) (os : Os) → ((k : ℕ) → t k ≡ 0) → os ≡ released_os t os
unfolding repeat
released_os_no_times t os none = ap (λ u. released_os u os) (fun_ext (λ (k : ℕ). sym (none k)))

module _ (junk : List (Option ℕ)) (name : List ℕ) (named : ℕ → Bool) (waiting : ℕ → List ℕ)
    (whole : length junk ≡ max_queue_size) where
  -- The loop from priority `p` on leaves the survivors, and the queues below `p` as they are.
  pub purge_ready-Survivors :
      (n p terminated : ℕ) (os : Os) (queues : ℕ → Queue ℕ)
      → is_named os.procs name ≡ named
      → ((k : ℕ) → p ≤ k → k < p + n → Represents (queues k) (waiting k))
      → ((k : ℕ) → p ≤ k → k < p + n → All (Ready os.procs os.freed name k) (waiting k))
      → (after : ℕ → Queue ℕ) × (purge_ready junk name n p terminated (with_ready os queues)
          ≡ ok (
            terminated + named_total named waiting n p,
            with_ready (released_os (all_times named waiting n p) os) after,
          ))
        × ((k : ℕ) → p ≤ k → k < p + n → Represents (after k) (survivors named (waiting k)))
        × ((k : ℕ) → k < p → after k ≡ queues k)
  unfolding purge_ready named_total all_times
  purge_ready-Survivors zero p terminated os queues agrees r ready = (
    queues,
    (let zero_more : terminated ≡ terminated + 0 = omega arith in
          ap (λ t. ok (t, with_ready os queues)) zero_more)
        ∙ ap (λ o. ok (terminated + 0, with_ready o queues))
            (released_os_no_times (all_times named waiting zero p) os (λ k. refl)),
    λ k a b. absurd (omega arith),
    λ k a. refl,
  )
  purge_ready-Survivors (suc n) p terminated os queues agrees r ready =
      let (q, run, r') =
        purge-Survivors junk name named p terminated (waiting p) (queues p) (with_ready os queues)
          whole agrees (r p (omega arith) (omega arith)) (ready p (omega arith) (omega arith)) in
      let freed = released_os (times named (waiting p)) os in
      let (after, rest, later, below) =
        purge_ready-Survivors n (p + 1) (terminated + named_count named (waiting p)) freed
          (update queues p q) (is_named-released_os (times named (waiting p)) os name ∙ agrees)
          (λ k a b.
            subst (λ x. Represents x (waiting k)) (sym (update_other queues p q k (ground arith)))
              (r k (omega arith) (omega arith)))
          (λ k a b.
            All-map (Ready os.procs os.freed name k) (Ready freed.procs os.freed name k) (waiting k)
              (Ready-released_os (times named (waiting p)) os name k)
              (ready k (omega arith) (omega arith))) in
      let total : terminated + named_count named (waiting p) + named_total named waiting n (p + 1)
          ≡ terminated + (named_count named (waiting p) + named_total named waiting n (p + 1)) =
        omega arith in
      (
        after,
        >>=-step _ run
            ∙ rest
            ∙ ap
                (λ o. ok (
                  terminated + named_count named (waiting p) + named_total named waiting n (p + 1),
                  with_ready o after,
                ))
                (released_os_twice (all_times named waiting n (p + 1)) (times named (waiting p)) os)
            ∙ ap
                (λ t. ok (
                  t,
                  with_ready
                      (released_os
                        (λ k. all_times named waiting n (p + 1) k + times named (waiting p) k) os)
                      after,
                ))
                total,
        λ k a b. elim (ℕ_discrete p k) [
          | yes here ↦
              subst (λ i. Represents (after i) (survivors named (waiting i))) here
                (subst (λ x. Represents x (survivors named (waiting p)))
                  (sym (below p (omega arith) ∙ update_self queues p q)) r')
          | no other ↦ later k (omega arith) (omega arith)
        ],
        λ k a. below k (omega arith) ∙ update_other queues p q k (ground arith),
      )
