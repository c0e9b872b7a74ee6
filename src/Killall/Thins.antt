-- ===== src/Killall/Thins.antt =====
-- What the loops of src/sys_killall.c leave of a queue, whatever the processes are that it holds.
use osassignment_hk.Base.{
  ℕ, zero, suc, ◌+◌, ◌≤◌, ◌≡◌, refl, sym, subst, fun_ext, ◌∙◌, ◌⊎◌, inl, inr, ◌==◌, update-all,
  List, [], ◌∷◌, ◌++◌, length, length-append, Option, some, Holds, Holds-map, Holds-if, Holds->>=,
  Holds-any, if_true, if_false, >>=-step, arith,
}
use osassignment_hk.Mm.{Caller}
use osassignment_hk.Libmem.{libfree}
use osassignment_hk.Queue.{Queue, max_queue_size, enqueue}
use osassignment_hk.Queue.Represents.{Represents, size-le, empty_lem, enqueue-Represents}
use osassignment_hk.Process.{Os, prio_of, caller_of, put_caller}
use osassignment_hk.Killall.{same_text, Purge, free_regs, judge, purge_loop, purge}
use osassignment_hk.Killall.Items.{occurrences, occurrences-append}
use osassignment_hk.Killall.Cuts.{Cut, Cut-length, Cut-occurrences, dequeue-Cut}
use osassignment_hk.Killall.Survivors.{busy_queue}
use osassignment_hk.Killall.Running.{restore_loop-SameItems}

-- The priorities, the PCBs that are freed and the scheduler are as they were.
pub record SameSched (os after : Os) : Type 0 where
  pub prio : prio_of after ≡ prio_of os
  pub freed : after.freed ≡ os.freed
  pub sched : after.sched ≡ os.sched

pub SameSched-refl : (os : Os) → SameSched os os
SameSched-refl os = record { prio = refl; freed = refl; sched = refl }

pub SameSched-trans : {a b c : Os} → SameSched a b → SameSched b c → SameSched a c
SameSched-trans f g = record {
  prio = g.prio ∙ f.prio;
  freed = g.freed ∙ f.freed;
  sched = g.sched ∙ f.sched;
}

pub put_caller-SameSched :
    (os : Os) (h : ℕ) (caller : Caller) → SameSched os (put_caller os h caller)
put_caller-SameSched os h caller = record {
  prio = fun_ext (update-all (λ k p. p.prio ≡ prio_of os k) os.procs h _ refl (λ k ne. refl));
  freed = refl;
  sched = refl;
}

free_regs-SameSched : (os : Os) (h n j : ℕ) → Holds (SameSched os) (free_regs os h n j)
unfolding free_regs
free_regs-SameSched os h zero j = SameSched-refl os
free_regs-SameSched os h (suc n) j =
    Holds-if (SameSched os) ((os.procs h).regs j == 0) _ _ (λ e. free_regs-SameSched os h n (j + 1))
      (λ e.
        Holds-any (SameSched os) (libfree (caller_of os h) ((os.procs h).regs j)) _ (λ (_, caller).
          Holds-map (SameSched (put_caller os h caller)) (SameSched os)
            (free_regs (put_caller os h caller) h n (j + 1))
            (λ after f. SameSched-trans (put_caller-SameSched os h caller) f)
            (free_regs-SameSched (put_caller os h caller) h n (j + 1))))

-- What `judge` leaves: the process is put aside, or not.
record Judged (s : Purge) (h : ℕ) (after : Purge) : Type 0 where
  same : SameSched s.os after.os
  queue : after.queue ≡ s.queue
  aside : (after.temp ≡ s.temp) ⊎ (after.temp ≡ enqueue s.temp (some h))

judge-Judged : (name : List ℕ) (h : ℕ) (s : Purge) → Holds (Judged s h) (judge name h s)
unfolding judge
judge-Judged name h s =
    Holds-if (Judged s h) (s.os.freed h) _ _ (λ e. tt)
      (λ e.
        Holds-if (Judged s h) (same_text (s.os.procs h).path name) _ _
          (λ yes_named.
            Holds->>= (SameSched s.os) (Judged s h) (free_regs s.os h 10 0) _
              (free_regs-SameSched s.os h 10 0)
              (λ os f. record { same = f; queue = refl; aside = inl refl }))
          (λ not_named. record { same = SameSched-refl s.os; queue = refl; aside = inr refl }))

-- What a run of `purge_loop` leaves of a queue `l`, with the processes `kept` put aside before.
record Split (s : Purge) (l kept : List ℕ) (after : Purge) : Type 0 where
  same : SameSched s.os after.os
  left : List ℕ
  aside : List ℕ
  holds : Represents after.queue left
  puts : Represents after.temp aside
  fewer : (x : ℕ) → occurrences x left + occurrences x aside ≤ occurrences x l + occurrences x kept
  fits : length left + length aside ≤ length l + length kept

-- Nothing was done yet.
nothing-Split :
    (l kept : List ℕ) (s : Purge) → Represents s.queue l → Represents s.temp kept → Split s l kept s
nothing-Split l kept s r t = record {
  same = SameSched-refl s.os;
  left = l;
  aside = kept;
  holds = r;
  puts = t;
  fewer = λ x. omega arith;
  fits = omega arith;
}

-- One round, and what the others leave.
Cut-Split :
    (l others kept aside : List ℕ) (a : ℕ) (s s' after : Purge)
    → Cut l others a
    → SameSched s.os s'.os
    → ((x : ℕ) → occurrences x aside ≤ occurrences x kept + occurrences x (a ∷ []))
    → length aside ≤ suc (length kept)
    → Split s' others aside after
    → Split s l kept after
Cut-Split l others kept aside a s s' after c same few short d = record {
  same = SameSched-trans same d.same;
  left = d.left;
  aside = d.aside;
  holds = d.holds;
  puts = d.puts;
  fewer = λ x. omega (arith, d.fewer x, few x, Cut-occurrences c x);
  fits = omega (arith, d.fits, Cut-length c);
}

purge_loop-Split :
    (name : List ℕ) (n : ℕ) (l kept : List ℕ) (s : Purge)
    → Represents s.queue l
    → Represents s.temp kept
    → length l + length kept ≤ max_queue_size
    → Holds (Split s l kept) (purge_loop name n s)
unfolding purge_loop
purge_loop-Split name zero l kept s r t fits = nothing-Split l kept s r t
purge_loop-Split name (suc n) [] kept s r t fits =
    subst (Holds (Split s [] kept)) (sym (if_true _ _ (empty_lem r))) (nothing-Split [] kept s r t)
purge_loop-Split name (suc n) (h ∷ l) kept s r t fits =
    let (a, q, others, taken, c, r') = dequeue-Cut (prio_of s.os) h l r in
    let s0 = record s { queue = q } in
    subst (Holds (Split s (h ∷ l) kept)) (sym (if_false _ _ (busy_queue r) ∙ >>=-step _ taken)) (
      Holds->>= (Judged s0 a) (Split s (h ∷ l) kept) (judge name a s0) _ (judge-Judged name a s0)
        (λ s' j.
          let r'' : Represents s'.queue others =
            subst (λ q. Represents q others) (sym j.queue) r' in
          elim j.aside [
            | inl same ↦
                Holds-map (Split s' others kept) (Split s (h ∷ l) kept) (purge_loop name n s')
                  (λ after d.
                    Cut-Split (h ∷ l) others kept kept a s s' after c j.same (λ x. omega arith)
                      (omega arith) d)
                  (purge_loop-Split name n others kept s' r''
                    (subst (λ q. Represents q kept) (sym same) t) (omega (arith, Cut-length c)))
            | inr more ↦
                Holds-map (Split s' others (kept ++ a ∷ [])) (Split s (h ∷ l) kept)
                  (purge_loop name n s')
                  (λ after d.
                    Cut-Split (h ∷ l) others kept (kept ++ a ∷ []) a s s' after c j.same
                      (λ x. omega (arith, occurrences-append x kept (a ∷ [])))
                      (omega (arith, length-append kept (a ∷ []))) d)
                  (purge_loop-Split name n others (kept ++ a ∷ []) s' r''
                    (subst (λ q. Represents q (kept ++ a ∷ [])) (sym more)
                      (enqueue-Represents t a (omega arith)))
                    (omega (arith, Cut-length c, length-append kept (a ∷ []))))
          ]))

-- What the loops of `__sys_killall` leave of a queue.
pub record Thins (os : Os) (l : List ℕ) (r : Queue ℕ × ℕ × Os) : Type 0 where
  pub same : SameSched os r.2
  pub rest : List ℕ
  pub holds : Represents r.0 rest
  pub fewer : (x : ℕ) → occurrences x rest ≤ occurrences x l

pub purge-Thins :
    (temp : List (Option ℕ)) (name : List ℕ) (queue : Queue ℕ) (terminated : ℕ) (os : Os)
    (l : List ℕ)
    → length temp ≡ max_queue_size
    → Represents queue l
    → Holds (Thins os l) (purge temp name queue terminated os)
unfolding purge occurrences
purge-Thins temp name queue terminated os l whole r =
    let start : Purge = record {
      queue = queue;
      temp = record { proc = temp; size = 0 };
      terminated = terminated;
      os = os;
    } in
    let nothing : Represents start.temp [] = record {
      rest = temp;
      slots = refl;
      counted = refl;
      whole = whole;
    } in
    Holds->>= (Split start l []) (Thins os l) (purge_loop name queue.size start) _
      (purge_loop-Split name queue.size l [] start r nothing (omega (arith, size-le r)))
      (λ s d.
        let (after, m, back, r', same) =
          restore_loop-SameItems (prio_of s.os) s.temp.size d.aside d.left s.queue s.temp
            d.puts.counted d.holds d.puts (omega (arith, d.fits, size-le r)) in
        subst (Holds (Thins os l)) (sym (>>=-step _ back)) (record {
          same = d.same;
          rest = m;
          holds = r';
          fewer = λ x. omega (arith, same x, d.fewer x);
        }))
