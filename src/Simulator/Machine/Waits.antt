-- ===== src/Simulator/Machine/Waits.antt =====
-- How long a process waits in src/sched.c while the threads of src/os.c take their steps.
use osassignment_hk.Base.{
  ℕ, suc, ◌+◌, ◌≤◌, ◌<◌, ◌≡◌, refl, sym, ap, subst, ◌∙◌, ◌≢◌, ◌⊎◌, inl, inr, ltb, update-all, List,
  [], ◌∷◌, ◌++◌, Option, some, ok, update, Holds, Holds-if, arith,
}
use osassignment_hk.Queue.{enqueue}
use osassignment_hk.Queue.Represents.{Represents, queued, queued_behind, enqueue-queued}
use osassignment_hk.Sched.{Sched, max_prio, get_locked, put_mlq_proc, add_mlq_proc}
use osassignment_hk.Sched.Valid.{View, IsValid}
use osassignment_hk.Sched.Turns.{get_locked-Turns}
use osassignment_hk.Sched.Wait.{wait, Turn-Sooner}
use osassignment_hk.Simulator.Machine.{listed}
use osassignment_hk.Simulator.Machine.Room.{Represents-unique}

-- Every queue stays, or a process is put behind it, and the policy stays.
pub record Grows (s t : Sched ℕ) : Type 0 where
  pub prio_eq : t.curr_prio ≡ s.curr_prio
  pub slot_eq : t.curr_slot ≡ s.curr_slot
  pub queue :
      (p : ℕ)
      → (t.mlq_ready_queue p ≡ s.mlq_ready_queue p)
        ⊎ ((b : ℕ) × (t.mlq_ready_queue p ≡ enqueue (s.mlq_ready_queue p) (some b)))

-- The first part of `put_proc` and of `add_proc`.
pub listed-Grows : (h : ℕ) (s : Sched ℕ) → Grows s (listed h s)
listed-Grows h s = record { prio_eq = refl; slot_eq = refl; queue = λ p. inl refl }

put-Grows :
    (prio : ℕ → ℕ) (b : ℕ) (s : Sched ℕ)
    → Grows s (record s {
      mlq_ready_queue =
          update s.mlq_ready_queue (prio b) (enqueue (s.mlq_ready_queue (prio b)) (some b));
    })
put-Grows prio b s = record {
  prio_eq = refl;
  slot_eq = refl;
  queue =
      update-all
        (λ p q.
          (q ≡ s.mlq_ready_queue p) ⊎ ((b : ℕ) × (q ≡ enqueue (s.mlq_ready_queue p) (some b))))
        s.mlq_ready_queue (prio b) _ (inr (b, refl)) (λ p ne. inl refl);
}

pub put_mlq_proc-Grows :
    (prio : ℕ → ℕ) (b : ℕ) (s : Sched ℕ) → Holds (Grows s) (put_mlq_proc prio b s)
unfolding put_mlq_proc
put_mlq_proc-Grows prio b s =
    Holds-if (Grows s) (ltb (prio b) max_prio) _ _ (λ e. put-Grows prio b s) (λ e. tt)

pub add_mlq_proc-Grows :
    (prio : ℕ → ℕ) (b : ℕ) (s : Sched ℕ) → Holds (Grows s) (add_mlq_proc prio b s)
unfolding add_mlq_proc
add_mlq_proc-Grows prio b s =
    Holds-if (Grows s) (ltb (prio b) max_prio) _ _ (λ e. put-Grows prio b s) (λ e. tt)

-- The current priority and what is left of its budget.
abbrev pub policy_of : Sched ℕ → View ℕ
policy_of s = record { ready = λ p. []; running = []; prio = s.curr_prio; slot = s.curr_slot }

-- `h` waits at `p`, and what it has to wait with the `n` turns that were is `bound` at most.
pub record Queued (h p bound n : ℕ) (s : Sched ℕ) : Type 0 where
  pub front : List ℕ
  pub back : List ℕ
  pub holds : Represents (s.mlq_ready_queue p) (front ++ h ∷ back)
  pub sooner : n + wait (policy_of s) p front ≤ bound

pub Queued-Grows :
    {h p bound n : ℕ} {s t : Sched ℕ} → Queued h p bound n s → Grows s t → Queued h p bound n t
Queued-Grows {h} {p} {bound} {n} {s} {t} q g =
    let same : wait (policy_of s) p q.front ≡ wait (policy_of t) p q.front = λ i.
      wait
        (record { ready = λ p. []; running = []; prio = sym g.prio_eq i; slot = sym g.slot_eq i }) p
        q.front in
    elim (g.queue p) [
      | inl stays ↦ record {
        front = q.front;
        back = q.back;
        holds = subst (λ x. Represents x (q.front ++ h ∷ q.back)) (sym stays) q.holds;
        sooner = omega (arith, same, q.sooner);
      }
      | inr (b, grown) ↦
          let (back, placed) = queued_behind b h q.front q.back in
          record {
            front = q.front;
            back = back;
            holds = subst (Represents (t.mlq_ready_queue p)) placed (
                subst (λ x. Represents x (queued b (q.front ++ h ∷ q.back))) (sym grown)
                  (enqueue-queued b q.holds));
            sooner = omega (arith, same, q.sooner);
          }
    ]

policy_wait :
    {prio : ℕ → ℕ} {s : Sched ℕ} {v : View ℕ}
    → IsValid prio s v
    → (p : ℕ) (front : List ℕ) → wait v p front ≡ wait (policy_of s) p front
policy_wait valid p front = λ i.
    wait
      (record {
        ready = λ p. [];
        running = [];
        prio = sym valid.prio_eq i;
        slot = sym valid.slot_eq i;
      })
      p front

-- A process that waits in a valid scheduler.
pub wait-Queued :
    {prio : ℕ → ℕ} {s : Sched ℕ} {v : View ℕ} {p : ℕ}
    → IsValid prio s v
    → p < max_prio
    → (h : ℕ) (front back : List ℕ) → v.ready p ≡ front ++ h ∷ back
    → Queued h p (wait v p front) 0 s
wait-Queued {s} {p = p} valid b h front back place = record {
  front = front;
  back = back;
  holds = subst (Represents (s.mlq_ready_queue p)) place (valid.holds p b);
  sooner = omega (arith, policy_wait valid p front);
}

pub Queued-get_locked :
    {prio : ℕ → ℕ} {h p bound n : ℕ} {s t : Sched ℕ} {v : View ℕ} (r : Option ℕ)
    → IsValid prio s v
    → p < max_prio
    → Queued h p bound n s
    → get_locked prio s ≡ ok (r, t)
    → r ≢ some h
    → Queued h p bound (suc n) t
Queued-get_locked {h} {p} {s} {t} {v} r valid b q e other =
    let (r', t', w, e', turn, valid') = get_locked-Turns valid in
    let same_r : r' ≡ r = cc in
    let same_t : t' ≡ t = cc in
    let before : wait v p q.front ≡ wait (policy_of s) p q.front = policy_wait valid p q.front in
    elim (Turn-Sooner p h q.front q.back valid.in_range valid'.in_range valid'.budget b
      (Represents-unique (valid.holds p b) q.holds) turn) [
        | inl given ↦ absurd (other (sym same_r ∙ given))
        | inr (front, back, place, less) ↦ record {
          front = front;
          back = back;
          holds =
              subst (λ (x : Sched ℕ). Represents (x.mlq_ready_queue p) (front ++ h ∷ back)) same_t
                (subst (Represents (t'.mlq_ready_queue p)) place (valid'.holds p b));
          sooner =
              let after : wait w p front ≡ wait (policy_of t) p front =
                policy_wait valid' p front ∙ ap (λ x. wait (policy_of x) p front) same_t in
              omega (arith, before, after, less, q.sooner);
        }
      ]
