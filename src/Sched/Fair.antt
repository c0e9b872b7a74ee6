-- ===== src/Sched/Fair.antt =====
-- No process waits for ever in src/sched.c: whatever `get_mlq_proc`, `put_proc` and `add_proc` do in
-- whatever order, the number of calls of `get_mlq_proc` before a process is given is bounded.
use osassignment_hk.Base.{
  ℕ, suc, length-append, ◌+◌, ◌*◌, ◌≤◌, ◌<◌, ◌≡◌, sym, ap, subst, ◌∙◌, ◌≢◌, inl, inr, update-all,
  List, ◌∷◌, ◌++◌, length, Option, some, Outcome, ok, dec_lt, arith,
}
use osassignment_hk.Queue.{max_queue_size}
use osassignment_hk.Queue.Represents.{queued, queued_behind, size-le}
use osassignment_hk.Sched.{Sched, max_prio, get_locked, put_proc, add_proc}
use osassignment_hk.Sched.Valid.{
  View, IsValid, put_view, put_proc-IsValid, put_proc-fault, add_proc-IsValid, add_proc-fault,
}
use osassignment_hk.Sched.Turns.{get_locked-Turns}
use osassignment_hk.Sched.Wait.{turns_round, lag_bound, wait, Turn-Sooner}

-- Calls from `s` to a scheduler: `n` of `get_mlq_proc`, from its lock on, which do not give `a`, and any
-- of the others, in any order.
pub data Calls {ℓ} {A : Type ℓ} (prio : A → ℕ) (a : A) (s : Sched A) : ℕ → Sched A → Type ℓ where
  begin : Calls prio a s 0 s
  gets :
      {n : ℕ} {t u : Sched A} (r : Option A)
      → Calls prio a s n t
      → get_locked prio t ≡ ok (r, u)
      → r ≢ some a
      → Calls prio a s (suc n) u
  puts :
      {n : ℕ} {t u : Sched A} (b : A)
      → Calls prio a s n t
      → put_proc prio b t ≡ ok u
      → Calls prio a s n u
  adds :
      {n : ℕ} {t u : Sched A} (b : A)
      → Calls prio a s n t
      → add_proc prio b t ≡ ok u
      → Calls prio a s n u

-- `a` waits at `p`, and what it has to wait with the `n` turns that were is `bound` at most.
pub record Waiting {ℓ} {A : Type ℓ} (prio : A → ℕ) (a : A) (p bound n : ℕ) (t : Sched A)
    : Type ℓ where
  pub view : View A
  pub valid : IsValid prio t view
  pub front : List A
  pub back : List A
  pub place : view.ready p ≡ front ++ a ∷ back
  pub sooner : n + wait view p front ≤ bound

module _ {ℓ} {A : Type ℓ} {prio : A → ℕ} {a : A} {p bound n : ℕ} {t : Sched A}
    (w : Waiting prio a p bound n t) where
  Waiting-get_locked :
      (r : Option A) (u : Sched A)
      → p < max_prio
      → get_locked prio t ≡ ok (r, u)
      → r ≢ some a
      → Waiting prio a p bound (suc n) u
  Waiting-get_locked r u b e other =
      let (r', u', v, e', turn, valid') = get_locked-Turns w.valid in
      let same : ◌≡◌ {A = Outcome (Option A × Sched A)} (ok (r', u')) (ok (r, u)) = sym e' ∙ e in
      let same_r : r' ≡ r = cc in
      let same_u : u' ≡ u = cc in
      elim (Turn-Sooner p a w.front w.back w.valid.in_range valid'.in_range valid'.budget b w.place
        turn) [
          | inl given ↦ absurd (other (sym same_r ∙ given))
          | inr (front, back, place, less) ↦ record {
            view = v;
            valid = subst (λ x. IsValid prio x v) same_u valid';
            front = front;
            back = back;
            place = place;
            sooner = omega (arith, less, w.sooner);
          }
        ]

  -- A process that is put stands behind the others.
  behind_place :
      (b : A) → (back : List A) × ((put_view prio b w.view).ready p ≡ w.front ++ a ∷ back)
  behind_place b =
      update-all
        (λ q l.
          w.view.ready q ≡ w.front ++ a ∷ w.back → (back : List A) × (l ≡ w.front ++ a ∷ back))
        w.view.ready (prio b) _
        (λ e.
          let (back, placed) = queued_behind b a w.front w.back in (back, ap (queued b) e ∙ placed))
        (λ q ne e. (w.back, e)) p w.place

  Waiting-put_view :
      (b : A) (u : Sched A) → IsValid prio u (put_view prio b w.view) → Waiting prio a p bound n u
  Waiting-put_view b u valid' =
      let (back, place) = behind_place b in
      record {
        view = put_view prio b w.view;
        valid = valid';
        front = w.front;
        back = back;
        place = place;
        sooner = w.sooner;
      }

  Waiting-put_proc : (b : A) (u : Sched A) → put_proc prio b t ≡ ok u → Waiting prio a p bound n u
  Waiting-put_proc b u e = elim (dec_lt (prio b) max_prio) [
    | yes in_array ↦
        let (u', e', valid') = put_proc-IsValid w.valid b in_array in
        Waiting-put_view b u (subst (λ x. IsValid prio x (put_view prio b w.view)) (cc) valid')
    | no over ↦ absurd (let f = put_proc-fault prio b t (omega arith) in cc)
  ]

  Waiting-add_proc : (b : A) (u : Sched A) → add_proc prio b t ≡ ok u → Waiting prio a p bound n u
  Waiting-add_proc b u e = elim (dec_lt (prio b) max_prio) [
    | yes in_array ↦
        let (u', e', valid') = add_proc-IsValid w.valid b in_array in
        Waiting-put_view b u (subst (λ x. IsValid prio x (put_view prio b w.view)) (cc) valid')
    | no over ↦ absurd (let f = add_proc-fault prio b t (omega arith) in cc)
  ]

module _ {ℓ} {A : Type ℓ} {prio : A → ℕ} {a : A} {s : Sched A} where
  Calls-Waiting :
      {p bound n : ℕ} {t : Sched A}
      → p < max_prio
      → Waiting prio a p bound 0 s
      → Calls prio a s n t
      → Waiting prio a p bound n t
  Calls-Waiting b w begin = w
  Calls-Waiting b w (gets {u = u} r c e other) =
      Waiting-get_locked (Calls-Waiting b w c) r u b e other
  Calls-Waiting b w (puts {u = u} x c e) = Waiting-put_proc (Calls-Waiting b w c) x u e
  Calls-Waiting b w (adds {u = u} x c e) = Waiting-add_proc (Calls-Waiting b w c) x u e

-- A process waits for fewer calls of `get_mlq_proc` than this.
abbrev pub patience_bound : ℕ
patience_bound = max_queue_size * (turns_round + 1)

-- If a process waits at a priority of a valid scheduler, then in any sequence of calls of
-- `get_mlq_proc` (from its lock on), `put_proc` and `add_proc`, in any order and with any
-- processes, in which no call gives that process, there are fewer than 197,410 calls of
-- `get_mlq_proc`, and after each the scheduler is valid and the process still waits there.
pub Calls-Bounded {ℓ} :
    {A : Type ℓ} {prio : A → ℕ} {s t : Sched A} {v : View A} {p n : ℕ} (a : A) (front back : List A)
    → IsValid prio s v
    → p < max_prio
    → v.ready p ≡ front ++ a ∷ back
    → Calls prio a s n t
    → (n < patience_bound)
      × (w : View A) × IsValid prio t w
      × (front' : List A) × (back' : List A) × (w.ready p ≡ front' ++ a ∷ back')
Calls-Bounded {prio} {t} {v} {p} {n} a front back valid b place calls =
    let small : length front < max_queue_size =
      omega (arith, size-le (valid.holds p b), ap length place, length-append front (a ∷ back)) in
    let bound = wait v p front in
    let w : Waiting prio a p bound n t =
      Calls-Waiting b
        (record {
          view = v;
          valid = valid;
          front = front;
          back = back;
          place = place;
          sooner = omega arith;
        })
        calls in
    (
      omega (arith, small, w.sooner, lag_bound v p valid.in_range valid.budget),
      w.view,
      w.valid,
      w.front,
      w.back,
      w.place,
    )
