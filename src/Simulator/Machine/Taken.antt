-- ===== src/Simulator/Machine/Taken.antt =====
-- Where the processes of src/os.c are once some have left the queues of src/sched.c.
use osassignment_hk.Base.{
  refl, ap, ℕ, ◌≤◌, ◌<◌, ◌≡◌, ◌≢◌, refl, sym, ap, subst, ◌∙◌, ◌⊎◌, inl, inr, Bool, false, update,
  update_other, update_self, update-all, ℕ_discrete, All, Option, none, some, arith,
}
use osassignment_hk.Sched.{max_prio}
use osassignment_hk.Sched.Valid.{View}
use osassignment_hk.Sched.Service.{Removes}
use osassignment_hk.Killall.Items.{occurrences}
use osassignment_hk.Simulator.Machine.Lists.{
  waits, waits-Removes, waits-Removes_other, waits-taken, waits-gone,
}
use osassignment_hk.Simulator.Machine.Places.{Places}

module _ {C : Type 0} {held : ℕ → Option ℕ} {freed : ℕ → Bool} {i : ℕ} {v : View ℕ}
    (places : Places C held freed i v) where
  -- What the CPUs hold once `c` has taken `a`.
  taken_cases :
      (c a d x : ℕ) → update held c (some a) d ≡ some x → ((c ≡ d) × (a ≡ x)) ⊎ (held d ≡ some x)
  taken_cases c a d x =
      update-all (λ d o. o ≡ some x → ((c ≡ d) × (a ≡ x)) ⊎ (held d ≡ some x)) held c (some a)
        (λ e. inl (refl, cc)) (λ d ne e. inr e) d

  -- A CPU that has no process takes one that waits.
  pub Places-take :
      (prio : ℕ → ℕ) (c : ℕ) {w : View ℕ} {a : ℕ}
      → ((p : ℕ) → All (λ x. prio x ≡ p) (v.ready p))
      → Removes v w a
      → held c ≡ none
      → Places C (update held c (some a)) freed i w
  Places-take prio c {w} {a} sorted r free_c =
      let fewer = waits-Removes r in
      let waited : 0 < waits v r.from a = omega (arith, waits-taken r) in
      let (born, live) = places.waiting r.from a waited in
      let gone = waits-gone r prio (λ p. places.once p a) sorted in
      let not_held : (d : ℕ) → held d ≢ some a =
        λ d e. absurd (omega (arith, waited, (places.holding d a e).2 r.from)) in
      record {
        once = λ p x. omega (arith, fewer p x, places.once p x);
        waiting = λ p x some_x. places.waiting p x (omega (arith, fewer p x, some_x));
        holding =
            update-all
              (λ d o.
                (x : ℕ) → o ≡ some x → (x < i) × (freed x ≡ false) × ((p : ℕ) → waits w p x ≡ 0))
              held c (some a)
              (λ x e.
                subst (λ y. (y < i) × (freed y ≡ false) × ((p : ℕ) → waits w p y ≡ 0)) (cc)
                  (born, live, gone))
              (λ d ne x e.
                let (b, l, none_x) = places.holding d x e in
                (b, l, λ p. omega (arith, fewer p x, none_x p)));
        apart = λ d k x e f. elim (taken_cases c a d x e) [
          | inl (here, it) ↦ elim (taken_cases c a k x f) [
            | inl (there, _) ↦ sym here ∙ there
            | inr old ↦ absurd (not_held k (old ∙ ap some (sym it)))
          ]
          | inr old ↦ elim (taken_cases c a k x f) [
            | inl (there, it) ↦ absurd (not_held d (old ∙ ap some (sym it)))
            | inr old' ↦ places.apart d k x old old'
          ]
        ];
        unborn = places.unborn;
        every = λ cond x lt. elim (places.every cond x lt) [
          | inl f ↦ inl f
          | inr (inl (d, e)) ↦ elim (ℕ_discrete c d) [
            | yes same ↦
                absurd (let e' : held c ≡ some x = subst (λ k. held k ≡ some x) (sym same) e in cc)
            | no other ↦ inr (inl (d, update_other held c (some a) d other ∙ e))
          ]
          | inr (inr (p, b, wt)) ↦ elim (ℕ_discrete a x) [
            | yes e ↦ inr (inl (c, update_self held c (some a) ∙ ap some e))
            | no ne ↦ inr (inr (p, b, omega (arith, wt, waits-Removes_other r p x ne)))
          ]
        ];
      }

  -- What the CPUs hold counts, and which processes wait.
  pub Places-fewer :
      {held' : ℕ → Option ℕ} {w : View ℕ}
      → held' ≡ held
      → ((p x : ℕ) → waits w p x ≤ waits v p x)
      → (C → (p x : ℕ) → p < max_prio → waits v p x ≤ waits w p x)
      → Places C held' freed i w
  Places-fewer {held'} {w} e fewer same =
      subst (λ g. Places C g freed i w) (sym e)
        (record {
          once = λ p x. omega (arith, fewer p x, places.once p x);
          waiting = λ p x some_x. places.waiting p x (omega (arith, fewer p x, some_x));
          holding = λ c x e.
              let (b, l, none_x) = places.holding c x e in
              (b, l, λ p. omega (arith, fewer p x, none_x p));
          apart = places.apart;
          unborn = places.unborn;
          every = λ cond x lt. elim (places.every cond x lt) [
            | inl f ↦ inl f
            | inr (inl held_by) ↦ inr (inl held_by)
            | inr (inr (p, b, wt)) ↦ inr (inr (p, b, omega (arith, wt, same cond p x b)))
          ];
        })

  -- Another view of the same queues.
  pub Places-same : {w : View ℕ} → w.ready ≡ v.ready → Places C held freed i w
  Places-same {w} same =
      let even : (p x : ℕ) → waits w p x ≡ waits v p x =
        λ p x. ap (λ r. occurrences x (r p)) same in
      Places-fewer refl (λ p x. omega (arith, even p x)) (λ cond p x b. omega (arith, even p x))
