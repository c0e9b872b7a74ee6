-- ===== src/Sched/Promises.antt =====
-- `get_mlq_proc` seen by the processes that wait, for every valid state that a CPU may find.
use osassignment_hk.Base.{
  ℕ, ◌-◌, ◌<◌, ◌≡◌, sym, ap, subst, ◌∙◌, ◌≢◌, inl, inr, List, [], ◌∷◌, Option, none, some, Outcome,
  ok, Option-cases, refl,
}
use osassignment_hk.Sched.{Sched, max_prio, get_mlq_proc}
use osassignment_hk.Sched.Valid.{View, IsValid}
use osassignment_hk.Sched.Policy.{Turn}
use osassignment_hk.Sched.Turns.{get_mlq_proc-Turns}
use osassignment_hk.Sched.Service.{
  Removes, Progress, Turn-in-reach, Turn-misses, Turn-wastes, Turn-Progress,
}

module _ {ℓ} {A : Type ℓ} {prio : A → ℕ} {s : Sched A} {v : View A} (valid : IsValid prio s v) where
  -- The result of `get_mlq_proc` with its turn, where the result is known.
  Turn-of :
      (r : Option A) (s' : Sched A)
      → get_mlq_proc prio s ≡ ok (r, s')
      → (w : View A) × Turn v r w × IsValid prio s' w
  Turn-of r s' e =
      let (r', s'', w, e', t, valid') = get_mlq_proc-Turns valid in
      let same : ◌≡◌ {A = Outcome (Option A × Sched A)} (ok (r', s'')) (ok (r, s')) = sym e' ∙ e in
      let same_r : r' ≡ r = cc in
      let same_s : s'' ≡ s' = cc in
      (w, subst (λ x. Turn v x w) same_r t, subst (λ x. IsValid prio x w) same_s valid')

  -- If `get_mlq_proc` gives a process in a valid state, it was the oldest at its priority; it is
  -- not there any more, and every other process of every priority, and the running list, are as
  -- they were.
  pub get_mlq_proc-Removes :
      (a : A) (s' : Sched A)
      → get_mlq_proc prio s ≡ ok (some a, s')
      → (w : View A) × IsValid prio s' w × Removes v w a
  get_mlq_proc-Removes a s' e =
      let (w, t, valid') = Turn-of (some a) s' e in
      elim (Turn-in-reach valid.in_range t) [
        | inl (empty_handed, _, _) ↦ cc
        | inr (b, given, removed) ↦
            let same : b ≡ a = cc in (w, valid', subst (Removes v w) same removed)
      ]

  -- If `get_mlq_proc` gives NULL in a valid state though a process waits at some priority, then the
  -- budget is used up, that priority is the current one, and it is not 0.
  pub get_mlq_proc-miss :
      (s' : Sched A) (p : ℕ)
      → get_mlq_proc prio s ≡ ok (none, s')
      → p < max_prio
      → v.ready p ≢ []
      → (v.slot ≡ 0) × (p ≡ v.prio) × (v.prio ≢ 0)
  get_mlq_proc-miss s' p e b waits =
      let (w, t, valid') = Turn-of none s' e in
      let (used, here, not_first, _) = Turn-misses p valid.in_range t refl b waits in
      (used, here, not_first)

  -- In a valid state where a process waits at a priority other than the current one, `get_mlq_proc`
  -- returns, leaves a valid state, and either takes the oldest process of that priority, or leaves
  -- them all there with a smaller `patience`, and another priority is still the current one: the
  -- distance from the current priority, and then the budget, fall.
  pub get_mlq_proc-Progress :
      (p : ℕ)
      → p < max_prio
      → p ≢ v.prio
      → v.ready p ≢ []
      → (r : Option A) × (s' : Sched A) × (w : View A) × (get_mlq_proc prio s ≡ ok (r, s'))
        × IsValid prio s' w
        × Progress v r w p
  get_mlq_proc-Progress p b ne waits =
      let (r, s', w, e, t, valid') = get_mlq_proc-Turns valid in
      (r, s', w, e, valid', Turn-Progress p valid.in_range ne t b waits)

  -- In a valid state whose budget is used up at a current priority other than 0, where processes
  -- wait at that priority and at no other, `get_mlq_proc` gives NULL and leaves them all there,
  -- with priority 0 and its budget less one as the current ones.
  pub get_mlq_proc-wastes :
      (a : A) (more : List A)
      → v.slot ≡ 0
      → v.prio ≢ 0
      → v.ready v.prio ≡ a ∷ more
      → ((p : ℕ) → p < max_prio → p ≢ v.prio → v.ready p ≡ [])
      → (s' : Sched A) × (get_mlq_proc prio s ≡ ok (none, s'))
        × IsValid prio s' (record v { prio = 0; slot = max_prio - 1 })
  get_mlq_proc-wastes a more used not_first front alone =
      let (r, s', w, e, t, valid') = get_mlq_proc-Turns valid in
      let (empty_handed, reset) = Turn-wastes valid.in_range used not_first front alone t in
      (s', e ∙ ap (λ x. ok (x, s')) empty_handed, subst (IsValid prio s') reset valid')

  -- From the first priority on a turn is never wasted.
  get_from_first :
      (p : ℕ)
      → v.prio ≡ 0
      → p < max_prio
      → v.ready p ≢ []
      → (a : A) × (s' : Sched A) × (get_mlq_proc prio s ≡ ok (some a, s'))
  get_from_first p first b waits =
      let (r, s', w, e, t, valid') = get_mlq_proc-Turns valid in
      elim (Option-cases r) [
        | inl empty_handed ↦
            let (_, _, not_first, _) = Turn-misses p valid.in_range t empty_handed b waits in
            absurd (not_first first)
        | inr (a, given) ↦ (a, s', e ∙ ap (λ x. ok (x, s')) given)
      ]

module _ {ℓ} {A : Type ℓ} {prio : A → ℕ} {s : Sched A} {v : View A} (valid : IsValid prio s v) where
  -- If a process waits in a valid state and `get_mlq_proc` gives NULL, the next call of it, with no
  -- other in between, gives a process.
  pub get_mlq_proc-recovers :
      (p : ℕ) (s' : Sched A)
      → p < max_prio
      → v.ready p ≢ []
      → get_mlq_proc prio s ≡ ok (none, s')
      → (a : A) × (s'' : Sched A) × (get_mlq_proc prio s' ≡ ok (some a, s''))
  get_mlq_proc-recovers p s' b waits e =
      let (w, t, valid') = Turn-of valid none s' e in
      let (_, here, not_first, reset) = Turn-misses p valid.in_range t refl b waits in
      let still : w.ready p ≢ [] = λ z. waits (sym (ap (λ (x : View A). x.ready p) reset) ∙ z) in
      get_from_first valid' p (ap (λ (x : View A). x.prio) reset) b still
