-- ===== src/Sched/Service.antt =====
-- Turns of the policy seen by the processes that wait: what a turn takes, when it gives nothing though
-- a process waits, and how the wait is measured.
use osassignment_hk.Base.{
  ℕ, ◌+◌, ◌-◌, ◌*◌, ◌%◌, ◌<◌, ◌≡◌, refl, sym, ap, ◌∙◌, ◌≢◌, ◌⊎◌, inl, inr, update_self,
  update_other, List, [], ◌∷◌, Option, none, some, ℕ_discrete, dec_lt, subst, arith,
}
use osassignment_hk.Sched.{max_prio}
use osassignment_hk.Sched.Valid.{View}
use osassignment_hk.Sched.Policy.{Turn, nobody, stay, advance, wrap, miss, Passed, behind, served}

-- How many places the priority `p` lies behind the current one, round the end.
abbrev pub distance : ℕ → ℕ → ℕ
distance cur p = (p + max_prio - cur) % max_prio

module _ {ℓ} {A : Type ℓ} where
  -- The process at the head of a list, as `get_mlq_proc` returns it.
  abbrev pub head : List A → Option A
  head [] = none
  head (a ∷ l) = some a

  -- At priority `p` the process `a` was the oldest and is gone; nothing else moved.
  pub record Removes (v w : View A) (a : A) : Type ℓ where
    pub from : ℕ
    pub taken : v.ready from ≡ a ∷ w.ready from
    pub kept : (p : ℕ) → from ≢ p → w.ready p ≡ v.ready p
    pub running : w.running ≡ v.running

  served-Removes :
      (v : View A) (p k : ℕ) (a : A) (rest : List A)
      → v.ready p ≡ a ∷ rest
      → Removes v (served v p rest k) a
  served-Removes v p k a rest e = record {
    from = p;
    taken = rw (update_self v.ready p rest) e;
    kept = update_other v.ready p rest;
    running = refl;
  }

  pub Passed-reaches :
      (v : View A)
      → v.prio < max_prio
      → Passed v max_prio
      → (p : ℕ) → p < max_prio
      → p ≢ v.prio
      → v.ready p ≡ []
  Passed-reaches v h passed p b ne =
      subst (λ q. v.ready q ≡ []) (omega arith)
        (passed (distance v.prio p) (omega arith) (omega arith))

  pub Turn-in-reach :
      {v w : View A} {r : Option A}
      → v.prio < max_prio
      → Turn v r w
      → ((r ≡ none) × (w.ready ≡ v.ready) × (w.running ≡ v.running))
        ⊎ ((a : A) × (r ≡ some a) × Removes v w a)
  Turn-in-reach h (nobody idle e f) =
      inl (e, ap (λ (t : View A). t.ready) f, ap (λ (t : View A). t.running) f)
  Turn-in-reach {v} h (stay a rest left front e f) =
      inr (a, e, rw f (served-Removes v v.prio (v.slot - 1) a rest front))
  Turn-in-reach {v} h (advance k a rest m p q passed front e f) =
      inr (a, e, rw f (served-Removes v (behind v k) (max_prio - behind v k - 1) a rest front))
  Turn-in-reach {v} h (wrap a rest m passed front e f) =
      inr (a, e, rw f (served-Removes v 0 (max_prio - 1) a rest front))
  Turn-in-reach h (miss m passed front e f) =
      inl (e, ap (λ (t : View A). t.ready) f, ap (λ (t : View A). t.running) f)

  -- A turn that gives no process, though one waits at `p`.
  pub Turn-misses :
      {v w : View A} {r : Option A} (p : ℕ)
      → v.prio < max_prio
      → Turn v r w
      → r ≡ none
      → p < max_prio
      → v.ready p ≢ []
      → (v.slot ≡ 0)
        × (p ≡ v.prio)
        × (v.prio ≢ 0)
        × (w ≡ record v { prio = 0; slot = max_prio - 1 })
  Turn-misses p h (nobody idle e f) g b waits = absurd (waits (idle p b))
  Turn-misses p h (stay a rest left front e f) g b waits = cc
  Turn-misses p h (advance k a rest m q c passed front e f) g b waits = cc
  Turn-misses p h (wrap a rest m passed front e f) g b waits = cc
  Turn-misses {v} p h (miss m passed front e f) g b waits = elim (ℕ_discrete p v.prio) [
    | no other ↦ absurd (waits (Passed-reaches v h passed p b other))
    | yes here ↦ elim m [
      | inr idle ↦ absurd (waits (subst (λ q. v.ready q ≡ []) (sym here) idle))
      | inl used ↦ (used, here, λ z. waits (subst (λ q. v.ready q ≡ []) (sym (here ∙ z)) front), f)
    ]
  ]

  -- How long the processes at `p` may wait, counted in turns of the policy.
  abbrev pub patience : View A → ℕ → ℕ
  patience v p = distance v.prio p * (max_prio + 1) + v.slot

  pub Turn-wastes :
      {v w : View A} {r : Option A} {a : A} {more : List A}
      → v.prio < max_prio
      → v.slot ≡ 0
      → v.prio ≢ 0
      → v.ready v.prio ≡ a ∷ more
      → ((p : ℕ) → p < max_prio → p ≢ v.prio → v.ready p ≡ [])
      → Turn v r w
      → (r ≡ none) × (w ≡ record v { prio = 0; slot = max_prio - 1 })
  Turn-wastes {v} h used not_first front alone (nobody idle e f) =
      let nobody_here : v.ready v.prio ≡ [] = idle v.prio h in cc
  Turn-wastes h used not_first front alone (stay b rest left front' e f) = absurd (omega arith)
  Turn-wastes {v} h used not_first front alone (advance k b rest m q c passed front' e f) =
      let nobody_there : v.ready (behind v k) ≡ [] =
        alone (behind v k) (omega arith) (omega arith) in
      cc
  Turn-wastes {v} h used not_first front alone (wrap b rest m passed front' e f) =
      let nobody_there : v.ready 0 ≡ [] = alone 0 (omega arith) (λ z. not_first (sym z)) in cc
  Turn-wastes h used not_first front alone (miss m passed front' e f) = (e, f)

  -- Either the oldest process at `p` is taken, or the patience of those there falls, and another
  -- priority is the current one.
  abbrev pub Progress : View A → Option A → View A → ℕ → Type ℓ
  Progress v r w p =
      ((a : A) × (rest : List A) × (v.ready p ≡ a ∷ rest) × (r ≡ some a) × (w.ready p ≡ rest))
      ⊎ ((w.ready p ≡ v.ready p) × (patience w p < patience v p) × (p ≢ w.prio))

  advance-Progress :
      (v : View A) (p k : ℕ) (a : A) (rest : List A)
      → v.prio < max_prio
      → p ≢ v.prio
      → 0 < k
      → k < max_prio
      → Passed v k
      → v.ready (behind v k) ≡ a ∷ rest
      → p < max_prio
      → v.ready p ≢ []
      → Progress v (some a) (served v (behind v k) rest (max_prio - behind v k - 1)) p
  advance-Progress v p k a rest h ne q c passed front b waits = elim (ℕ_discrete (behind v k) p) [
    | yes here ↦ inl (
      a,
      rest,
      subst (λ j. v.ready j ≡ a ∷ rest) here front,
      refl,
      rw (← here) (update_self v.ready (behind v k) rest),
    )
    | no other ↦ elim (dec_lt (distance v.prio p) k) [
      | yes skipped ↦ absurd (
          waits (
            subst (λ j. v.ready j ≡ []) (omega arith)
              (passed (distance v.prio p) (omega arith) skipped)))
      | no beyond ↦
          inr (update_other v.ready (behind v k) rest p other, omega arith, λ x. other (sym x))
    ]
  ]

  pub Turn-Progress :
      {v w : View A} {r : Option A} (p : ℕ)
      → v.prio < max_prio
      → p ≢ v.prio
      → Turn v r w
      → p < max_prio
      → v.ready p ≢ []
      → Progress v r w p
  Turn-Progress p h ne (nobody idle e f) b waits = absurd (waits (idle p b))
  Turn-Progress {v} p h ne (stay a rest left front e f) b waits =
      rw f (inr (update_other v.ready v.prio rest p (λ x. ne (sym x)), omega arith, ne))
  Turn-Progress {v} p h ne (advance k a rest m q c passed front e f) b waits =
      rw (e, f) (advance-Progress v p k a rest h ne q c passed front b waits)
  Turn-Progress {v} p h ne (wrap a rest m passed front e f) b waits =
      absurd (waits (Passed-reaches v h passed p b ne))
  Turn-Progress {v} p h ne (miss m passed front e f) b waits =
      absurd (waits (Passed-reaches v h passed p b ne))
