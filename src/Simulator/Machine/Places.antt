-- ===== src/Simulator/Machine/Places.antt =====
-- Where the processes of src/os.c are: each is with at most one CPU of `cpu_routine`, or waits in one
-- queue of src/sched.c, or is freed.
use osassignment_hk.Base.{
  ℕ, ◌+◌, ◌≤◌, ◌<◌, ◌≡◌, ◌≢◌, refl, sym, ap, subst, ◌∙◌, ◌⊎◌, inl, inr, Bool, true, false, update,
  update_other, update_self, length, update-all, ℕ_discrete, Option, none, some, arith,
}
use osassignment_hk.Queue.{max_queue_size}
use osassignment_hk.Sched.{max_prio}
use osassignment_hk.Killall.Items.{occurrences-All}
use osassignment_hk.Simulator.Machine.Room.{length-lt}
use osassignment_hk.Sched.Valid.{View, put_view}
use osassignment_hk.Simulator.Machine.Lists.{
  waits, waits-put_self, waits-put_other, waits-put_more, waits-put_in,
}

-- The process `h` was freed, or a CPU has it, or it waits.
abbrev pub Somewhere : (ℕ → Option ℕ) → (ℕ → Bool) → View ℕ → ℕ → Type 0
Somewhere held freed v h =
    (freed h ≡ true)
    ⊎ (((c : ℕ) × (held c ≡ some h)) ⊎ ((p : ℕ) × (p < max_prio) × (0 < waits v p h)))

-- What holds of the processes that the CPUs hold, that are freed, that are below `i`, that wait.
-- Under the condition `C` no process is lost.
pub record Places (C : Type 0) (held : ℕ → Option ℕ) (freed : ℕ → Bool) (i : ℕ) (v : View ℕ)
    : Type 0 where
  pub once : (p h : ℕ) → waits v p h ≤ 1
  pub waiting : (p h : ℕ) → 0 < waits v p h → (h < i) × (freed h ≡ false)
  pub holding :
      (c h : ℕ) → held c ≡ some h → (h < i) × (freed h ≡ false) × ((p : ℕ) → waits v p h ≡ 0)
  pub apart : (c d h : ℕ) → held c ≡ some h → held d ≡ some h → c ≡ d
  pub unborn : (h : ℕ) → i ≤ h → freed h ≡ false
  pub every : C → (h : ℕ) → h < i → Somewhere held freed v h

module _ {C : Type 0} {held : ℕ → Option ℕ} {freed : ℕ → Bool} {i : ℕ} {v : View ℕ}
    (places : Places C held freed i v) where
  -- A queue has fewer than ten processes, if ten were added at most and one of them is not there.
  roomy :
      (p h n : ℕ)
      → i ≤ n
      → h < n
      → n ≤ max_queue_size
      → waits v p h ≡ 0
      → length (v.ready p) < max_queue_size
  roomy p h n added born few gone =
      let small =
        occurrences-All (λ x. x < n) (v.ready p)
          (λ x some_x. omega (arith, (places.waiting p x some_x).0)) in
      omega (arith, length-lt (v.ready p) (places.once p) n small h born gone)

  -- Putting a process that waits nowhere.
  module _ (prio : ℕ → ℕ) (h : ℕ) (gone : (p : ℕ) → waits v p h ≡ 0) where
    put_once : (p x : ℕ) → waits (put_view prio h v) p x ≤ 1
    put_once p x = elim (ℕ_discrete h x) [
      | yes e ↦
          subst (λ y. waits (put_view prio h v) p y ≤ 1) e
            (omega (arith, waits-put_self prio h v p h refl, gone p))
      | no ne ↦ omega (arith, waits-put_other prio h v p x ne, places.once p x)
    ]

    put_waiting : (p x : ℕ) → 0 < waits (put_view prio h v) p x → (h ≡ x) ⊎ (0 < waits v p x)
    put_waiting p x some_x = elim (ℕ_discrete h x) [
      | yes e ↦ inl e
      | no ne ↦ inr (omega (arith, waits-put_other prio h v p x ne, some_x))
    ]

    put_none : (p x : ℕ) → h ≢ x → waits v p x ≡ 0 → waits (put_view prio h v) p x ≡ 0
    put_none p x ne e = omega (arith, waits-put_other prio h v p x ne, e)

  -- What the CPUs but `c` hold, if `c` gives up what it has.
  rest_holding : (c : ℕ) (d h : ℕ) → update held c none d ≡ some h → (c ≢ d) × (held d ≡ some h)
  rest_holding c =
      update-all (λ d o. (h : ℕ) → o ≡ some h → (c ≢ d) × (held d ≡ some h)) held c none (λ h e. cc)
        (λ d ne h e. (ne, e))

  rest_apart : (c d k h : ℕ) → update held c none d ≡ some h → update held c none k ≡ some h → d ≡ k
  rest_apart c d k h e f = places.apart d k h (rest_holding c d h e).1 (rest_holding c k h f).1

  module _ (c h : ℕ) (has : held c ≡ some h) where
    other_held : (d x : ℕ) → update held c none d ≡ some x → h ≢ x
    other_held d x e same =
        (rest_holding c d x e).0 (
          places.apart c d h has (subst (λ y. held d ≡ some y) (sym same) (rest_holding c d x e).1))

    still_held : (d x : ℕ) → h ≢ x → held d ≡ some x → update held c none d ≡ some x
    still_held d x ne e = elim (ℕ_discrete c d) [
      | yes same ↦
          absurd (let e' : held c ≡ some x = subst (λ k. held k ≡ some x) (sym same) e in ne (cc))
      | no other ↦ update_other held c none d other ∙ e
    ]

    -- The CPU `c` frees its process.
    pub Places-drop : Places C (update held c none) (update freed h true) i v
    Places-drop =
        let alive : (x : ℕ) → h ≢ x → freed x ≡ false → update freed h true x ≡ false =
          λ x ne e. update_other freed h true x ne ∙ e in
        let (born, live, gone) = places.holding c h has in
        record {
          once = places.once;
          waiting = λ p x some_x.
              let (a, b) = places.waiting p x some_x in
              (a, alive x (λ e. absurd (omega (arith, gone p, ap (waits v p) e, some_x))) b);
          holding = λ d x e.
              let (a, b, none_x) = places.holding d x (rest_holding c d x e).1 in
              (a, alive x (other_held d x e) b, none_x);
          apart = rest_apart c;
          unborn = λ x le. alive x (λ e. absurd (omega (arith, born, le, e))) (places.unborn x le);
          every = λ cond x lt. elim (ℕ_discrete h x) [
            | yes e ↦ inl (subst (λ y. update freed h true y ≡ true) e (update_self freed h true))
            | no ne ↦ elim (places.every cond x lt) [
              | inl f ↦ inl (update_other freed h true x ne ∙ f)
              | inr (inl (d, e)) ↦ inr (inl (d, still_held d x ne e))
              | inr (inr w) ↦ inr (inr w)
            ]
          ];
        }

    -- The CPU `c` gives its process back to the scheduler.
    pub Places-put :
        (prio : ℕ → ℕ)
        → prio h < max_prio
        → (C → i ≤ max_queue_size)
        → Places C (update held c none) freed i (put_view prio h v)
    Places-put prio bound few =
        let (born, live, gone) = places.holding c h has in
        record {
          once = put_once prio h gone;
          waiting = λ p x some_x. elim (put_waiting prio h gone p x some_x) [
            | inl e ↦ subst (λ y. (y < i) × (freed y ≡ false)) e (born, live)
            | inr more ↦ places.waiting p x more
          ];
          holding = λ d x e.
              let (a, b, none_x) = places.holding d x (rest_holding c d x e).1 in
              (a, b, λ p. put_none prio h gone p x (other_held d x e) (none_x p));
          apart = rest_apart c;
          unborn = places.unborn;
          every = λ cond x lt. elim (ℕ_discrete h x) [
            | yes e ↦
                let room = roomy (prio h) h i (omega arith) born (few cond) (gone (prio h)) in
                inr (
                  inr (
                    prio h,
                    bound,
                    subst (λ y. 0 < waits (put_view prio h v) (prio h) y) e
                        (waits-put_in prio h v room),
                  ))
            | no ne ↦ elim (places.every cond x lt) [
              | inl f ↦ inl f
              | inr (inl (d, e)) ↦ inr (inl (d, still_held d x ne e))
              | inr (inr (p, b, w)) ↦
                  inr (inr (p, b, omega (arith, w, waits-put_more prio h v p x)))
            ]
          ];
        }

  -- A process that is not added yet waits nowhere.
  pub Places-unborn : (p : ℕ) → waits v p i ≡ 0
  Places-unborn p = elim (ℕ_discrete (waits v p i) 0) [
    | yes e ↦ e
    | no ne ↦ absurd (omega (arith, (places.waiting p i (omega arith)).0))
  ]

  -- The loader adds the process `i`.
  pub Places-add :
      (prio : ℕ → ℕ)
      → prio i < max_prio
      → (C → i < max_queue_size)
      → Places C held freed (i + 1) (put_view prio i v)
  Places-add prio bound few =
      let gone : (p : ℕ) → waits v p i ≡ 0 = Places-unborn in
      record {
        once = put_once prio i gone;
        waiting = λ p x some_x. elim (put_waiting prio i gone p x some_x) [
          | inl e ↦ (omega arith, subst (λ y. freed y ≡ false) e (places.unborn i (omega arith)))
          | inr more ↦ let (a, b) = places.waiting p x more in (omega (arith, a), b)
        ];
        holding = λ c x e.
            let (a, b, none_x) = places.holding c x e in
            (
              omega (arith, a),
              b,
              λ p. put_none prio i gone p x (λ e. absurd (omega (arith, a, e))) (none_x p),
            );
        apart = places.apart;
        unborn = λ x le. places.unborn x (omega arith);
        every = λ cond x lt. elim (ℕ_discrete i x) [
          | yes e ↦
              let small = few cond in
              let room =
                roomy (prio i) i (i + 1) (omega arith) (omega arith) (omega (arith, small))
                  (gone (prio i)) in
              inr (
                inr (
                  prio i,
                  bound,
                  subst (λ y. 0 < waits (put_view prio i v) (prio i) y) e
                      (waits-put_in prio i v room),
                ))
          | no ne ↦ elim (places.every cond x (omega arith)) [
            | inl f ↦ inl f
            | inr (inl held_by) ↦ inr (inl held_by)
            | inr (inr (p, b, w)) ↦ inr (inr (p, b, omega (arith, w, waits-put_more prio i v p x)))
          ]
        ];
      }
