-- ===== src/Sched/Wait.antt =====
-- How long a process waits in src/sched.c, counted in calls of `get_mlq_proc`.
use osassignment_hk.Base.{
  ℕ, ◌+◌, ◌-◌, ◌*◌, ◌≤◌, ◌<◌, ◌≡◌, refl, sym, ap, subst, ◌∙◌, ◌≢◌, ◌⊎◌, inl, inr, ◌==◌,
  if◌then◌else◌, update_self, update_other, List, [], ◌∷◌, ◌++◌, length, Option, some, ℕ_discrete,
  update, arith,
}
use osassignment_hk.Sched.{max_prio}
use osassignment_hk.Sched.Valid.{View}
use osassignment_hk.Sched.Policy.{MovesOn, Turn, nobody, stay, advance, wrap, miss, behind}
use osassignment_hk.Sched.Service.{patience, Turn-Progress}

-- More turns than it takes to come round to a priority.
abbrev pub turns_round : ℕ
turns_round = max_prio * (max_prio + 1)

module _ {ℓ} {A : Type ℓ} where
  -- The turns before the next process at `p`, at most.
  abbrev pub lag : View A → ℕ → ℕ
  lag v p = if p == v.prio then (if v.slot == 0 then turns_round else 0) else patience v p

  -- The turns before a process at `p` that has `front` before it, at most.
  abbrev pub wait : View A → ℕ → List A → ℕ
  wait v p front = length front * (turns_round + 1) + lag v p

  lag_other : (v : View A) (p : ℕ) → p ≢ v.prio → lag v p ≡ patience v p
  lag_other v p ne = ground arith

  lag_used : (v : View A) (p : ℕ) → p ≡ v.prio → v.slot ≡ 0 → lag v p ≡ turns_round
  lag_used v p here used = ground arith

  pub lag_bound :
      (v : View A) (p : ℕ) → v.prio < max_prio → v.slot ≤ max_prio - v.prio → lag v p ≤ turns_round
  lag_bound v p h b = elim (ℕ_discrete p v.prio) [
    | yes here ↦ ground arith
    | no ne ↦ omega (arith, lag_other v p ne)
  ]

  in_list : (front : List A) (a : A) (back : List A) → front ++ a ∷ back ≢ []
  in_list [] a back e = cc
  in_list (x ∷ front) a back e = cc

  -- Either `a` is given, or it is still at `p`, and has less to wait.
  abbrev pub Sooner : View A → Option A → View A → ℕ → A → List A → Type ℓ
  Sooner v r w p a front =
      (r ≡ some a)
      ⊎ ((front' : List A) × (back : List A) × (w.ready p ≡ front' ++ a ∷ back)
          × (wait w p front' < wait v p front))

  module _ (v w : View A) {r : Option A} (p : ℕ) (a : A) (back : List A) where
    -- The oldest process at `p` is given.
    shifted :
        (front : List A) (b : A) (rest : List A)
        → v.ready p ≡ front ++ a ∷ back
        → v.ready p ≡ b ∷ rest
        → r ≡ some b
        → w.ready p ≡ rest
        → lag w p ≤ turns_round
        → Sooner v r w p a front
    shifted [] b rest place first given left bound = inl (cc)
    shifted (x ∷ front) b rest place first given left bound =
        inr (front, back, cc, omega (arith, bound))

    -- The processes at `p` stay.
    kept :
        (front : List A)
        → v.ready p ≡ front ++ a ∷ back
        → w.ready p ≡ v.ready p
        → lag w p < lag v p
        → Sooner v r w p a front
    kept front place same less = inr (front, back, same ∙ place, omega (arith, less))

  -- A turn from another priority.
  Turn-Sooner_other :
      {v w : View A} {r : Option A} (p : ℕ) (a : A) (front back : List A)
      → v.prio < max_prio
      → w.prio < max_prio
      → w.slot ≤ max_prio - w.prio
      → p < max_prio
      → v.ready p ≡ front ++ a ∷ back
      → p ≢ v.prio
      → Turn v r w
      → Sooner v r w p a front
  Turn-Sooner_other {v} {w} p a front back h c d b place ne turn =
      let some_wait : v.ready p ≢ [] = λ e. in_list front a back (sym place ∙ e) in
      elim (Turn-Progress p h ne turn b some_wait) [
        | inl (x, rest, first, given, left) ↦
            shifted v w p a back front x rest place first given left (lag_bound w p c d)
        | inr (same, less, away) ↦
            kept v w p a back front place same
              (omega (arith, lag_other v p ne, lag_other w p away, less))
      ]

  -- The scheduler moves on from a priority where processes wait only if its budget is used up.
  used :
      (v : View A) (a : A) (front back : List A)
      → v.ready v.prio ≡ front ++ a ∷ back
      → MovesOn v
      → v.slot ≡ 0
  used v a front back place (inl spent) = spent
  used v a front back place (inr idle) = absurd (in_list front a back (sym place ∙ idle))

  -- The scheduler moves on to the priority `q`.
  left_for :
      (v w : View A) (q : ℕ)
      → v.prio < max_prio
      → q ≢ v.prio
      → v.slot ≡ 0
      → q < max_prio
      → w.prio ≡ q
      → w.slot ≡ max_prio - q - 1
      → lag w v.prio < lag v v.prio
  left_for v w q h away spent b e f =
      let away' : v.prio ≢ w.prio = λ z. away (omega (arith, e, z)) in
      omega (arith, lag_used v v.prio refl spent, lag_other w v.prio away', e, f)

  -- A turn from the priority at which the process waits.
  Turn-Sooner_here :
      {v w : View A} {r : Option A} (a : A) (front back : List A)
      → v.prio < max_prio
      → w.prio < max_prio
      → w.slot ≤ max_prio - w.prio
      → v.ready v.prio ≡ front ++ a ∷ back
      → Turn v r w
      → Sooner v r w v.prio a front
  Turn-Sooner_here {v} a front back h c d place (nobody idle e f) =
      absurd (in_list front a back (sym place ∙ idle v.prio h))
  Turn-Sooner_here {v} {w} a front back h c d place (stay x rest left first e f) =
      shifted v w v.prio a back front x rest place first e
        (ap (λ (t : View A). t.ready v.prio) f ∙ update_self v.ready v.prio rest)
        (lag_bound w v.prio c d)
  Turn-Sooner_here {v} {w} a front back h c d place (advance k x rest m q b passed first e f) =
      let away : behind v k ≢ v.prio = λ z. omega (arith, h, q, b, z) in
      kept v w v.prio a back front place
        (ap (λ (t : View A). t.ready v.prio) f ∙ update_other v.ready (behind v k) rest v.prio away)
        (left_for v w (behind v k) h away (used v a front back place m) (omega arith)
          (ap (λ (t : View A). t.prio) f) (ap (λ (t : View A). t.slot) f))
  Turn-Sooner_here {v} {w} a front back h c d place (wrap x rest m passed first e f) =
      elim (ℕ_discrete 0 v.prio) [
        | yes first_one ↦
            shifted v w v.prio a back front x rest place (ap v.ready (sym first_one) ∙ first) e
              (ap (λ (t : View A). t.ready v.prio) f
                ∙ ap (update v.ready 0 rest) (sym first_one)
                ∙ update_self v.ready 0 rest)
              (lag_bound w v.prio c d)
        | no away ↦
            kept v w v.prio a back front place
              (ap (λ (t : View A). t.ready v.prio) f ∙ update_other v.ready 0 rest v.prio away)
              (left_for v w 0 h away (used v a front back place m) (omega arith)
                (ap (λ (t : View A). t.prio) f) (ap (λ (t : View A). t.slot) f))
      ]
  Turn-Sooner_here {v} {w} a front back h c d place (miss m passed first e f) =
      let away : 0 ≢ v.prio = λ z. in_list front a back (sym place ∙ ap v.ready (sym z) ∙ first) in
      kept v w v.prio a back front place (ap (λ (t : View A). t.ready v.prio) f) (
        left_for v w 0 h away (used v a front back place m) (omega arith)
          (ap (λ (t : View A). t.prio) f) (ap (λ (t : View A). t.slot) f))

  pub Turn-Sooner :
      {v w : View A} {r : Option A} (p : ℕ) (a : A) (front back : List A)
      → v.prio < max_prio
      → w.prio < max_prio
      → w.slot ≤ max_prio - w.prio
      → p < max_prio
      → v.ready p ≡ front ++ a ∷ back
      → Turn v r w
      → Sooner v r w p a front
  Turn-Sooner {v} {w} {r} p a front back h c d b place turn = elim (ℕ_discrete v.prio p) [
    | no ne ↦ Turn-Sooner_other p a front back h c d b place (λ e. ne (sym e)) turn
    | yes here ↦
        subst (λ q. Sooner v r w q a front) here
          (Turn-Sooner_here a front back h c d (ap v.ready here ∙ place) turn)
  ]
