-- ===== src/Sched/Policy.antt =====
-- The policy of `get_mlq_proc`, on the abstract view of the scheduler.
use osassignment_hk.Base.{
  ℕ, ◌+◌, ◌-◌, ◌%◌, ◌<◌, ◌≡◌, ◌⊎◌, update, List, [], ◌∷◌, Option, none, some,
}
use osassignment_hk.Sched.{max_prio}
use osassignment_hk.Sched.Valid.{View}

module _ {ℓ} {A : Type ℓ} where
  -- The view after the oldest process at priority `p` is taken, with `k` turns left there.
  abbrev pub served : View A → ℕ → List A → ℕ → View A
  served v p rest k = record v { ready = update v.ready p rest; prio = p; slot = k }

  -- The priority that is `k` places behind the current one, round the end.
  abbrev pub behind : View A → ℕ → ℕ
  behind v k = (v.prio + k) % max_prio

  -- No process waits at the `n` priorities behind the current one.
  abbrev pub Passed : View A → ℕ → Type ℓ
  Passed v n = (k : ℕ) → 0 < k → k < n → v.ready (behind v k) ≡ []

  -- The budget at the current priority is used up, or nobody waits there.
  abbrev pub MovesOn : View A → Type ℓ
  MovesOn v = (v.slot ≡ 0) ⊎ (v.ready v.prio ≡ [])

  -- A turn of the policy: from the view `v` it gives `r` and leaves `w`.
  pub data Turn (v : View A) (r : Option A) (w : View A) : Type ℓ where
    nobody : ((p : ℕ) → p < max_prio → v.ready p ≡ []) → r ≡ none → w ≡ v → Turn v r w
    stay :
        (a : A) (rest : List A)
        → 0 < v.slot
        → v.ready v.prio ≡ a ∷ rest
        → r ≡ some a
        → w ≡ served v v.prio rest (v.slot - 1)
        → Turn v r w
    advance :
        (k : ℕ) (a : A) (rest : List A)
        → MovesOn v
        → 0 < k
        → k < max_prio
        → Passed v k
        → v.ready (behind v k) ≡ a ∷ rest
        → r ≡ some a
        → w ≡ served v (behind v k) rest (max_prio - behind v k - 1)
        → Turn v r w
    wrap :
        (a : A) (rest : List A)
        → MovesOn v
        → Passed v max_prio
        → v.ready 0 ≡ a ∷ rest
        → r ≡ some a
        → w ≡ served v 0 rest (max_prio - 1)
        → Turn v r w
    miss :
        MovesOn v
        → Passed v max_prio
        → v.ready 0 ≡ []
        → r ≡ none
        → w ≡ record v { prio = 0; slot = max_prio - 1 }
        → Turn v r w
