-- ===== src/Timer/Invariant.antt =====
-- The invariant of the clock of src/timer.c.
use osassignment_hk.Base.{
  ℕ, ◌+◌, ◌≤◌, ◌<◌, ◌≡◌, subst, ◌⊎◌, inl, inr, Bool, true, false, ltb, update, ℕ_discrete, arith,
}
use osassignment_hk.Timer.{
  working, waiting, finished, Device, Phase, testing, collecting, releasing, ended, Timer, ready,
}
use osassignment_hk.Timer.Steps.{at_device}

-- Whether the timer has still to let a device go on.
abbrev pub pending : Phase → ℕ → Bool
pending (releasing left fsh event) i = ltb i left
pending _ i = false

-- What a device may be at a time: at work, in `next_slot` before the clock goes on, held there until the
-- timer lets it go, let go, or detached.
pub data Fits (time : ℕ) (held_back : Bool) (d : Device) : Type 0 where
  at_work :
      d.place ≡ working
      → d.done ≡ false
      → d.fsh ≡ false
      → held_back ≡ false
      → d.slots ≡ time
      → Fits time held_back d
  called :
      d.place ≡ waiting
      → d.done ≡ true
      → d.fsh ≡ false
      → held_back ≡ false
      → d.slots ≡ time
      → Fits time held_back d
  held :
      d.place ≡ waiting
      → d.done ≡ true
      → d.fsh ≡ false
      → held_back ≡ true
      → d.slots + 1 ≡ time
      → Fits time held_back d
  let_go :
      d.place ≡ waiting
      → d.done ≡ false
      → d.fsh ≡ false
      → held_back ≡ false
      → d.slots + 1 ≡ time
      → Fits time held_back d
  gone : d.place ≡ finished → d.fsh ≡ true → Fits time held_back d

-- Every device from number `left` on.
abbrev pub From : ℕ → Timer → (Device → Bool) → Type 0
From left t test = (i : ℕ) → left ≤ i → i < t.attached → test (t.devices i) ≡ true

-- What the timer knows where it is. If all that it counted were detached, they are.
abbrev pub Knows : Timer → Phase → Type 0
Knows t testing = Unit
Knows t (collecting left fsh event) =
    (left ≤ t.attached)
    × From left t ready
    × (fsh ≤ event)
    × (fsh ≡ event → From left t (λ d. d.fsh))
Knows t (releasing left fsh event) = (fsh ≤ event) × (fsh ≡ event → From 0 t (λ d. d.fsh))
Knows t ended = (t.timer_stop ≡ true) ⊎ From 0 t (λ d. d.fsh)

pub record IsValid (t : Timer) : Type 0 where
  pub fits : (i : ℕ) → i < t.attached → Fits t.time (pending t.phase i) (t.devices i)
  pub knows : Knows t t.phase

pub From-update :
    (left : ℕ) (t : Timer) (test : Device → Bool) (i : ℕ) (d : Device)
    → (test (t.devices i) ≡ true → test d ≡ true)
    → From left t test
    → From left (at_device t i d) test
From-update left t test i d keep all j le lt = elim (ℕ_discrete i j) [
  | yes e ↦
      subst (λ k. test (update t.devices i d k) ≡ true) e
        (ground (arith, keep, all i (omega arith) (omega arith)))
  | no ne ↦ ground (arith, all j le lt)
]

pub Knows-update :
    (t : Timer) (p : Phase) (i : ℕ) (d : Device)
    → (ready (t.devices i) ≡ true → ready d ≡ true)
    → ((t.devices i).fsh ≡ true → d.fsh ≡ true)
    → Knows t p
    → Knows (at_device t i d) p
Knows-update t testing i d r f k = tt
Knows-update t (collecting left fsh event) i d r f (lim, all, le, same) = (
  lim,
  From-update left t ready i d r all,
  le,
  λ e. From-update left t (λ d. d.fsh) i d f (same e),
)
Knows-update t (releasing left fsh event) i d r f (le, same) =
    (le, λ e. From-update 0 t (λ d. d.fsh) i d f (same e))
Knows-update t ended i d r f (inl stopped) = inl stopped
Knows-update t ended i d r f (inr all) = inr (From-update 0 t (λ d. d.fsh) i d f all)
