-- ===== src/Timer/Liveness.antt =====
-- What the timer of src/timer.c does for the devices that wait for it.
use osassignment_hk.Base.{
  ℕ, zero, suc, ◌≤◌, ◌<◌, ◌≡◌, refl, sym, subst, ◌∙◌, ◌⊎◌, inl, inr, Bool, true, false, ◌==◌,
  ℕ_discrete, dec_lt, ap, Bool-cases, arith,
}
use osassignment_hk.Timer.{
  working, waiting, Device, Phase, testing, collecting, releasing, ended, Timer, ready, after_round,
}
use osassignment_hk.Timer.Steps.{at_phase, finish, Reach, here, next, Alone, rest, move}
use osassignment_hk.Timer.Invariant.{Fits, at_work, called, held, let_go, gone, Knows, IsValid}
use osassignment_hk.Timer.Barrier.{Reach-IsValid, at}
use osassignment_hk.Timer.Progress.{started, started-IsValid, started-Signals}
use osassignment_hk.Timer.Signals.{Signals, Dozes, Reach-Signals}
use osassignment_hk.Timer.Rounds.{
  AllReady, LetGo, Alone-Alone, releases, collecting_ends, round_ends,
}

-- A device that can make a step: it is at work, or it can return from `next_slot`.
abbrev pub CanMove : Timer → ℕ → Type 0
CanMove t i =
    (i < t.attached)
    × (((t.devices i).place ≡ working)
        ⊎ (((t.devices i).place ≡ waiting)
            × ((t.devices i).done ≡ false)
            × ((t.devices i).asleep ≡ false)))

no_doze : (t : Timer) (p : Phase) → Knows t p → AllReady t → Dozes t.devices p → ⊥
no_doze t testing known all z = z
no_doze t (collecting zero fsh event) known all z = z
no_doze t (collecting (suc k) fsh event) (lim, _, _, _) all z =
    let r = all k (omega (arith, lim)) in cc
no_doze t (releasing left fsh event) known all z = z
no_doze t ended known all z = z

module _ {t : Timer} (v : IsValid t) (s : Signals t) where
  device_cases :
      {time : ℕ} {b : Bool} (i : ℕ)
      → i < t.attached
      → Fits time b (t.devices i)
      → CanMove t i ⊎ (ready (t.devices i) ≡ true)
  device_cases i lt (at_work p n f b e) = inl (lt, inl p)
  device_cases i lt (called p n f b e) = inr (ground arith)
  device_cases i lt (held p n f b e) = inr (ground arith)
  device_cases i lt (let_go p n f b e) = elim (Bool-cases (t.devices i).asleep) [
    | inl a ↦ absurd (let d = s.sleeps i lt a in cc)
    | inr a ↦ inl (lt, inr (p, n, a))
  ]
  device_cases i lt (gone p f) = inr (ground arith)

  search_below :
      (n : ℕ)
      → n ≤ t.attached
      → ((i : ℕ) × CanMove t i) ⊎ ((i : ℕ) → i < n → ready (t.devices i) ≡ true)
  search_below zero le = inr (λ i lt. absurd (omega arith))
  search_below (suc n) le = elim (device_cases n (omega arith) (v.fits n (omega arith))) [
    | inl moves ↦ inl (n, moves)
    | inr own ↦ elim (search_below n (omega arith)) [
      | inl found ↦ inl found
      | inr below ↦ inr (λ i lt. elim (ℕ_discrete n i) [
        | yes e ↦ subst (λ j. ready (t.devices j) ≡ true) e own
        | no ne ↦ below i (omega arith)
      ])
    ]
  ]

  -- Some device can move, or all are ready.
  moves_or_ready : ((i : ℕ) × CanMove t i) ⊎ AllReady t
  moves_or_ready = search_below t.attached (omega arith)

  -- The timer does not sleep if all are ready.
  ready_awake : AllReady t → t.asleep ≡ false
  ready_awake all = elim (Bool-cases t.asleep) [
    | inl a ↦ absurd (no_doze t t.phase v.knows all (s.dozes a))
    | inr a ↦ a
  ]

-- Steps of the timer alone lead to a state in which a device can move.
abbrev pub LetsMove : Timer → Type 0
LetsMove t = (u : Timer) × Alone t u × (i : ℕ) × CanMove u i

pub Reach-Alone : {s t u : Timer} → Reach s t → Alone t u → Reach s u
Reach-Alone r rest = r
Reach-Alone r (move a st mine) = next (Reach-Alone r a) st

ready_waits :
    {time : ℕ} {b : Bool} {d : Device}
    → Fits time b d
    → ready d ≡ true
    → d.fsh ≡ false
    → d.place ≡ waiting
ready_waits (at_work p n f b e) r on = absurd (ground arith)
ready_waits (called p n f b e) r on = p
ready_waits (held p n f b e) r on = p
ready_waits (let_go p n f b e) r on = p
ready_waits (gone p f) r on = cc

module _ {t : Timer} (v : IsValid t) (s : Signals t) (going : t.timer_stop ≡ false) (i : ℕ)
    (lt : i < t.attached) (on : (t.devices i).fsh ≡ false) (all : AllReady t) where
  LetGo-moves :
      (u : Timer) → u.attached ≡ t.attached → LetGo (t.devices i) (u.devices i) → CanMove u i
  LetGo-moves u same (done, awake, place, fsh) =
      (omega arith, inr (place ∙ ready_waits (v.fits i lt) (all i lt) on, done, awake))

  ended_moves : t.phase ≡ ended → LetsMove t
  ended_moves e = elim ((at t ended v e).1) [
    | inl stopped ↦ cc
    | inr over ↦ absurd (let off = over i (omega arith) lt in cc)
  ]

  testing_moves : t.phase ≡ testing → LetsMove t
  testing_moves e =
      let (u, alone, _, same, freed, _) = round_ends t e going (ready_awake v s all) all in
      (u, alone, i, LetGo-moves u same (freed i lt))

  collecting_moves : (k fsh event : ℕ) → t.phase ≡ collecting k fsh event → LetsMove t
  collecting_moves k fsh event e =
      let (lim, _, _, _) = (at t (collecting k fsh event) v e).1 in
      let (u, alone, _, same, freed, _) =
        collecting_ends k fsh event t lim all (ready_awake v s all) in
      (
        u,
        subst (λ (x : Timer). Alone x u) (λ j. record t { phase = sym e j }) alone,
        i,
        LetGo-moves u same (freed i lt),
      )

module _ {t : Timer} (v : IsValid t) (s : Signals t) (going : t.timer_stop ≡ false) (i : ℕ)
    (lt : i < t.attached) (on : (t.devices i).fsh ≡ false) where
  -- After the second loop.
  after_release :
      (u : Timer)
      → Alone t u
      → u.timer_stop ≡ false
      → u.attached ≡ t.attached
      → (u.devices i).fsh ≡ false
      → (u.phase ≡ testing) ⊎ (u.phase ≡ ended)
      → LetsMove t
  after_release u alone still same on' at_end =
      let v' = Reach-IsValid v (Reach-Alone here alone) in
      let s' = Reach-Signals s (Reach-Alone here alone) in
      elim (moves_or_ready v' s') [
        | inl (j, moves) ↦ (u, alone, j, moves)
        | inr all ↦ elim at_end [
          | inr over ↦
              let (x, a, j, moves) = ended_moves v' s' still i (omega arith) on' all over in
              (x, Alone-Alone alone a, j, moves)
          | inl start ↦
              let (x, a, j, moves) = testing_moves v' s' still i (omega arith) on' all start in
              (x, Alone-Alone alone a, j, moves)
        ]
      ]

  releasing_moves : (k fsh event : ℕ) → t.phase ≡ releasing k fsh event → LetsMove t
  releasing_moves k fsh event e =
      let (devices, alone, freed, above) = releases k fsh event t in
      let last = record t { devices = devices; phase = releasing 0 fsh event } in
      after_release (at_phase last (after_round fsh event))
        (move (subst (λ (x : Timer). Alone x last) (λ j. record t { phase = sym e j }) alone)
          (finish fsh event refl refl) refl)
        going refl
        (elim (dec_lt i k) [
          | yes low ↦ let (_, _, _, fsh) = freed i low in fsh ∙ on
          | no high ↦ ap (λ (d : Device). d.fsh) (above i (omega arith)) ∙ on
        ])
        (elim (Bool-cases (fsh == event)) [ inl e ↦ inr (rw e refl) | inr e ↦ inl (rw e refl) ])

  by_phase : (p : Phase) → AllReady t → t.phase ≡ p → LetsMove t
  by_phase testing all e = testing_moves v s going i lt on all e
  by_phase (collecting k fsh event) all e = collecting_moves v s going i lt on all k fsh event e
  by_phase (releasing k fsh event) all e = releasing_moves k fsh event e
  by_phase ended all e = ended_moves v s going i lt on all e

  lets_move : LetsMove t
  lets_move = elim (moves_or_ready v s) [
    | inl (j, moves) ↦ (t, rest, j, moves)
    | inr all ↦ by_phase t.phase all refl
  ]

-- In every state that the threads can reach without `stop_timer`, and in which some device is not
-- detached, steps of the timer alone, or none, lead to a state in which some device is at work, or can
-- return from `next_slot`: it does not sleep, and its `done` was reset.
pub device_goes_on :
    (junk : ℕ → Device) (n : ℕ) (t : Timer)
    → Reach (started junk n) t
    → t.timer_stop ≡ false
    → (i : ℕ) → i < t.attached
    → (t.devices i).fsh ≡ false
    → LetsMove t
device_goes_on junk n t r going i lt on =
    lets_move (Reach-IsValid (started-IsValid junk n) r) (Reach-Signals (started-Signals junk n) r)
      going i lt on
