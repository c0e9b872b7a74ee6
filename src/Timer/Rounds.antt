-- ===== src/Timer/Rounds.antt =====
-- A round of the timer, when every device has called `next_slot` or is detached.
use osassignment_hk.Base.{
  ◌≢◌, sym, subst, ◌∙◌, update_self, update_other, ℕ_discrete, ℕ, zero, suc, ◌+◌, ◌≤◌, ◌<◌, ◌≡◌,
  refl, ◌⊎◌, inl, inr, true, false, ◌==◌, update, Bool-cases, arith,
}
use osassignment_hk.Timer.{
  Device, testing, collecting, releasing, ended, Timer, ready, counted, reset, after_round,
}
use osassignment_hk.Timer.Steps.{
  at_phase, tick, begin, collect, advance, release, finish, Alone, rest, move,
}

pub Alone-Alone : {s t u : Timer} → Alone s t → Alone t u → Alone s u
Alone-Alone r rest = r
Alone-Alone r (move p st mine) = move (Alone-Alone r p) st mine

abbrev pub AllReady : Timer → Type 0
AllReady t = (i : ℕ) → i < t.attached → ready (t.devices i) ≡ true

-- The rounds of the first loop from device `k` down.
collects :
    (k fsh event : ℕ) (t : Timer)
    → k ≤ t.attached
    → AllReady t
    → t.asleep ≡ false
    → (fsh' : ℕ) × (event' : ℕ) × Alone
        (at_phase t (collecting k fsh event))
        (at_phase t (collecting 0 fsh' event'))
collects zero fsh event t le all up = (fsh, event, rest)
collects (suc k) fsh event t le all up =
    let (fsh', event', r) =
      collects k (counted (t.devices k) fsh) (event + 1) t (omega arith) all up in
    (
      fsh',
      event',
      Alone-Alone (move rest (collect k fsh event refl (all k (omega arith)) up refl) refl) r,
    )

-- What the second loop leaves of a device.
abbrev pub LetGo : Device → Device → Type 0
LetGo d e = (e.done ≡ false) × (e.asleep ≡ false) × (e.place ≡ d.place) × (e.fsh ≡ d.fsh)

-- The rounds of the second loop: the devices below `k` are let go, and those above stay.
pub releases :
    (k fsh event : ℕ) (t : Timer)
    → (devices : ℕ → Device) × Alone
        (at_phase t (releasing k fsh event))
        (record t { devices = devices; phase = releasing 0 fsh event })
      × ((i : ℕ) → i < k → LetGo (t.devices i) (devices i))
      × ((i : ℕ) → k ≤ i → devices i ≡ t.devices i)
releases zero fsh event t = (t.devices, rest, λ i lt. absurd (omega arith), λ i le. refl)
releases (suc k) fsh event t =
    let later = record t { devices = update t.devices k (reset (t.devices k)) } in
    let (devices, r, freed, same) = releases k fsh event later in
    let others : (i : ℕ) → k ≢ i → later.devices i ≡ t.devices i =
      update_other t.devices k (reset (t.devices k)) in
    (
      devices,
      Alone-Alone (move rest (release k fsh event refl refl) refl) r,
      λ i lt. elim (ℕ_discrete k i) [
        | yes e ↦
            let own : devices k ≡ reset (t.devices k) =
              same k (omega arith) ∙ update_self t.devices k (reset (t.devices k)) in
            subst (λ j. LetGo (t.devices j) (devices j)) e
              (subst (LetGo (t.devices k)) (sym own) (refl, refl, refl, refl))
        | no ne ↦ subst (λ d. LetGo d (devices i)) (others i ne) (freed i (omega arith))
      ],
      λ i le. same i (omega arith) ∙ others i (omega arith),
    )

-- From the first loop on, with every device ready, to the end of the round.
pub collecting_ends :
    (k fsh event : ℕ) (t : Timer)
    → k ≤ t.attached
    → AllReady t
    → t.asleep ≡ false
    → (u : Timer) × Alone (at_phase t (collecting k fsh event)) u
      × (u.time ≡ t.time + 1)
      × (u.attached ≡ t.attached)
      × ((i : ℕ) → i < t.attached → LetGo (t.devices i) (u.devices i))
      × ((u.phase ≡ testing) ⊎ (u.phase ≡ ended))
collecting_ends k fsh event t le all up =
    let (fsh', event', collected) = collects k fsh event t le all up in
    let ticked = tick (at_phase t (collecting 0 fsh' event')) fsh' event' in
    let (devices, released, freed, _) = releases t.attached fsh' event' ticked in
    let last = record ticked { devices = devices; phase = releasing 0 fsh' event' } in
    (
      at_phase last (after_round fsh' event'),
      move (Alone-Alone (move collected (advance fsh' event' refl refl) refl) released)
          (finish fsh' event' refl refl) refl,
      refl,
      refl,
      freed,
      elim (Bool-cases (fsh' == event')) [ inl e ↦ inr (rw e refl) | inr e ↦ inl (rw e refl) ],
    )

-- If the timer is at the start of a round, awake, `stop_timer` was not called, and every device has
-- called `next_slot` or is detached, then steps of the timer alone lead to the end of the round:
-- the clock has gone on by one, every device has its `done` reset and does not sleep, and is where
-- it was otherwise, and the timer starts the next round or ends.
pub round_ends :
    (t : Timer)
    → t.phase ≡ testing
    → t.timer_stop ≡ false
    → t.asleep ≡ false
    → AllReady t
    → (u : Timer) × Alone t u
      × (u.time ≡ t.time + 1)
      × (u.attached ≡ t.attached)
      × ((i : ℕ) → i < t.attached → LetGo (t.devices i) (u.devices i))
      × ((u.phase ≡ testing) ⊎ (u.phase ≡ ended))
round_ends t p s up all =
    let (u, alone, time, same, freed, last) =
      collecting_ends t.attached 0 0 t (omega arith) all up in
    (u, Alone-Alone (move rest (begin p s refl) refl) alone, time, same, freed, last)
