-- ===== src/Timer/Signals.antt =====
-- The threads of src/timer.c that sleep, and the conditions that they wait for.
use osassignment_hk.Base.{
  ℕ, zero, suc, ◌<◌, ◌≡◌, refl, sym, subst, Bool, true, false, update, update-all, arith,
}
use osassignment_hk.Timer.{
  Device, Phase, testing, collecting, releasing, ended, Timer, stop_timer, next_slot,
  next_slot_return, detach_event, ready, reset, waits_for, signalled,
}
use osassignment_hk.Timer.Steps.{
  Step, call, sleep, stir, wake, detach, stop, begin, leave, doze, stir_timer, collect, advance,
  release, finish, Reach, here, next,
}

-- What holds of the devices if the timer sleeps at phase `p`.
abbrev pub Dozes : (ℕ → Device) → Phase → Type 0
Dozes devices (collecting (suc k) fsh event) = ready (devices k) ≡ false
Dozes devices (collecting zero fsh event) = ⊥
Dozes devices testing = ⊥
Dozes devices (releasing left fsh event) = ⊥
Dozes devices ended = ⊥

pub record Signals (t : Timer) : Type 0 where
  pub sleeps : (i : ℕ) → i < t.attached → (t.devices i).asleep ≡ true → (t.devices i).done ≡ true
  pub dozes : t.asleep ≡ true → Dozes t.devices t.phase

-- The timer does not sleep at any other phase.
awake :
    {A : Type 0} {t : Timer} (p : Phase)
    → (Dozes t.devices p → ⊥)
    → Signals t
    → t.phase ≡ p
    → t.asleep ≡ true
    → A
awake {t = t} p none s e a = absurd (none (subst (Dozes t.devices) e (s.dozes a)))

Dozes-update :
    (devices : ℕ → Device) (p : Phase) (i : ℕ) (d : Device)
    → (ready (devices i) ≡ false → (waits_for p i ≡ true) → ready d ≡ false)
    → Dozes devices p
    → Dozes (update devices i d) p
Dozes-update devices testing i d same z = z
Dozes-update devices (collecting zero fsh event) i d same z = z
Dozes-update devices (collecting (suc k) fsh event) i d same z =
    update-all (λ j e. k ≡ j → ready (devices j) ≡ false → ready e ≡ false) devices i d
      (λ at r. same r (ground (arith, at))) (λ j ne at r. r) k refl z
Dozes-update devices (releasing left fsh event) i d same z = z
Dozes-update devices ended i d same z = z

-- A device changes, and the timer goes on sleeping at most.
device-Signals :
    (t : Timer) (i : ℕ) (d : Device) (x : Bool)
    → (d.asleep ≡ true → d.done ≡ true)
    → (x ≡ true → t.asleep ≡ true)
    → (x ≡ true → ready (t.devices i) ≡ false → waits_for t.phase i ≡ true → ready d ≡ false)
    → Signals t
    → Signals (record t { devices = update t.devices i d; asleep = x })
device-Signals t i d x own less same s = record {
  sleeps =
      update-all (λ j e. j < t.attached → e.asleep ≡ true → e.done ≡ true) t.devices i d (λ _. own)
        (λ j ne. s.sleeps j);
  dozes = λ a. Dozes-update t.devices t.phase i d (same a) (s.dozes (less a));
}

pub Step-Signals : {t u : Timer} → Step t u → Signals t → Signals u
unfolding stop_timer
Step-Signals {t} (call i lt w e) s = subst Signals (sym e) (
    device-Signals t i (next_slot (t.devices i)) (signalled t i) (unfold next_slot in λ a. cc)
      (λ a. ground arith) (λ a r at. absurd (ground arith)) s)
Step-Signals {t} (sleep i lt w n a e) s = subst Signals (sym e) (
    device-Signals t i (record (t.devices i) { asleep = true }) t.asleep (λ _. n) (λ a. a)
      (λ a r at. r) s)
Step-Signals {t} (stir i lt a e) s = subst Signals (sym e) (
    device-Signals t i (record (t.devices i) { asleep = false }) t.asleep (λ a. cc) (λ a. a)
      (λ a r at. r) s)
Step-Signals {t} (wake i lt w n a e) s = subst Signals (sym e) (
    device-Signals t i (next_slot_return (t.devices i)) t.asleep
      (unfold next_slot_return in s.sleeps i lt) (λ a. a) (unfold next_slot_return in λ a r at. r)
      s)
Step-Signals {t} (detach i lt w e) s = subst Signals (sym e) (
    device-Signals t i (detach_event (t.devices i)) (signalled t i)
      (unfold detach_event in s.sleeps i lt) (λ a. ground arith) (λ a r at. absurd (ground arith))
      s)
Step-Signals (stop e) s = subst Signals (sym e) (record { sleeps = s.sleeps; dozes = s.dozes })
Step-Signals (begin p n e) s =
    subst Signals (sym e) (record { sleeps = s.sleeps; dozes = awake testing (λ z. z) s p })
Step-Signals (leave p n e) s =
    subst Signals (sym e) (record { sleeps = s.sleeps; dozes = awake testing (λ z. z) s p })
Step-Signals {t} (doze k fsh event p r a e) s =
    subst Signals (sym e)
      (record { sleeps = s.sleeps; dozes = λ _. subst (Dozes t.devices) (sym p) r })
Step-Signals (stir_timer a e) s =
    subst Signals (sym e) (record { sleeps = s.sleeps; dozes = λ a. cc })
Step-Signals (collect k fsh event p r up e) s =
    subst Signals (sym e) (record { sleeps = s.sleeps; dozes = λ a. cc })
Step-Signals (advance fsh event p e) s =
    subst Signals (sym e)
      (record { sleeps = s.sleeps; dozes = awake (collecting 0 fsh event) (λ z. z) s p })
Step-Signals {t} (release k fsh event p e) s = subst Signals (sym e) (record {
  sleeps =
      update-all (λ j e. j < t.attached → e.asleep ≡ true → e.done ≡ true) t.devices k
        (reset (t.devices k)) (λ _ a. cc) (λ j ne. s.sleeps j);
  dozes = awake (releasing (suc k) fsh event) (λ z. z) s p;
})
Step-Signals (finish fsh event p e) s =
    subst Signals (sym e)
      (record { sleeps = s.sleeps; dozes = awake (releasing 0 fsh event) (λ z. z) s p })

pub Reach-Signals : {s t : Timer} → Signals s → Reach s t → Signals t
Reach-Signals v here = v
Reach-Signals v (next r st) = Step-Signals st (Reach-Signals v r)
