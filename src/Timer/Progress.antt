-- ===== src/Timer/Progress.antt =====
-- What the barrier gives the devices: one slot at a time.
use osassignment_hk.Base.{
  update-all, ℕ, zero, suc, ◌+◌, ◌<◌, ◌≡◌, ◌≢◌, refl, sym, ap, ◌∙◌, ◌⊎◌, inl, inr, Bool, true,
  false, arith,
}
use osassignment_hk.Timer.{
  working, waiting, Device, collecting, Timer, init, attach_event, start_timer, stop_timer, ready,
}
use osassignment_hk.Timer.Steps.{
  Step, call, sleep, stir, doze, stir_timer, wake, detach, stop, begin, leave, collect, advance,
  release, finish, attach_all, Reach,
}
use osassignment_hk.Timer.Barrier.{Reach-IsValid, at}
use osassignment_hk.Timer.Signals.{Signals}
use osassignment_hk.Timer.Invariant.{Fits, at_work, called, held, let_go, gone, IsValid}

-- What `attach_event` makes.
abbrev Fresh : Device → Type 0
Fresh d =
    (d.place ≡ working) × (d.done ≡ false) × (d.fsh ≡ false) × (d.asleep ≡ false) × (d.slots ≡ 0)

-- The state before `start_timer`.
record Attached (t : Timer) : Type 0 where
  fresh : (i : ℕ) → i < t.attached → Fresh (t.devices i)
  time : t.time ≡ 0
  off : t.timer_started ≡ false
  up : t.asleep ≡ false

attach_event-Attached : (t : Timer) → Attached t → Attached (attach_event t).1
unfolding attach_event
attach_event-Attached t a = rw a.off (record {
  fresh =
      update-all (λ i d. i < t.attached + 1 → Fresh d) t.devices t.attached
        (record { done = false; fsh = false; place = working; asleep = false; slots = 0 })
        (λ _. (refl, refl, refl, refl, refl)) (λ i ne lt. a.fresh i (omega arith));
  time = a.time;
  off = refl;
  up = a.up;
})

attach_all-Attached : (n : ℕ) (t : Timer) → Attached t → Attached (attach_all n t)
unfolding attach_all
attach_all-Attached zero t a = a
attach_all-Attached (suc n) t a =
    attach_all-Attached n (attach_event t).1 (attach_event-Attached t a)

-- The state in which `main` starts the other threads.
abbrev pub started : (ℕ → Device) → ℕ → Timer
started junk n = start_timer (attach_all n (init junk))

fresh-Fits : {time : ℕ} {d : Device} → time ≡ 0 → Fresh d → Fits time false d
fresh-Fits e (p, n, f, a, s) = at_work p n f refl (s ∙ sym e)

started-Attached : (junk : ℕ → Device) (n : ℕ) → Attached (attach_all n (init junk))
unfolding init
started-Attached junk n =
    attach_all-Attached n (init junk)
      (record { fresh = λ i lt. absurd (omega arith); time = refl; off = refl; up = refl })

pub started-IsValid : (junk : ℕ → Device) (n : ℕ) → IsValid (started junk n)
unfolding start_timer
started-IsValid junk n =
    let a = started-Attached junk n in
    record { fits = λ i lt. fresh-Fits a.time (a.fresh i lt); knows = tt }

-- Nobody sleeps at the start.
pub started-Signals : (junk : ℕ → Device) (n : ℕ) → Signals (started junk n)
unfolding start_timer
started-Signals junk n =
    let a = started-Attached junk n in
    record {
      sleeps = λ i lt e. let (_, _, _, awake, _) = a.fresh i lt in cc;
      dozes = λ e. let up = a.up in cc;
    }

pub reachable-IsValid :
    (junk : ℕ → Device) (n : ℕ) {t : Timer} → Reach (started junk n) t → IsValid t
reachable-IsValid junk n r = Reach-IsValid (started-IsValid junk n) r

-- A device at work has returned from as many calls of `next_slot` as there were ticks.
working_slots :
    {time : ℕ} {b : Bool} {d : Device} → Fits time b d → d.place ≡ working → d.slots ≡ time
working_slots (at_work p n f b s) w = s
working_slots (called p n f b s) w = cc
working_slots (held p n f b s) w = cc
working_slots (let_go p n f b s) w = cc
working_slots (gone p f) w = cc

-- A device in `next_slot` is at most one slot behind.
waiting_slots :
    {time : ℕ} {b : Bool} {d : Device}
    → Fits time b d
    → d.place ≡ waiting
    → (d.slots ≡ time) ⊎ (d.slots + 1 ≡ time)
waiting_slots (at_work p n f b s) w = cc
waiting_slots (called p n f b s) w = inl s
waiting_slots (held p n f b s) w = inr s
waiting_slots (let_go p n f b s) w = inr s
waiting_slots (gone p f) w = cc

-- In every state that the threads can reach, a device at work is in the slot that the clock shows, and a
-- device in `next_slot` is in that slot or in the one before.
pub same_slot :
    (junk : ℕ → Device) (n : ℕ) (t : Timer) (i : ℕ)
    → Reach (started junk n) t
    → i < t.attached
    → ((t.devices i).place ≡ working → (t.devices i).slots ≡ t.time)
      × ((t.devices i).place ≡ waiting
          → ((t.devices i).slots ≡ t.time) ⊎ ((t.devices i).slots + 1 ≡ t.time))
same_slot junk n t i r lt =
    let v = reachable-IsValid junk n r in (working_slots (v.fits i lt), waiting_slots (v.fits i lt))

ready_idle : {time : ℕ} {b : Bool} {d : Device} → Fits time b d → ready d ≡ true → d.place ≢ working
ready_idle (at_work p n f b s) r = λ e. ground arith
ready_idle (called p n f b s) r = λ e. cc
ready_idle (held p n f b s) r = λ e. cc
ready_idle (let_go p n f b s) r = λ e. cc
ready_idle (gone p f) r = λ e. cc

abbrev pub NoneWorks : Timer → Type 0
NoneWorks t = (i : ℕ) → i < t.attached → (t.devices i).place ≢ working

advance-NoneWorks :
    (t : Timer) (fsh event : ℕ) → IsValid t → t.phase ≡ collecting 0 fsh event → NoneWorks t
advance-NoneWorks t fsh event v e i lt =
    let (fits, known) = at t (collecting 0 fsh event) v e in
    let (_, all, _, _) = known in ready_idle (fits i lt) (all i (omega arith) lt)

-- A step leaves the clock alone, or it is the tick of the timer, by one, and no device is at work then.
tick_lem :
    {t u : Timer} → IsValid t → Step t u → (u.time ≡ t.time) ⊎ ((u.time ≡ t.time + 1) × NoneWorks t)
unfolding stop_timer
tick_lem v (call i lt w e) = inl (ap (λ (u : Timer). u.time) e)
tick_lem v (sleep i lt w n a e) = inl (ap (λ (u : Timer). u.time) e)
tick_lem v (stir i lt a e) = inl (ap (λ (u : Timer). u.time) e)
tick_lem v (doze k fsh event p r a e) = inl (ap (λ (u : Timer). u.time) e)
tick_lem v (stir_timer a e) = inl (ap (λ (u : Timer). u.time) e)
tick_lem v (wake i lt w n a e) = inl (ap (λ (u : Timer). u.time) e)
tick_lem v (detach i lt w e) = inl (ap (λ (u : Timer). u.time) e)
tick_lem v (stop e) = inl (ap (λ (u : Timer). u.time) e)
tick_lem v (begin p n e) = inl (ap (λ (u : Timer). u.time) e)
tick_lem v (leave p n e) = inl (ap (λ (u : Timer). u.time) e)
tick_lem v (collect k fsh event p r a e) = inl (ap (λ (u : Timer). u.time) e)
tick_lem {t} v (advance fsh event p e) =
    inr (ap (λ (u : Timer). u.time) e, advance-NoneWorks t fsh event v p)
tick_lem v (release k fsh event p e) = inl (ap (λ (u : Timer). u.time) e)
tick_lem v (finish fsh event p e) = inl (ap (λ (u : Timer). u.time) e)

-- In every state that the threads can reach, a step of any thread leaves the clock alone, or moves
-- it on by one, and then no device is at work.
pub tick_waits :
    (junk : ℕ → Device) (n : ℕ) (t u : Timer)
    → Reach (started junk n) t
    → Step t u
    → (u.time ≡ t.time) ⊎ ((u.time ≡ t.time + 1) × NoneWorks t)
tick_waits junk n t u r st = tick_lem (reachable-IsValid junk n r) st
