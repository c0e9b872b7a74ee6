-- ===== src/Timer/Steps.antt =====
-- The steps of the threads, in any order.
use osassignment_hk.Base.{Bool, ℕ, zero, suc, ◌+◌, ◌<◌, ◌≡◌, true, false, update}
use osassignment_hk.Timer.{
  signalled, working, waiting, Device, Phase, testing, collecting, releasing, ended, Timer,
  attach_event, stop_timer, next_slot, next_slot_return, detach_event, ready, counted, reset,
  after_round,
}

abbrev pub at_device : Timer → ℕ → Device → Timer
at_device t i d = record t { devices = update t.devices i d }

-- The device `i` signals `event_cond`.
abbrev pub at_signal : Timer → ℕ → Device → Timer
at_signal t i d = record t { devices = update t.devices i d; asleep = signalled t i }

abbrev pub at_phase : Timer → Phase → Timer
at_phase t p = record t { phase = p }

-- The clock goes on, and the timer turns to the second loop.
abbrev pub tick : Timer → ℕ → ℕ → Timer
tick t fsh event = record t { time = t.time + 1; phase = releasing t.attached fsh event }

-- A step from `t` to `u`: of the device `i`, of `main`, or of the timer.
pub data Step (t u : Timer) : Type 0 where
  call :
      (i : ℕ)
      → i < t.attached
      → (t.devices i).place ≡ working
      → u ≡ at_signal t i (next_slot (t.devices i))
      → Step t u
  sleep :
      (i : ℕ)
      → i < t.attached
      → (t.devices i).place ≡ waiting
      → (t.devices i).done ≡ true
      → (t.devices i).asleep ≡ false
      → u ≡ at_device t i (record (t.devices i) { asleep = true })
      → Step t u
  stir :
      (i : ℕ)
      → i < t.attached
      → (t.devices i).asleep ≡ true
      → u ≡ at_device t i (record (t.devices i) { asleep = false })
      → Step t u
  wake :
      (i : ℕ)
      → i < t.attached
      → (t.devices i).place ≡ waiting
      → (t.devices i).done ≡ false
      → (t.devices i).asleep ≡ false
      → u ≡ at_device t i (next_slot_return (t.devices i))
      → Step t u
  detach :
      (i : ℕ)
      → i < t.attached
      → (t.devices i).place ≡ working
      → u ≡ at_signal t i (detach_event (t.devices i))
      → Step t u
  stop : u ≡ stop_timer t → Step t u
  begin :
      t.phase ≡ testing
      → t.timer_stop ≡ false
      → u ≡ at_phase t (collecting t.attached 0 0)
      → Step t u
  leave : t.phase ≡ testing → t.timer_stop ≡ true → u ≡ at_phase t ended → Step t u
  doze :
      (k fsh event : ℕ)
      → t.phase ≡ collecting (suc k) fsh event
      → ready (t.devices k) ≡ false
      → t.asleep ≡ false
      → u ≡ record t { asleep = true }
      → Step t u
  stir_timer : t.asleep ≡ true → u ≡ record t { asleep = false } → Step t u
  collect :
      (k fsh event : ℕ)
      → t.phase ≡ collecting (suc k) fsh event
      → ready (t.devices k) ≡ true
      → t.asleep ≡ false
      → u ≡ at_phase t (collecting k (counted (t.devices k) fsh) (event + 1))
      → Step t u
  advance : (fsh event : ℕ) → t.phase ≡ collecting 0 fsh event → u ≡ tick t fsh event → Step t u
  release :
      (k fsh event : ℕ)
      → t.phase ≡ releasing (suc k) fsh event
      → u ≡ record t {
        devices = update t.devices k (reset (t.devices k));
        phase = releasing k fsh event;
      }
      → Step t u
  finish :
      (fsh event : ℕ)
      → t.phase ≡ releasing 0 fsh event
      → u ≡ at_phase t (after_round fsh event)
      → Step t u

-- `main` has attached `n` devices and started the timer.
unfoldable pub attach_all : ℕ → Timer → Timer
unfolding attach_event
attach_all zero t = t
attach_all (suc n) t = attach_all n (attach_event t).1

pub data Reach (start : Timer) : Timer → Type 0 where
  here : Reach start start
  next : {t u : Timer} → Reach start t → Step t u → Reach start u

-- Whether a step is one that the timer makes, other than stirring by itself.
abbrev pub by_timer : {t u : Timer} → Step t u → Bool
by_timer (call i lt w e) = false
by_timer (sleep i lt w n a e) = false
by_timer (stir i lt a e) = false
by_timer (wake i lt w n a e) = false
by_timer (detach i lt w e) = false
by_timer (stop e) = false
by_timer (begin p n e) = true
by_timer (leave p n e) = true
by_timer (doze k fsh event p r a e) = true
by_timer (stir_timer a e) = false
by_timer (collect k fsh event p r a e) = true
by_timer (advance fsh event p e) = true
by_timer (release k fsh event p e) = true
by_timer (finish fsh event p e) = true

-- Steps of the timer alone.
pub data Alone (start : Timer) : Timer → Type 0 where
  rest : Alone start start
  move : {t u : Timer} → Alone start t → (s : Step t u) → by_timer s ≡ true → Alone start u
