-- ===== src/Timer/Tests.antt =====
-- Runs of the clock with two devices.
use osassignment_hk.Base.{true, ◌<◌, ℕ, ◌+◌, ◌≡◌, ◌⊎◌, refl, false, arith}
use osassignment_hk.Timer.{
  waiting, finished, Device, collecting, Timer, init, attach_event, start_timer, next_slot,
  detach_event, testing, ended,
}
use osassignment_hk.Timer.Steps.{
  Step, call, detach, begin, Alone, collect, advance, Reach, here, next, at_signal, at_phase, tick,
  attach_all,
}
use osassignment_hk.Timer.Rounds.{LetGo, round_ends}
use osassignment_hk.Timer.Progress.{started, tick_waits, NoneWorks}
use osassignment_hk.Timer.Liveness.{LetsMove, device_goes_on}

abbrev no_device : ℕ → Device
no_device i = record { done = false; fsh = false; place = finished; asleep = false; slots = 0 }

abbrev two_devices : Timer
two_devices = started no_device 2

-- The timer has begun a round, the device 1 calls `next_slot`, and 0 is detached.
abbrev begun : Timer
begun = at_phase two_devices (collecting 2 0 0)

abbrev called_1 : Timer
called_1 = at_signal begun 1 (next_slot (begun.devices 1))

abbrev left_0 : Timer
left_0 = at_signal called_1 0 (detach_event (called_1.devices 0))

abbrev seen_1 : Timer
seen_1 = at_phase left_0 (collecting 1 0 1)

abbrev seen_0 : Timer
seen_0 = at_phase seen_1 (collecting 0 1 2)

to_called : Reach two_devices called_1
unfolding start_timer attach_all attach_event init next_slot
to_called = next (next here (begin refl refl refl)) (call 1 (omega arith) refl refl)

to_seen : Reach two_devices seen_0
unfolding start_timer attach_all attach_event init next_slot detach_event
to_seen =
    next
      (next (next to_called (detach 0 (omega arith) refl refl)) (collect 1 0 0 refl refl refl refl))
      (collect 0 0 1 refl refl refl refl)

ticks : Step seen_0 (tick seen_0 1 2)
ticks = advance 1 2 refl refl

tick_waits_example :
    ((tick seen_0 1 2).time ≡ seen_0.time)
    ⊎ (((tick seen_0 1 2).time ≡ seen_0.time + 1) × NoneWorks seen_0)
tick_waits_example = tick_waits no_device 2 seen_0 (tick seen_0 1 2) to_seen ticks

device_goes_on_example : LetsMove called_1
unfolding start_timer attach_all attach_event init
device_goes_on_example = device_goes_on no_device 2 called_1 to_called refl 0 (omega arith) refl

-- Both devices have called `next_slot` before the timer starts its round.
abbrev both_called : Timer
both_called = record two_devices {
  devices = λ i. record { done = true; fsh = false; place = waiting; asleep = false; slots = 0 };
}

round_ends_example :
    (u : Timer) × Alone both_called u
    × (u.time ≡ both_called.time + 1)
    × (u.attached ≡ both_called.attached)
    × ((i : ℕ) → i < both_called.attached → LetGo (both_called.devices i) (u.devices i))
    × ((u.phase ≡ testing) ⊎ (u.phase ≡ ended))
unfolding start_timer attach_all attach_event init
round_ends_example = round_ends both_called refl refl refl (λ i lt. refl)
