-- ===== src/Timer.antt =====
-- src/timer.c: the clock that all threads wait for. A thread of the simulator, a device, is at
-- work, in `next_slot`, or past `detach_event`. What a thread does between two locks is one step,
-- and the steps of the threads are interleaved in any order. A thread that finds its condition
-- false falls asleep in `pthread_cond_wait`, until it is signalled or stirs by itself, and tests
-- the condition again then. A test and the wait that follows are under one lock, which the
-- signaller takes, too. Devices are numbered as they were attached; the list of the code has the
-- newest first. `slots` counts the calls of `next_slot` that have returned, for the theorems only.
pub mod Steps
pub mod Invariant
pub mod Barrier
pub mod Signals
pub mod Progress
pub mod Rounds
pub mod Liveness
mod Tests
use osassignment_hk.Base.{
  ℕ, zero, suc, ◌+◌, ◌^◌, ◌%◌, Bool, true, false, not, ◌||◌, ◌&&◌, ◌==◌, if◌then◌else◌, update,
  Option, none, some,
}

pub data Place : Type 0 where
  working waiting finished : Place

-- `struct timer_id_t`, and where its thread is: `asleep` tells whether it waits for `timer_cond`.
pub record Device : Type 0 where
  pub done : Bool
  pub fsh : Bool
  pub place : Place
  pub asleep : Bool
  pub slots : ℕ

-- Where `timer_routine` is: at the test of its outer loop, before the device with number `left - 1` of
-- either inner loop, with what it has counted, or past its end.
pub data Phase : Type 0 where
  testing : Phase
  collecting : (left fsh event : ℕ) → Phase
  releasing : (left fsh event : ℕ) → Phase
  ended : Phase

-- The static variables: `devices` are the first `attached` entries, and `phase` is `ended` until
-- `start_timer`. `asleep` tells whether the timer waits for `event_cond` of the device that is next.
pub record Timer : Type 0 where
  pub devices : ℕ → Device
  pub attached : ℕ
  pub time : ℕ
  pub timer_started : Bool
  pub timer_stop : Bool
  pub phase : Phase
  pub asleep : Bool

unfoldable pub init : (ℕ → Device) → Timer
init junk = record {
  devices = junk;
  attached = 0;
  time = 0;
  timer_started = false;
  timer_stop = false;
  phase = ended;
  asleep = false;
}

-- `attach_event`: the number of the device, or `none` for NULL.
unfoldable pub attach_event : Timer → Option ℕ × Timer
attach_event t = if t.timer_started then (none, t) else (
  some t.attached,
  record t {
    devices =
        update t.devices t.attached
          (record { done = false; fsh = false; place = working; asleep = false; slots = 0 });
    attached = t.attached + 1;
  },
)

unfoldable pub start_timer : Timer → Timer
start_timer t = record t { timer_started = true; phase = testing }

-- The first line of `stop_timer`; it then waits for the timer, and gives the devices back.
unfoldable pub stop_timer : Timer → Timer
stop_timer t = record t { timer_stop = true }

-- `next_slot` up to its wait, and its end when `done` was reset.
unfoldable pub next_slot : Device → Device
next_slot d = record d { done = true; place = waiting; asleep = false }

unfoldable pub next_slot_return : Device → Device
next_slot_return d = record d { place = working; slots = d.slots + 1 }

unfoldable pub detach_event : Device → Device
detach_event d = record d { fsh = true; place = finished }

-- `current_time`
unfoldable pub current_time : Timer → ℕ
current_time t = t.time

-- The condition that ends the wait of the timer for a device.
abbrev pub ready : Device → Bool
ready d = d.done || d.fsh

-- A round of the first inner loop on the device that it has waited for.
abbrev pub counted : Device → ℕ → ℕ
counted d fsh = if d.fsh then fsh + 1 else fsh

-- A round of the second inner loop: it signals `timer_cond`.
abbrev pub reset : Device → Device
reset d = record d { done = false; asleep = false }

-- Whether the timer is at a device in its first inner loop.
abbrev pub waits_for : Phase → ℕ → Bool
waits_for (collecting (suc k) fsh event) i = k == i
waits_for (collecting zero fsh event) i = false
waits_for testing i = false
waits_for (releasing left fsh event) i = false
waits_for ended i = false

-- Whether the timer still sleeps when `event_cond` of the device `i` is signalled.
abbrev pub signalled : Timer → ℕ → Bool
signalled t i = t.asleep && not (waits_for t.phase i)

-- The end of a round of the outer loop.
abbrev pub after_round : ℕ → ℕ → Phase
after_round fsh event = if fsh == event then ended else testing
