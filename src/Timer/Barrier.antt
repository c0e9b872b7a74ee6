-- ===== src/Timer/Barrier.antt =====
-- What holds in every state that the threads can reach.
use osassignment_hk.Base.{
  ℕ, suc, ◌+◌, ◌≤◌, ◌<◌, ◌≡◌, refl, sym, subst, inl, inr, Bool, true, false, ltb, ◌==◌, update,
  update-all, ℕ_discrete, Bool-cases, ==_iff, arith,
}
use osassignment_hk.Timer.{
  working, waiting, Device, Phase, testing, collecting, releasing, ended, Timer, stop_timer,
  signalled, next_slot, next_slot_return, detach_event, ready, counted, reset, after_round,
}
use osassignment_hk.Timer.Steps.{
  at_device, at_phase, tick, Step, call, sleep, stir, doze, stir_timer, wake, detach, stop, begin,
  leave, collect, advance, release, finish, Reach, here, next,
}
use osassignment_hk.Timer.Invariant.{
  pending, Fits, at_work, called, held, let_go, gone, From, From-update, Knows, Knows-update,
  IsValid,
}

device-IsValid :
    (t : Timer) (i : ℕ) (d : Device)
    → IsValid t
    → Fits t.time (pending t.phase i) d
    → (ready (t.devices i) ≡ true → ready d ≡ true)
    → ((t.devices i).fsh ≡ true → d.fsh ≡ true)
    → IsValid (at_device t i d)
device-IsValid t i d v new r f = record {
  fits = λ j lt.
      update-all (λ k e. k < t.attached → Fits t.time (pending t.phase k) e) t.devices i d
        (λ _. new) (λ k _. v.fits k) j lt;
  knows = Knows-update t t.phase i d r f v.knows;
}

-- Whether a device sleeps does not count.
sleep-Fits :
    {time : ℕ} {b : Bool} {d : Device} (x : Bool)
    → Fits time b d
    → Fits time b (record d { asleep = x })
sleep-Fits x (at_work p n f b s) = at_work p n f b s
sleep-Fits x (called p n f b s) = called p n f b s
sleep-Fits x (held p n f b s) = held p n f b s
sleep-Fits x (let_go p n f b s) = let_go p n f b s
sleep-Fits x (gone p f) = gone p f

-- Whether the timer sleeps does not count.
asleep-Knows : (t : Timer) (x : Bool) (p : Phase) → Knows t p → Knows (record t { asleep = x }) p
asleep-Knows t x testing k = tt
asleep-Knows t x (collecting left fsh event) k = k
asleep-Knows t x (releasing left fsh event) k = k
asleep-Knows t x ended k = k

asleep-IsValid : (t : Timer) (x : Bool) → IsValid t → IsValid (record t { asleep = x })
asleep-IsValid t x v = record { fits = v.fits; knows = asleep-Knows t x t.phase v.knows }

call-Fits :
    {time : ℕ} {b : Bool} (d : Device)
    → d.place ≡ working
    → Fits time b d
    → Fits time b (next_slot d)
unfolding next_slot
call-Fits d w (at_work p n f b s) = called refl refl f b s
call-Fits d w (called p n f b s) = cc
call-Fits d w (held p n f b s) = cc
call-Fits d w (let_go p n f b s) = cc
call-Fits d w (gone p f) = cc

wake-Fits :
    {time : ℕ} {b : Bool} (d : Device)
    → d.place ≡ waiting
    → d.done ≡ false
    → Fits time b d
    → Fits time b (next_slot_return d)
unfolding next_slot_return
wake-Fits d w r (at_work p n f b s) = cc
wake-Fits d w r (called p n f b s) = cc
wake-Fits d w r (held p n f b s) = cc
wake-Fits d w r (let_go p n f b s) = at_work refl n f b s
wake-Fits d w r (gone p f) = cc

-- A device that is ready when the timer collects has called `next_slot` or is detached.
tick-Fits :
    {time : ℕ} {d : Device} (at lim : ℕ)
    → at < lim
    → ready d ≡ true
    → Fits time false d
    → Fits (time + 1) (ltb at lim) d
tick-Fits at lim lt r (at_work p n f b s) = ground arith
tick-Fits at lim lt r (called p n f b s) = held p n f (ground arith) (omega arith)
tick-Fits at lim lt r (held p n f b s) = cc
tick-Fits at lim lt r (let_go p n f b s) = ground arith
tick-Fits at lim lt r (gone p f) = gone p f

release-Fits :
    {time : ℕ} {d : Device} {b : Bool} → b ≡ true → Fits time b d → Fits time false (reset d)
release-Fits e (at_work p n f b s) = cc
release-Fits e (called p n f b s) = cc
release-Fits e (held p n f b s) = let_go p refl f refl s
release-Fits e (let_go p n f b s) = cc
release-Fits e (gone p f) = gone p f

more_fsh :
    (d : Device) (fsh event : ℕ)
    → fsh ≤ event
    → (counted d fsh ≤ event + 1) × (counted d fsh ≡ event + 1 → (fsh ≡ event) × (d.fsh ≡ true))
more_fsh d fsh event le = (ground arith, λ e. ground arith)

From-suc :
    (k : ℕ) (t : Timer) (test : Device → Bool)
    → test (t.devices k) ≡ true
    → From (suc k) t test
    → From k t test
From-suc k t test now later i le lt = elim (ℕ_discrete k i) [
  | yes e ↦ subst (λ j. test (t.devices j) ≡ true) e now
  | no ne ↦ later i (omega arith) lt
]

-- At phase `p`, the knowledge that `IsValid` holds.
pub at :
    (t : Timer) (p : Phase)
    → IsValid t
    → t.phase ≡ p
    → ((i : ℕ) → i < t.attached → Fits t.time (pending p i) (t.devices i)) × Knows t p
at t p v e = (
  λ i lt. subst (λ q. Fits t.time (pending q i) (t.devices i)) e (v.fits i lt),
  subst (Knows t) e v.knows,
)

advance-IsValid :
    (t : Timer) (fsh event : ℕ)
    → IsValid t
    → t.phase ≡ collecting 0 fsh event
    → IsValid (tick t fsh event)
advance-IsValid t fsh event v e =
    let (fits, known) = at t (collecting 0 fsh event) v e in
    let (lim, all, le, same) = known in
    record {
      fits = λ i lt. tick-Fits i t.attached lt (all i (omega arith) lt) (fits i lt);
      knows = (le, same);
    }

collect-IsValid :
    (t : Timer) (k fsh event : ℕ)
    → IsValid t
    → t.phase ≡ collecting (suc k) fsh event
    → ready (t.devices k) ≡ true
    → IsValid (at_phase t (collecting k (counted (t.devices k) fsh) (event + 1)))
collect-IsValid t k fsh event v e r =
    let (fits, known) = at t (collecting (suc k) fsh event) v e in
    let (lim, all, le, same) = known in
    let (le', more) = more_fsh (t.devices k) fsh event le in
    record {
      fits = fits;
      knows = (
        omega arith,
        From-suc k t ready r all,
        le',
        λ eq. From-suc k t (λ d. d.fsh) (more eq).1 (same (more eq).0),
      );
    }

release-IsValid :
    (t : Timer) (k fsh event : ℕ)
    → IsValid t
    → t.phase ≡ releasing (suc k) fsh event
    → IsValid (record t {
      devices = update t.devices k (reset (t.devices k));
      phase = releasing k fsh event;
    })
release-IsValid t k fsh event v e =
    let (fits, known) = at t (releasing (suc k) fsh event) v e in
    let (le, same) = known in
    let free : ltb k k ≡ false = ground arith in
    let was : ltb k (suc k) ≡ true = ground arith in
    record {
      fits =
          update-all (λ j d. j < t.attached → Fits t.time (ltb j k) d) t.devices k
            (reset (t.devices k))
            (λ lt.
              subst (λ b. Fits t.time b (reset (t.devices k))) (sym free)
                (release-Fits was (fits k lt)))
            (λ j ne lt.
              let as_before : ltb j (suc k) ≡ ltb j k = ground arith in
              subst (λ b. Fits t.time b (t.devices j)) as_before (fits j lt));
      knows = (le, λ eq. From-update 0 t (λ d. d.fsh) k (reset (t.devices k)) (λ f. f) (same eq));
    }

finish-IsValid :
    (t : Timer) (fsh event : ℕ)
    → IsValid t
    → t.phase ≡ releasing 0 fsh event
    → IsValid (at_phase t (after_round fsh event))
finish-IsValid t fsh event v e =
    let (fits, known) = at t (releasing 0 fsh event) v e in
    let (le, same) = known in
    let free : (i : ℕ) → ltb i 0 ≡ false = λ i. ground arith in
    elim (Bool-cases (fsh == event)) [
      | inl eq ↦ rw eq (record {
        fits = λ i lt. subst (λ b. Fits t.time b (t.devices i)) (free i) (fits i lt);
        knows = inr (same ((==_iff fsh event).0 eq));
      })
      | inr ne ↦ rw ne (record {
        fits = λ i lt. subst (λ b. Fits t.time b (t.devices i)) (free i) (fits i lt);
        knows = tt;
      })
    ]

stopped : (t : Timer) (p : Phase) → Knows t p → Knows (stop_timer t) p
unfolding stop_timer
stopped t testing k = tt
stopped t (collecting left fsh event) k = k
stopped t (releasing left fsh event) k = k
stopped t ended k = inl refl

-- Every step of every thread keeps the state valid.
pub Step-IsValid : {t u : Timer} → Step t u → IsValid t → IsValid u
unfolding stop_timer
Step-IsValid {t} (call i lt w e) v = subst IsValid (sym e) (
    asleep-IsValid _ (signalled t i) (
      device-IsValid t i (next_slot (t.devices i)) v (call-Fits (t.devices i) w (v.fits i lt))
        (unfold next_slot in λ r. refl) (unfold next_slot in λ f. f)))
Step-IsValid {t} (sleep i lt w n a e) v = subst IsValid (sym e) (
    device-IsValid t i (record (t.devices i) { asleep = true }) v (sleep-Fits true (v.fits i lt))
      (λ r. r) (λ f. f))
Step-IsValid {t} (stir i lt a e) v = subst IsValid (sym e) (
    device-IsValid t i (record (t.devices i) { asleep = false }) v (sleep-Fits false (v.fits i lt))
      (λ r. r) (λ f. f))
Step-IsValid {t} (doze k fsh event p r a e) v = subst IsValid (sym e) (asleep-IsValid t true v)
Step-IsValid {t} (stir_timer a e) v = subst IsValid (sym e) (asleep-IsValid t false v)
Step-IsValid {t} (wake i lt w n a e) v = subst IsValid (sym e) (
    device-IsValid t i (next_slot_return (t.devices i)) v
      (wake-Fits (t.devices i) w n (v.fits i lt)) (unfold next_slot_return in λ r. r)
      (unfold next_slot_return in λ f. f))
Step-IsValid {t} (detach i lt w e) v = subst IsValid (sym e) (
    asleep-IsValid _ (signalled t i) (
      device-IsValid t i (detach_event (t.devices i)) v (unfold detach_event in gone refl refl)
        (unfold detach_event in λ r. ground arith) (unfold detach_event in λ f. refl)))
Step-IsValid {t} (stop e) v =
    subst IsValid (sym e) (record { fits = v.fits; knows = stopped t t.phase v.knows })
Step-IsValid {t} (begin p n e) v =
    let fits = (at t testing v p).0 in
    subst IsValid (sym e) (record {
      fits = fits;
      knows = (
        omega arith,
        λ i le lt. absurd (omega arith),
        omega arith,
        λ eq i le lt. absurd (omega arith),
      );
    })
Step-IsValid {t} (leave p n e) v =
    let fits = (at t testing v p).0 in subst IsValid (sym e) (record { fits = fits; knows = inl n })
Step-IsValid {t} (collect k fsh event p r a e) v =
    subst IsValid (sym e) (collect-IsValid t k fsh event v p r)
Step-IsValid {t} (advance fsh event p e) v = subst IsValid (sym e) (advance-IsValid t fsh event v p)
Step-IsValid {t} (release k fsh event p e) v =
    subst IsValid (sym e) (release-IsValid t k fsh event v p)
Step-IsValid {t} (finish fsh event p e) v = subst IsValid (sym e) (finish-IsValid t fsh event v p)

pub Reach-IsValid : {s t : Timer} → IsValid s → Reach s t → IsValid t
Reach-IsValid v here = v
Reach-IsValid v (next r st) = Step-IsValid st (Reach-IsValid v r)
