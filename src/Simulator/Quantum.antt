-- ===== src/Simulator/Quantum.antt =====
-- The time slots that a CPU of src/os.c gives to a process.
use osassignment_hk.Base.{
  ℕ, zero, suc, ◌+◌, ◌-◌, ◌^◌, ◌%◌, ◌<◌, ◌≡◌, refl, ◌⊎◌, inl, inr, Bool, true, false, ◌==◌,
  if◌then◌else◌, update, List, Option, none, some, Outcome, ok, Holds, Holds-any, Holds-if,
  Bool-cases, ◌>>=◌, arith,
}
use osassignment_hk.Libmem.{Junk}
use osassignment_hk.Sched.{put_proc}
use osassignment_hk.Process.{set_sched, Os, prio_of}
use osassignment_hk.Cpu.{run}
use osassignment_hk.Simulator.{Did, Cpu, slot, take_proc, recheck, cpu_round}

-- A CPU that holds no process has no time left, and otherwise less than a whole time slot.
pub record IsValid (time_slot : ℕ) (cpu : Cpu) : Type 0 where
  pub bound : cpu.time_left < time_slot
  pub no_time : cpu.proc ≡ none → cpu.time_left ≡ 0

-- A CPU after a round: it holds no process, it went on with its process, or it gave a process the first
-- of a whole time slot.
abbrev pub Quantum : ℕ → Cpu → Cpu → Type 0
Quantum time_slot cpu after =
    (after.proc ≡ none)
    ⊎ (((after.proc ≡ cpu.proc) × (after.time_left + 1 ≡ cpu.time_left))
        ⊎ (after.time_left + 1 ≡ time_slot))

abbrev pub Kept : ℕ → Cpu → Did × Cpu × Os → Type 0
Kept time_slot cpu r = IsValid time_slot r.1 × Quantum time_slot cpu r.1

module _ (junk : Junk) (temp : List (Option ℕ)) (time_slot : ℕ) (loaded_all : Bool)
    (some_time : 0 < time_slot) (is_int : time_slot < 2 ^ 31) where
  counts_down : (t : ℕ) → 0 < t → t < 2 ^ 31 → (t + (2 ^ 32 - 1)) % 2 ^ 32 + 1 ≡ t
  counts_down t a b = omega arith

  -- A round that dispatches what it got.
  recheck_new :
      (cpu : Cpu) (proc : Option ℕ) (os : Os)
      → Holds (Kept time_slot cpu) (recheck junk temp time_slot loaded_all 0 proc os)
  unfolding recheck
  recheck_new cpu none os = (record { bound = some_time; no_time = λ _. refl }, inl refl)
  recheck_new cpu (some h) os = elim (Bool-cases (os.freed h)) [
    | inl e ↦ rw e tt
    | inr e ↦ rw e (
        Holds-any (Kept time_slot cpu) (run junk temp os h) _ (λ r. (
          record {
            bound = omega (arith, counts_down time_slot some_time is_int);
            no_time = λ f. cc;
          },
          inr (inr (counts_down time_slot some_time is_int)),
        )))
  ]

  took_new :
      (cpu : Cpu) (m : Outcome (Option ℕ × Os))
      → Holds
          (Kept time_slot cpu)
          (m >>= λ (proc, os). recheck junk temp time_slot loaded_all 0 proc os)
  took_new cpu m =
      Holds-any (Kept time_slot cpu) m
        (λ (proc, os). recheck junk temp time_slot loaded_all 0 proc os)
        (λ (proc, os). recheck_new cpu proc os)

  -- A round that goes on with its process.
  recheck_same :
      (t h : ℕ) (os : Os)
      → t < time_slot
      → (t == 0) ≡ false
      → Holds
          (Kept time_slot (record { proc = some h; time_left = t }))
          (recheck junk temp time_slot loaded_all t (some h) os)
  unfolding recheck
  recheck_same t h os b left = elim (Bool-cases (os.freed h)) [
    | inl f ↦ rw f tt
    | inr f ↦
        let count = counts_down t (ground arith) (omega arith) in
        rw (f, left)
          (Holds-any (Kept time_slot (record { proc = some h; time_left = t })) (run junk temp os h)
            _
            (λ r. (
              record { bound = omega (arith, count); no_time = λ f. cc },
              inr (inl (refl, count)),
            )))
  ]

  -- What a CPU without a process does with what it got.
  idle_took :
      (proc : Option ℕ) (os : Os)
      → Holds (Kept time_slot (record { proc = none; time_left = 0 })) (elim proc [
        | none ↦ ok (slot, record { proc = none; time_left = 0 }, os)
        | some h ↦ recheck junk temp time_slot loaded_all 0 (some h) os
      ])
  idle_took none os = (record { bound = some_time; no_time = λ _. refl }, inl refl)
  idle_took (some h) os = recheck_new (record { proc = none; time_left = 0 }) (some h) os

  -- A round with a process that is not at its end.
  goes_on :
      (t h : ℕ) (os : Os)
      → t < time_slot
      → Holds (Kept time_slot (record { proc = some h; time_left = t })) (
          if t == 0
          then (do
            sched ← put_proc (prio_of os) h os.sched
            (proc, os) ← take_proc (set_sched os sched)
            recheck junk temp time_slot loaded_all t proc os)
          else recheck junk temp time_slot loaded_all t (some h) os)
  goes_on zero h os b =
      Holds-any (Kept time_slot (record { proc = some h; time_left = 0 }))
        (put_proc (prio_of os) h os.sched) _
        (λ sched.
          took_new (record { proc = some h; time_left = 0 }) (take_proc (set_sched os sched)))
  goes_on (suc t) h os b =
      let left : (suc t == 0) ≡ false = ground arith in rw left (recheck_same (suc t) h os b left)

  round :
      (proc : Option ℕ) (t : ℕ) (os : Os)
      → IsValid time_slot (record { proc = proc; time_left = t })
      → Holds
          (Kept time_slot (record { proc = proc; time_left = t }))
          (cpu_round junk temp time_slot loaded_all (record { proc = proc; time_left = t }) os)
  unfolding cpu_round
  round none zero os v =
      Holds-any (Kept time_slot (record { proc = none; time_left = 0 })) (take_proc os) _
        (λ (proc, os). idle_took proc os)
  round none (suc t) os v = absurd (omega (arith, v.no_time refl))
  round (some h) t os v =
      let kept : Did × Cpu × Os → Type 0 =
        Kept time_slot (record { proc = some h; time_left = t }) in
      Holds-if kept (os.freed h) _ _ (λ f. tt)
        (λ f.
          Holds-if kept ((os.procs h).pc == (os.procs h).code.size) _ _
            (λ fin.
              took_new (record { proc = some h; time_left = t })
                (take_proc (record os { freed = update os.freed h true })))
            (λ more. goes_on t h os v.bound))

  -- Let the time slot be positive and an int, and a CPU have less time left than a time slot, and
  -- none if it has no process. Then the same holds after a round of it, if no fault ends that. The
  -- CPU has no process then, or the process that it had and one round less, or one less than a
  -- whole time slot.
  pub cpu_round-Quantum :
      (cpu : Cpu) (os : Os)
      → IsValid time_slot cpu
      → Holds (Kept time_slot cpu) (cpu_round junk temp time_slot loaded_all cpu os)
  cpu_round-Quantum cpu os v = round cpu.proc cpu.time_left os v
