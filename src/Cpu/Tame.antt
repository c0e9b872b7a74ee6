-- ===== src/Cpu/Tame.antt =====
-- The instructions of src/cpu.c where no process calls killall.
use osassignment_hk.Base.{
  ℕ, zero, suc, ◌+◌, ◌%◌, ◌^◌, ◌≡◌, ◌≢◌, leb, List, [], ◌∷◌, All, Option, Holds, Holds-map,
  Holds-if, Holds->>=,
}
use osassignment_hk.Libmem.{Junk}
use osassignment_hk.Process.{syscall, Inst, Os, set_proc}
use osassignment_hk.Cpu.{fetch, execute, advanced, run}
use osassignment_hk.Cpu.Frame.{Frame, Framed, same-Frame, execute-Frame, advanced-Frame}

-- An instruction that is no call of killall.
abbrev pub IsTame : Inst → Type 0
IsTame ins = ins.opcode ≡ syscall → ins.arg_0 ≢ 101

abbrev pub AllTame : Os → Type 0
AllTame os = (h : ℕ) → All IsTame (os.procs h).code.text

pub fetch-IsTame : (text : List Inst) (pc : ℕ) → All IsTame text → Holds IsTame (fetch text pc)
unfolding fetch
fetch-IsTame [] pc a = tt
fetch-IsTame (ins ∷ text) zero a = a.0
fetch-IsTame (ins ∷ text) (suc pc) a = fetch-IsTame text pc a.1

module _ (junk : Junk) (temp : List (Option ℕ)) (os : Os) (h : ℕ) where
  -- What `run` leaves alone, wherever it stops.
  abbrev pub RunFramed : Option ℕ × Os → Type 0
  RunFramed r = (pc : ℕ) × Frame os h pc r.1

  pub run-RunFramed :
      Holds IsTame (fetch (os.procs h).code.text (os.procs h).pc)
      → Holds RunFramed (run junk temp os h)
  unfolding run
  run-RunFramed tame =
      let start = set_proc os h (advanced (os.procs h)) in
      Holds-if RunFramed (leb (os.procs h).code.size (os.procs h).pc) _ _
        (λ e. ((os.procs h).pc, same-Frame os h))
        (λ e.
          Holds->>= IsTame RunFramed (fetch (os.procs h).code.text (os.procs h).pc) _ tame (λ ins t.
            Holds-map (Framed start h) RunFramed (execute junk temp start h ins ins.opcode)
              (λ r f. (((os.procs h).pc + 1) % 2 ^ 32, advanced-Frame os h r.1 f))
              (execute-Frame junk temp start h ins ins.opcode t)))
