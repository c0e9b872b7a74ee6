-- ===== src/Simulator/Config.antt =====
-- src/os.c: the configuration file, and `main` until it creates the threads. What malloc and the arrays
-- of characters hold is `stale`, by process.
use osassignment_hk.Base.{
  ℕ, zero, suc, ◌+◌, ◌^◌, ltb, if◌then◌else◌, List, [], ◌∷◌, ◌++◌, map, get_or, length, Option,
  none, some,
}
use osassignment_hk.Memphy.{Memphy, init_memphy}
use osassignment_hk.Sched.{init_scheduler}
use osassignment_hk.Stdio.{Exec, done, crash, exit_1, ◌>>=◌, Stdio, scan_nums}
use osassignment_hk.Process.{Os}
use osassignment_hk.Timer.{Timer, start_timer}
use osassignment_hk.Timer.Steps.{attach_all}
use osassignment_hk.Simulator.{LdArgs}

-- A line of the configuration: a process.
pub record Entry : Type 0 where
  pub start_time : ℕ
  pub proc : List ℕ
  pub prio : ℕ

-- What `read_config` leaves in the static variables.
pub record Config : Type 0 where
  pub time_slot : ℕ
  pub num_cpus : ℕ
  pub memramsz : ℕ
  pub memswpsz : List ℕ
  pub ld_processes : LdArgs

-- "input/" and "input/proc/"
abbrev pub input_dir : List ℕ
input_dir = b'i' ∷ b'n' ∷ b'p' ∷ b'u' ∷ b't' ∷ b'/' ∷ []

abbrev pub proc_dir : List ℕ
proc_dir = input_dir ++ (b'p' ∷ b'r' ∷ b'o' ∷ b'c' ∷ b'/' ∷ [])

-- `strcat` onto a text in an array of `room` characters
unfoldable pub strcat : ℕ → List ℕ → List ℕ → Exec (List ℕ)
strcat room dst src = if ltb (length (dst ++ src)) room then done (dst ++ src) else crash

-- PAGING_MAX_MMSWP
abbrev pub max_mmswp : ℕ
max_mmswp = 4

-- How often a loop runs whose counter goes up from 0 to an int, by the pattern of the int.
abbrev pub rounds : ℕ → ℕ
rounds n = if ltb n (2 ^ 31) then n else 0

module _ {F : Type 0} (io : Stdio F) where
  -- The `fscanf` of a line, onto what its three variables hold.
  unfoldable pub scan_entry : Entry → F → Exec (Entry × F)
  scan_entry old f =
      let (start_time, f) = io.scan_lu f in
      elim start_time [
        | none ↦ done (old, f)
        | some t ↦
            let (proc, f) = io.scan_s f in
            elim proc [
              | none ↦ done (record old { start_time = t }, f)
              | some w ↦
                  let (prio, f) = io.scan_lu f in
                  let read_prio : Exec (Entry × F) = elim prio [
                    | none ↦ done (record { start_time = t; proc = w; prio = old.prio }, f)
                    | some p ↦ done (record { start_time = t; proc = w; prio = p }, io.skip_space f)
                  ] in
                  if ltb (length w) 100 then read_prio else crash
            ]
      ]

  -- The loop of `read_config` over the processes from `i` on, with the rounds that are left: the paths
  -- and the lines.
  unfoldable pub read_entries : (ℕ → Entry) → ℕ → ℕ → F → Exec (List (List ℕ × Entry))
  unfolding scan_entry strcat
  read_entries stale zero i f = done []
  read_entries stale (suc n) i f = do
    (entry, f) ← scan_entry (stale i) f
    path ← strcat 100 proc_dir entry.proc
    rest ← read_entries stale n (i + 1) f
    done ((path, entry) ∷ rest)

  -- The loop that reads the sizes of the swap devices. A variable that is not read is 0.
  unfoldable pub read_sizes : ℕ → F → List ℕ × F
  unfolding scan_nums
  read_sizes zero f = ([], f)
  read_sizes (suc n) f =
      let (x, f) = scan_nums io.scan_d (λ f. f) 1 f in
      let (rest, f) = read_sizes n f in (get_or x 0 0 ∷ rest, f)

  -- `read_config`. The processes are those for which its loop runs.
  unfoldable pub read_config : (ℕ → Entry) → List ℕ → Exec Config
  unfolding scan_nums read_sizes read_entries
  read_config stale path = elim (io.fopen path) [
    | none ↦ exit_1
    | some f ↦ do
      let (head, f) = scan_nums io.scan_d io.skip_space 3 f
      let n = get_or head 2 0
      let (ram, f) = scan_nums io.scan_d io.skip_space 1 f
      let (swp, f) = read_sizes max_mmswp f
      entries ← read_entries stale (rounds n) 0 (io.skip_space f)
      done (record {
        time_slot = get_or head 0 0;
        num_cpus = get_or head 1 0;
        memramsz = get_or ram 0 0;
        memswpsz = swp;
        ld_processes = record {
          num_processes = rounds n;
          path = map (λ e. e.0) entries;
          start_time = map (λ e. e.1.start_time) entries;
          prio = map (λ e. e.1.prio) entries;
        };
      })
  ]

-- The devices of the sizes, over what they and their nodes hold.
unfoldable pub init_mswp : List ℕ → Memphy → List ℕ → List Memphy
unfolding init_memphy
init_mswp junk blank [] = []
init_mswp junk blank (size ∷ rest) = init_memphy junk blank size 1 ∷ init_mswp junk blank rest

-- What the threads start from.
pub record Boot : Type 0 where
  pub config : Config
  pub timer : Timer
  pub mswp : List Memphy
  pub os : Os

-- `main` after `read_config`, until it creates the threads, over the static variables in `os` and
-- `timer`.
unfoldable pub init_system : List ℕ → Memphy → Timer → Os → Config → Boot
unfolding attach_all start_timer init_memphy init_mswp init_scheduler
init_system junk blank timer os config =
    let mswp = init_mswp junk blank config.memswpsz in
    record {
      config = config;
      timer = start_timer (attach_all (rounds config.num_cpus + 1) timer);
      mswp = mswp;
      os = record os {
        mram = init_memphy junk blank config.memramsz 1;
        active_mswp = get_or mswp 0 blank;
        sched = init_scheduler os.sched;
      };
    }

-- `main` with its arguments behind the name of the program, until it creates the threads. Without one
-- argument it returns 1, which is `none`.
unfoldable pub main :
    {F : Type 0}
    → Stdio F
    → (ℕ → Entry)
    → List ℕ
    → Memphy
    → Timer
    → Os
    → List (List ℕ)
    → Exec (Option Boot)
unfolding strcat read_config init_system
main io stale junk blank timer os [] = done none
main io stale junk blank timer os (arg ∷ []) = do
  path ← strcat 100 input_dir arg
  config ← read_config io stale path
  done (some (init_system junk blank timer os config))
main io stale junk blank timer os (arg ∷ more ∷ rest) = done none
