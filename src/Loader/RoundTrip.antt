-- ===== src/Loader/RoundTrip.antt =====
-- What src/loader.c reads back of a file that was printed.
use osassignment_hk.Base.{
  ℕ, suc, ◌+◌, ◌^◌, ◌%◌, ◌<◌, ◌≡◌, refl, ap, ◌∙◌, true, ltb, if◌then◌else◌, List, [], ◌∷◌, ◌++◌,
  map, length, take, get_or, All, Option, none, some, if_true,
}
use osassignment_hk.Process.{Opcode, calc, alloc, free, read, write, syscall, Inst, Proc}
use osassignment_hk.Stdio.{Exec, done, crash, exit_1, ◌>>=◌, Stdio, scan_nums, read_word, exec_step}
use osassignment_hk.Loader.{name_of, get_opcode, with_args, load_args, load_text, load_file, load}
use osassignment_hk.Loader.Print.{
  Item, num, word, Reads, args_of, print_args, print_text, print, settled, limit, IsSmall,
}
use osassignment_hk.Loader.Names.{get_opcode-name_of, short_name}

module _ {F : Type 0} (io : Stdio F) (Shows : F → List Item → Type 0) (reads : Reads io Shows) where
  scan_step :
      (scan : F → Option ℕ × F) (finish : F → F) (m n : ℕ) (f g : F)
      → scan f ≡ (some n, g)
      → scan_nums scan finish (suc m) f
        ≡ (n ∷ (scan_nums scan finish m g).0, (scan_nums scan finish m g).1)
  unfolding scan_nums
  scan_step scan finish m n f g e =
      ap
        (λ (p : Option ℕ × F). elim p.0 as (λ _. List ℕ × F) [
          | none ↦ ([], p.1)
          | some v ↦ (v ∷ (scan_nums scan finish m p.1).0, (scan_nums scan finish m p.1).1)
        ])
        e

  -- A call of fscanf for as many numbers as are there.
  scan_nums-reads :
      (finish : F → F) (ns : List ℕ) (f : F) (ts : List Item)
      → ((g : F) (us : List Item) → Shows g us → Shows (finish g) us)
      → All (λ n. n < 2 ^ 32) ns
      → Shows f (map num ns ++ ts)
      → (g : F) × (scan_nums io.scan_u finish (length ns) f ≡ (ns, g)) × Shows g ts
  scan_nums-reads finish [] f ts keeps small shows =
      (finish f, unfold scan_nums in refl, keeps f ts shows)
  scan_nums-reads finish (n ∷ ns) f ts keeps small shows =
      let (g, e, later) = reads.number f n (map num ns ++ ts) shows small.0 in
      let (k, rest, left) = scan_nums-reads finish ns g ts keeps small.1 later in
      (
        k,
        scan_step io.scan_u finish (length ns) n f g e
            ∙ ap (λ (r : List ℕ × F). (n ∷ r.0, r.1)) rest,
        left,
      )

  word_step :
      (room : ℕ) (old : List ℕ) (f g : F) (w : List ℕ)
      → io.scan_s f ≡ (some w, g)
      → ltb (length w) room ≡ true
      → read_word io room old f ≡ done (w, g)
  unfolding read_word
  word_step room old f g w e short =
      ap
        (λ (p : Option (List ℕ) × F). elim p.0 as (λ _. Exec (List ℕ × F)) [
          | none ↦ done (old, p.1)
          | some v ↦ if ltb (length v) room then done (v, p.1) else crash
        ])
        e
      ∙ if_true _ _ short

  read_word-reads :
      (op : Opcode) (old : List ℕ) (f : F) (ts : List Item)
      → Shows f (word (name_of op) ∷ ts)
      → (g : F) × (read_word io 10 old f ≡ done (name_of op, g)) × Shows g ts
  read_word-reads op old f ts shows =
      let (g, e, later) = reads.text f (name_of op) ts shows in
      (g, word_step 10 old f g (name_of op) e (short_name op), later)

  abbrev ReadsArgs : Opcode → Inst → Inst → List ℕ → F → List Item → Type 0
  ReadsArgs op ins base buf f ts =
      (buf' : List ℕ) × (g : F) × (load_args io op base buf f
        ≡ (with_args base (args_of op ins), buf', g))
      × Shows g ts

  numbers_read :
      (ns : List ℕ) (base : Inst) (buf : List ℕ) (f : F) (ts : List Item)
      → All (λ n. n < 2 ^ 32) ns
      → Shows f (map num ns ++ ts)
      → (g : F) × (◌≡◌ {A = Inst × List ℕ × F}
          (let (args, f) = scan_nums io.scan_u io.skip_space (length ns) f in
            (with_args base args, buf, f))
          (with_args base ns, buf, g))
        × Shows g ts
  numbers_read ns base buf f ts small shows =
      let (g, e, later) = scan_nums-reads io.skip_space ns f ts reads.space small shows in
      (g, rw e refl, later)

  line_step :
      (base ins : Inst) (buf : List ℕ) (f g : F) (raw : List ℕ)
      → io.fgets f ≡ (some raw, g)
      → io.sscan_d raw ≡ args_of syscall ins
      → load_args io syscall base buf f ≡ (with_args base (args_of syscall ins), raw, g)
  unfolding load_args
  line_step base ins buf f g raw e args =
      ap
        (λ (p : Option (List ℕ) × F). elim p.0 as (λ _. Inst × List ℕ × F) [
          | none ↦ (with_args base (io.sscan_d buf), buf, p.1)
          | some r ↦ (with_args base (io.sscan_d r), r, p.1)
        ])
        e
      ∙ ap (λ (ns : List ℕ). (with_args base ns, raw, g)) args

  load_args-reads :
      (op : Opcode) (ins base : Inst) (buf : List ℕ) (f : F) (ts : List Item)
      → All (λ n. n < limit op) (args_of op ins)
      → Shows f (print_args op ins ++ ts)
      → ReadsArgs op ins base buf f ts
  unfolding load_args
  load_args-reads calc ins base buf f ts small shows = (buf, f, refl, shows)
  load_args-reads alloc ins base buf f ts small shows =
      let (g, e, later) = numbers_read (args_of alloc ins) base buf f ts small shows in
      (buf, g, e, later)
  load_args-reads free ins base buf f ts small shows =
      let (g, e, later) = numbers_read (args_of free ins) base buf f ts small shows in
      (buf, g, e, later)
  load_args-reads read ins base buf f ts small shows =
      let (g, e, later) = numbers_read (args_of read ins) base buf f ts small shows in
      (buf, g, e, later)
  load_args-reads write ins base buf f ts small shows =
      let (g, e, later) = numbers_read (args_of write ins) base buf f ts small shows in
      (buf, g, e, later)
  load_args-reads syscall ins base buf f ts small shows =
      let (raw, g, e, args, later) = reads.one_line f (args_of syscall ins) ts shows refl small in
      (raw, g, line_step base ins buf f g raw e args, later)

  text_step :
      (stale : ℕ → Inst) (n i : ℕ) (opcode buf buf' w : List ℕ) (f g k end : F) (op : Opcode)
      (ins : Inst) (l : List Inst)
      → read_word io 10 opcode f ≡ done (w, g)
      → get_opcode w ≡ done op
      → load_args io op (record (stale i) { opcode = op }) buf g ≡ (ins, buf', k)
      → load_text io stale n (i + 1) w buf' k ≡ done (l, end)
      → load_text io stale (suc n) i opcode buf f ≡ done (ins ∷ l, end)
  unfolding load_text
  text_step stale n i opcode buf buf' w f g k end op ins l named found args rest =
      exec_step _ named
      ∙ exec_step _ found
      ∙ ap
          (λ (p : Inst × List ℕ × F).
            load_text io stale n (i + 1) w p.1 p.2 >>= λ (l, f). done (p.0 ∷ l, f))
          args
      ∙ exec_step _ rest

  module _ (stale : ℕ → Inst) where
    load_text-reads :
        (l : List Inst) (i : ℕ) (opcode buf : List ℕ) (f : F)
        → All IsSmall l
        → Shows f (print_text l)
        → (g : F) × (load_text io stale (length l) i opcode buf f ≡ done (settled stale i l, g))
          × Shows g []
    load_text-reads [] i opcode buf f small shows = (f, unfold load_text in refl, shows)
    load_text-reads (ins ∷ l) i opcode buf f small shows =
        let op = ins.opcode in
        let (g, named, after) =
          read_word-reads op opcode f (print_args op ins ++ print_text l) shows in
        let (buf', k, args, later) =
          load_args-reads op ins (record (stale i) { opcode = op }) buf g (print_text l) small.0
            after in
        let (end, rest, nothing) = load_text-reads l (i + 1) (name_of op) buf' k small.1 later in
        (
          end,
          text_step stale (length l) i opcode buf buf' (name_of op) f g k end op _
              (settled stale (i + 1) l) named (get_opcode-name_of op) args rest,
          nothing,
        )

    file_step :
        (opcode buf : List ℕ) (proc : Proc) (priority size : ℕ) (f g end : F) (text : List Inst)
        → scan_nums io.scan_u (λ f. f) 2 f ≡ (priority ∷ size ∷ [], g)
        → load_text io stale size 0 opcode buf g ≡ done (text, end)
        → load_file io stale opcode buf proc f
          ≡ done (record proc { priority = priority; code = record { text = text; size = size } })
    unfolding load_file
    file_step opcode buf proc priority size f g end text head rest =
        ap
          (λ (p : List ℕ × F).
            load_text io stale (get_or p.0 1 proc.code.size) 0 opcode buf p.1 >>= λ (text, f).
            done (record proc {
              priority = get_or p.0 0 proc.priority;
              code = record { text = text; size = get_or p.0 1 proc.code.size };
            }))
          head
        ∙ exec_step _ rest

    load_step :
        (opcode buf path : List ℕ) (blank : Proc) (avail_pid : ℕ) (f : F) (proc : Proc)
        → io.fopen path ≡ some f
        → load_file io stale opcode buf
            (record blank { pid = avail_pid; bp = 2 ^ 10; pc = 0; path = take 16 path })
            f
          ≡ done proc
        → load io stale opcode buf blank avail_pid path ≡ done (proc, (avail_pid + 1) % 2 ^ 32)
    unfolding load
    load_step opcode buf path blank avail_pid f proc opened read_all =
        ap
          (λ (o : Option F). elim o as (λ _. Exec (Proc × ℕ)) [
            | none ↦ exit_1
            | some f ↦
                load_file io stale opcode buf
                  (record blank { pid = avail_pid; bp = 2 ^ 10; pc = 0; path = take 16 path }) f
                >>= λ proc. done (proc, (avail_pid + 1) % 2 ^ 32)
          ])
          opened
        ∙ exec_step _ read_all

    -- Let the C library read a file item by item. If the file at `path` shows a printed program
    -- with a priority, and its numbers are below 2 ^ 32, those of a SYSCALL below 2 ^ 31, then
    -- `load` returns a process with the priority and the program, with the PID that was next, at
    -- its first instruction, and with the first 16 characters of the path as its name. An argument
    -- that an instruction does not have in the file keeps what it held.
    pub load-print :
        (opcode buf path : List ℕ) (blank : Proc) (avail_pid priority : ℕ) (f : F) (l : List Inst)
        → io.fopen path ≡ some f
        → Shows f (print priority l)
        → priority < 2 ^ 32
        → length l < 2 ^ 32
        → All IsSmall l
        → load io stale opcode buf blank avail_pid path
          ≡ done (
            record blank {
              pid = avail_pid;
              bp = 2 ^ 10;
              pc = 0;
              path = take 16 path;
              priority = priority;
              code = record { text = settled stale 0 l; size = length l };
            },
            (avail_pid + 1) % 2 ^ 32,
          )
    load-print opcode buf path blank avail_pid priority f l opened shows small_prio small_size
          small =
        let (g, head, after) =
          scan_nums-reads (λ f. f) (priority ∷ length l ∷ []) f (print_text l) (λ g us s. s)
            (small_prio, (small_size, tt)) shows in
        let (end, rest, _) = load_text-reads l 0 opcode buf g small after in
        load_step opcode buf path blank avail_pid f _ opened (
          file_step opcode buf
            (record blank { pid = avail_pid; bp = 2 ^ 10; pc = 0; path = take 16 path }) priority
            (length l) f g end (settled stale 0 l) head rest)
