-- ===== src/Loader.antt =====
-- src/loader.c: the reading of a process from its file. What malloc leaves in a PCB is `blank`, and
-- in the instruction with number i it is `stale i`.
pub mod Print
pub mod Names
pub mod RoundTrip
pub mod Example
mod Tests
use osassignment_hk.Base.{
  ℕ, zero, suc, ◌+◌, ◌^◌, ◌%◌, Bool, if◌then◌else◌, List, [], ◌∷◌, ◌++◌, get_or, take, Option, none,
  some,
}
use osassignment_hk.Killall.{same_text}
use osassignment_hk.Process.{Opcode, calc, alloc, free, read, write, syscall, Inst, CodeSeg, Proc}
use osassignment_hk.Stdio.{Exec, done, crash, exit_1, ◌>>=◌, Stdio, scan_nums, read_word}

-- OPT_CALC to OPT_SYSCALL
abbrev pub name_of : Opcode → List ℕ
name_of calc = b'c' ∷ b'a' ∷ b'l' ∷ b'c' ∷ []
name_of alloc = b'a' ∷ b'l' ∷ b'l' ∷ b'o' ∷ b'c' ∷ []
name_of free = b'f' ∷ b'r' ∷ b'e' ∷ b'e' ∷ []
name_of read = b'r' ∷ b'e' ∷ b'a' ∷ b'd' ∷ []
name_of write = b'w' ∷ b'r' ∷ b'i' ∷ b't' ∷ b'e' ∷ []
name_of syscall = b's' ∷ b'y' ∷ b's' ∷ b'c' ∷ b'a' ∷ b'l' ∷ b'l' ∷ []

-- The tests of `get_opcode` for the opcodes that are left.
unfoldable pub match_opcode : List Opcode → List ℕ → Exec Opcode
unfolding same_text
match_opcode [] opt = exit_1
match_opcode (op ∷ rest) opt =
    let later = match_opcode rest opt in if same_text opt (name_of op) then done op else later

unfoldable pub get_opcode : List ℕ → Exec Opcode
unfolding match_opcode
get_opcode opt = match_opcode (calc ∷ alloc ∷ free ∷ read ∷ write ∷ syscall ∷ []) opt

-- The instruction with the arguments that were read; the others keep what they hold.
abbrev pub with_args : Inst → List ℕ → Inst
with_args ins args = record ins {
  arg_0 = get_or args 0 ins.arg_0;
  arg_1 = get_or args 1 ins.arg_1;
  arg_2 = get_or args 2 ins.arg_2;
  arg_3 = get_or args 3 ins.arg_3;
}

module _ {F : Type 0} (io : Stdio F) where
  -- The `switch` of `load`: the instruction, what `buf` holds, and the file.
  unfoldable pub load_args : Opcode → Inst → List ℕ → F → Inst × List ℕ × F
  unfolding scan_nums
  load_args calc ins buf f = (ins, buf, f)
  load_args alloc ins buf f =
      let (args, f) = scan_nums io.scan_u io.skip_space 2 f in (with_args ins args, buf, f)
  load_args free ins buf f =
      let (args, f) = scan_nums io.scan_u io.skip_space 1 f in (with_args ins args, buf, f)
  load_args read ins buf f =
      let (args, f) = scan_nums io.scan_u io.skip_space 3 f in (with_args ins args, buf, f)
  load_args write ins buf f =
      let (args, f) = scan_nums io.scan_u io.skip_space 3 f in (with_args ins args, buf, f)
  load_args syscall ins buf f =
      let (line, f) = io.fgets f in
      elim line [
        | none ↦ (with_args ins (io.sscan_d buf), buf, f)
        | some raw ↦ (with_args ins (io.sscan_d raw), raw, f)
      ]

  -- The loop of `load` over the instructions from `i` on, with the rounds that are left. `opcode` and
  -- `buf` are what the two arrays hold.
  unfoldable pub load_text : (ℕ → Inst) → ℕ → ℕ → List ℕ → List ℕ → F → Exec (List Inst × F)
  unfolding read_word get_opcode load_args
  load_text stale zero i opcode buf f = done ([], f)
  load_text stale (suc n) i opcode buf f = do
    (word, f) ← read_word io 10 opcode f
    op ← get_opcode word
    let (ins, buf, f) = load_args op (record (stale i) { opcode = op }) buf f
    (rest, f) ← load_text stale n (i + 1) word buf f
    done (ins ∷ rest, f)

  -- The part of `load` with the open file.
  unfoldable pub load_file : (ℕ → Inst) → List ℕ → List ℕ → Proc → F → Exec Proc
  unfolding scan_nums load_text
  load_file stale opcode buf proc f = do
    let (head, f) = scan_nums io.scan_u (λ f. f) 2 f
    let size = get_or head 1 proc.code.size
    (text, f) ← load_text stale size 0 opcode buf f
    done (record proc {
      priority = get_or head 0 proc.priority;
      code = record { text = text; size = size };
    })

  -- `load` with the next PID: the process, and the PID after it. A path of more than 16 characters is
  -- cut off, since `sizeof(path)` is the size of a pointer.
  unfoldable pub load : (ℕ → Inst) → List ℕ → List ℕ → Proc → ℕ → List ℕ → Exec (Proc × ℕ)
  unfolding load_file
  load stale opcode buf blank avail_pid path = elim (io.fopen path) [
    | none ↦ exit_1
    | some f ↦ do
      proc ←
          load_file stale opcode buf
            (record blank { pid = avail_pid; bp = 2 ^ 10; pc = 0; path = take 16 path }) f
      done (proc, (avail_pid + 1) % 2 ^ 32)
  ]
