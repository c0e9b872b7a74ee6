-- ===== src/Loader/Print.antt =====
-- The files that src/loader.c reads: what `load` expects, and which programs print so.
use osassignment_hk.Base.{ℕ, ◌+◌, ◌^◌, ◌<◌, ◌≡◌, List, [], ◌∷◌, ◌++◌, map, length, All, some}
use osassignment_hk.Process.{Opcode, calc, alloc, free, read, write, syscall, Inst}
use osassignment_hk.Stdio.{Stdio}
use osassignment_hk.Loader.{name_of, with_args}

-- A file as a sequence of items: a number, a word, and the rest of a line with the numbers on it.
pub data Item : Type 0 where
  num : ℕ → Item
  word : List ℕ → Item
  line : List ℕ → Item

-- What the C library does on a file with known items: `Shows f ts` says that `ts` are still to be read.
pub record Reads {F : Type 0} (io : Stdio F) (Shows : F → List Item → Type 0) : Type 0 where
  pub number :
      (f : F) (n : ℕ) (ts : List Item)
      → Shows f (num n ∷ ts)
      → n < 2 ^ 32
      → (g : F) × (io.scan_u f ≡ (some n, g)) × Shows g ts
  pub text :
      (f : F) (w : List ℕ) (ts : List Item)
      → Shows f (word w ∷ ts)
      → (g : F) × (io.scan_s f ≡ (some w, g)) × Shows g ts
  pub space : (f : F) (ts : List Item) → Shows f ts → Shows (io.skip_space f) ts
  pub one_line :
      (f : F) (ns : List ℕ) (ts : List Item)
      → Shows f (line ns ∷ ts)
      → length ns ≡ 4
      → All (λ n. n < 2 ^ 31) ns
      → (raw : List ℕ) × (g : F) × (io.fgets f ≡ (some raw, g)) × (io.sscan_d raw ≡ ns) × Shows g ts

-- The arguments that an instruction has in a file.
abbrev pub args_of : Opcode → Inst → List ℕ
args_of calc ins = []
args_of alloc ins = ins.arg_0 ∷ ins.arg_1 ∷ []
args_of free ins = ins.arg_0 ∷ []
args_of read ins = ins.arg_0 ∷ ins.arg_1 ∷ ins.arg_2 ∷ []
args_of write ins = ins.arg_0 ∷ ins.arg_1 ∷ ins.arg_2 ∷ []
args_of syscall ins = ins.arg_0 ∷ ins.arg_1 ∷ ins.arg_2 ∷ ins.arg_3 ∷ []

abbrev pub print_args : Opcode → Inst → List Item
print_args syscall ins = line (args_of syscall ins) ∷ []
print_args calc ins = []
print_args alloc ins = map num (args_of alloc ins)
print_args free ins = map num (args_of free ins)
print_args read ins = map num (args_of read ins)
print_args write ins = map num (args_of write ins)

abbrev pub print_text : List Inst → List Item
print_text [] = []
print_text (ins ∷ l) = word (name_of ins.opcode) ∷ (print_args ins.opcode ins ++ print_text l)

abbrev pub print : ℕ → List Inst → List Item
print priority l = num priority ∷ num (length l) ∷ print_text l

-- What is read back: the arguments that the file does not have keep what malloc left in them.
abbrev pub settled : (ℕ → Inst) → ℕ → List Inst → List Inst
settled stale i [] = []
settled stale i (ins ∷ l) =
    with_args (record (stale i) { opcode = ins.opcode }) (args_of ins.opcode ins)
    ∷ settled stale (i + 1) l

-- What the numbers of an instruction stay below: those of a SYSCALL are read as ints.
abbrev pub limit : Opcode → ℕ
limit syscall = 2 ^ 31
limit calc = 2 ^ 32
limit alloc = 2 ^ 32
limit free = 2 ^ 32
limit read = 2 ^ 32
limit write = 2 ^ 32

abbrev pub IsSmall : Inst → Type 0
IsSmall ins = All (λ n. n < limit ins.opcode) (args_of ins.opcode ins)
