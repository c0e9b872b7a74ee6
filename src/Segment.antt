-- ===== src/Segment.antt =====
-- src/mem.c and include/mem.h: the older memory with segments, whose parts are still compiled. `junk` is
-- what uninitialised memory holds. The lock is not modelled: each function runs alone.
pub mod Laws
use osassignment_hk.Base.{
  ℕ, zero, suc, ◌+◌, ◌-◌, ◌*◌, ◌/◌, ◌%◌, ◌^◌, ◌==◌, if◌then◌else◌, bit_and, update, List, [], ◌∷◌,
  ◌++◌, Option, none, some, Outcome, ok, fault, ltb, ◌>>=◌,
}
use osassignment_hk.Bitops.{all_ones, bit_not, shl, shr}
use osassignment_hk.Process.{Proc}

-- ADDRESS_SIZE, OFFSET_LEN and PAGE_LEN
abbrev pub address_size : ℕ
address_size = 20

abbrev pub offset_len : ℕ
offset_len = 10

abbrev pub page_len : ℕ
page_len = 5

-- NUM_PAGES, PAGE_SIZE and RAM_SIZE
abbrev pub num_pages : ℕ
num_pages = 2 ^ (address_size - offset_len)

abbrev pub page_size : ℕ
page_size = 2 ^ offset_len

abbrev pub ram_size : ℕ
ram_size = 2 ^ address_size

-- An entry of `_mem_stat`
pub record MemStat : Type 0 where
  pub proc : ℕ
  pub index : ℕ
  pub next : ℕ

-- `_ram` and `_mem_stat`
pub record Mem : Type 0 where
  pub ram : ℕ → ℕ
  pub mem_stat : ℕ → MemStat

unfoldable pub init_mem : Mem
init_mem = record { ram = λ _. 0; mem_stat = λ _. record { proc = 0; index = 0; next = 0 } }

unfoldable pub get_offset : ℕ → ℕ
get_offset addr = bit_and addr (bit_not (shl all_ones offset_len))

unfoldable pub get_first_lv : ℕ → ℕ
get_first_lv addr = shr addr (offset_len + page_len)

-- A subtraction of uint32_t
unfoldable pub get_second_lv : ℕ → ℕ
unfolding get_first_lv
get_second_lv addr = (shr addr offset_len + 2 ^ 32 - shl (get_first_lv addr) page_len) % 2 ^ 32

-- `struct trans_table_t`: its rows, `v_index` and `p_index`
abbrev pub TransTable : Type 0
TransTable = List (ℕ × ℕ)

-- The loop of `get_trans_table` does nothing in its rounds.
unfoldable pub seek_table : ℕ → Option TransTable
seek_table zero = none
seek_table (suc rows) = seek_table rows

unfoldable pub get_trans_table : ℕ → ℕ → Option TransTable
unfolding seek_table
get_trans_table index page_table_size = seek_table page_table_size

-- The loop of `translate` over a table of the second layer.
unfoldable pub find_row : ℕ → TransTable → ℕ
find_row second_lv [] = 0
find_row second_lv ((v_index, p_index) ∷ rows) =
    let rest = find_row second_lv rows in if v_index == second_lv then 1 else rest

-- `translate`: its answer. It never writes `*physical_addr`.
unfoldable pub translate : ℕ → Proc → ℕ
unfolding get_first_lv get_second_lv get_trans_table find_row
translate virtual_addr proc =
    elim (get_trans_table (get_first_lv virtual_addr) proc.page_table_size) [
      | none ↦ 0
      | some trans_table ↦ find_row (get_second_lv virtual_addr) trans_table
    ]

-- The number of pages that `alloc_mem` computes.
unfoldable pub pages_for : ℕ → ℕ
pages_for size = if size % page_size == 0 then size / page_size + 1 else size / page_size

-- `alloc_mem`: the address, and the process. Nothing sets `mem_avail`.
unfoldable pub alloc_mem : ℕ → Proc → ℕ × Proc
unfolding pages_for
alloc_mem size proc =
    let mem_avail : ℕ = 0 in
    if mem_avail == 0
    then (0, proc)
    else (proc.bp, record proc { bp = (proc.bp + pages_for size * page_size) % 2 ^ 32 })

-- `free_mem` does nothing and returns 0.
unfoldable pub free_mem : ℕ → Proc → ℕ
free_mem address proc = 0

-- `_ram[physical_addr]`, read and written
unfoldable pub load_ram : Mem → ℕ → Outcome ℕ
load_ram mem at = if ltb at ram_size then ok (mem.ram at) else fault

unfoldable pub store_ram : Mem → ℕ → ℕ → Outcome Mem
store_ram mem at v =
    if ltb at ram_size then ok (record mem { ram = update mem.ram at v }) else fault

-- `read_mem`: its code, and `*data` (given with what it holds). `junk` is `physical_addr`.
unfoldable pub read_mem : ℕ → Mem → ℕ → Proc → ℕ → Outcome (ℕ × ℕ)
unfolding translate load_ram
read_mem junk mem address proc value =
    if translate address proc == 0 then ok (1, value) else do b ← load_ram mem junk; ok (0, b)

unfoldable pub write_mem : ℕ → Mem → ℕ → Proc → ℕ → Outcome (ℕ × Mem)
unfolding translate store_ram
write_mem junk mem address proc value =
    if translate address proc == 0
    then ok (1, mem)
    else do mem' ← store_ram mem junk value; ok (0, mem')

-- The lines of `dump`: a page with its first and last address and its entry, and a byte that is not 0
-- with its address.
pub data Line : Type 0 where
  page : (number first last : ℕ) → MemStat → Line
  byte : (at value : ℕ) → Line

-- The inner loop, with the rounds that are left: it leaves out the last byte of a page.
unfoldable pub dump_bytes : Mem → ℕ → ℕ → List Line
dump_bytes mem zero j = []
dump_bytes mem (suc n) j =
    let rest = dump_bytes mem n (j + 1) in
    if mem.ram j == 0 then rest else byte j (mem.ram j) ∷ rest

unfoldable pub dump_pages : Mem → ℕ → ℕ → List Line
unfolding dump_bytes
dump_pages mem zero i = []
dump_pages mem (suc n) i =
    let rest = dump_pages mem n (i + 1) in
    if (mem.mem_stat i).proc == 0
    then rest
    else page i (i * page_size) ((i + 1) * page_size - 1) (mem.mem_stat i)
      ∷ (dump_bytes mem (page_size - 1) (i * page_size) ++ rest)

unfoldable pub dump : Mem → List Line
unfolding dump_pages
dump mem = dump_pages mem num_pages 0
