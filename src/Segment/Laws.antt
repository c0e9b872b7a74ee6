-- ===== src/Segment/Laws.antt =====
-- The parts of an address, and the accesses of the older memory.
use osassignment_hk.Base.{ℕ, zero, suc, ◌+◌, ◌*◌, ◌^◌, ◌<◌, ◌≡◌, refl, none, ok, arith}
use osassignment_hk.Base.Bits.{bit_and-ones}
use osassignment_hk.Process.{Proc}
use osassignment_hk.Segment.{
  Mem, get_offset, get_first_lv, get_second_lv, seek_table, get_trans_table, translate, alloc_mem,
  read_mem, write_mem,
}

-- The parts of an address of 20 bits are below 1024, 32 and 32, and together they are the address.
pub address_split :
    (addr : ℕ)
    → addr < 2 ^ 20
    → (get_offset addr < 2 ^ 10)
      × (get_first_lv addr < 2 ^ 5)
      × (get_second_lv addr < 2 ^ 5)
      × ((get_first_lv addr * 2 ^ 5 + get_second_lv addr) * 2 ^ 10 + get_offset addr ≡ addr)
unfolding get_offset get_first_lv get_second_lv
address_split addr h = (
  omega (arith, bit_and-ones 10 addr),
  omega arith,
  omega arith,
  omega (arith, bit_and-ones 10 addr),
)

seek_table-none : (rows : ℕ) → seek_table rows ≡ none
unfolding seek_table
seek_table-none zero = refl
seek_table-none (suc rows) = seek_table-none rows

translate_never : (addr : ℕ) (proc : Proc) → translate addr proc ≡ 0
unfolding translate get_trans_table
translate_never addr proc = rw (translate, seek_table-none proc.page_table_size) refl

-- The older memory never holds anything: `alloc_mem` gives no address and leaves the process, and
-- `read_mem` and `write_mem` of any address report that it is not valid and change nothing.
pub segment_refuses :
    (junk : ℕ) (mem : Mem) (size address : ℕ) (proc : Proc) (value : ℕ)
    → (alloc_mem size proc ≡ (0, proc))
      × (read_mem junk mem address proc value ≡ ok (1, value))
      × (write_mem junk mem address proc value ≡ ok (1, mem))
unfolding alloc_mem read_mem write_mem
segment_refuses junk mem size address proc value =
    (refl, rw (translate_never address proc) refl, rw (translate_never address proc) refl)
