-- ===== src/SysMem.antt =====
-- src/sys_mem.c and `struct sc_regs` of include/syscall.h: system call 17, by which the memory library
-- reaches the kernel's memory.
use osassignment_hk.Base.{ℕ, ◌==◌, if◌then◌else◌, Ret, success, Outcome, ok, ◌>>=◌}
use osassignment_hk.Base.Bytes.{extend_byte, to_byte, as_int}
use osassignment_hk.Memphy.{read, write}
use osassignment_hk.Mm.{Caller}
use osassignment_hk.MmVm.{inc_vma_limit, mm_swap_page}

-- The registers that a system call reads or writes.
pub record ScRegs : Type 0 where
  pub a1 : ℕ
  pub a2 : ℕ
  pub a3 : ℕ

-- SYSMEM_MAP_OP to SYSMEM_IO_WRITE
abbrev pub map_op : ℕ
map_op = 1

abbrev pub inc_op : ℕ
inc_op = 2

abbrev pub swp_op : ℕ
swp_op = 3

abbrev pub io_read : ℕ
io_read = 4

abbrev pub io_write : ℕ
io_write = 5

-- `__sys_memmap`: its code, and the registers and the process that it leaves. It drops the codes that
-- its parts return. `junk` is what `value` holds before it is read.
unfoldable pub sys_memmap : ℕ → Caller → ScRegs → Outcome (Ret × ScRegs × Caller)
unfolding as_int inc_vma_limit mm_swap_page read write
sys_memmap junk caller regs =
    if regs.a1 == map_op
    then ok (success, regs, caller)
    else if regs.a1 == inc_op
    then (do
      (_, caller) ← inc_vma_limit caller (as_int regs.a2) (as_int regs.a3)
      ok (success, regs, caller))
    else if regs.a1 == swp_op
    then (do caller ← mm_swap_page junk caller regs.a2 regs.a3; ok (success, regs, caller))
    else if regs.a1 == io_read
    then (do
      (_, value, mram) ← read caller.mram regs.a2 junk
      ok (success, record regs { a3 = extend_byte value }, record caller { mram = mram }))
    else if regs.a1 == io_write
    then (do
      (_, mram) ← write caller.mram regs.a2 (to_byte regs.a3)
      ok (success, regs, record caller { mram = mram }))
    else ok (success, regs, caller)
