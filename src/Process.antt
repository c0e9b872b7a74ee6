-- ===== src/Process.antt =====
-- include/common.h: instructions, and the PCB of a process. The PCBs live in a store that is indexed by
-- handles, which stand for the pointers to them; RAM and the active swap device are shared by all.
pub mod Example
use osassignment_hk.Base.{ℕ, Bool, update, List, Outcome, ok, fault, ◌>>=◌, if◌then◌else◌}
use osassignment_hk.Memphy.{Memphy}
use osassignment_hk.Mm.{Mm, Caller}
use osassignment_hk.Sched.{Sched}

-- `enum ins_opcode_t`
pub data Opcode : Type 0 where
  calc alloc free read write syscall : Opcode

-- `struct inst_t`
pub record Inst : Type 0 where
  pub opcode : Opcode
  pub arg_0 : ℕ
  pub arg_1 : ℕ
  pub arg_2 : ℕ
  pub arg_3 : ℕ

-- `struct code_seg_t`
pub record CodeSeg : Type 0 where
  pub text : List Inst
  pub size : ℕ

-- `struct pcb_t`. Of the page table of the older memory only its size is ever read. A path is the text
-- before its NUL.
pub record Proc : Type 0 where
  pub pid : ℕ
  pub priority : ℕ
  pub path : List ℕ
  pub code : CodeSeg
  pub regs : ℕ → ℕ
  pub pc : ℕ
  pub prio : ℕ
  pub mm : Mm
  pub page_table_size : ℕ
  pub bp : ℕ

-- The state that all threads share. `freed` tells the PCBs that were given back by `free`.
pub record Os : Type 0 where
  pub procs : ℕ → Proc
  pub freed : ℕ → Bool
  pub mram : Memphy
  pub active_mswp : Memphy
  pub sched : Sched ℕ

abbrev pub set_proc : Os → ℕ → Proc → Os
set_proc os h proc = record os { procs = update os.procs h proc }

abbrev pub set_sched : Os → Sched ℕ → Os
set_sched os sched = record os { sched = sched }

-- `proc->prio`
abbrev pub prio_of : Os → ℕ → ℕ
prio_of os h = (os.procs h).prio

-- A PCB as the memory code sees it.
abbrev pub caller_of : Os → ℕ → Caller
caller_of os h = record { mm = (os.procs h).mm; mram = os.mram; active_mswp = os.active_mswp }

-- What the memory code did to a PCB and the devices.
abbrev pub put_caller : Os → ℕ → Caller → Os
put_caller os h caller = record os {
  procs = update os.procs h (record (os.procs h) { mm = caller.mm });
  mram = caller.mram;
  active_mswp = caller.active_mswp;
}
