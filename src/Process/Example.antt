-- ===== src/Process/Example.antt =====
-- Two processes with their memory, for the tests of the parts that work on processes.
use osassignment_hk.Base.{ℕ, ◌==◌, if◌then◌else◌, false, [], ◌∷◌, replicate, none}
use osassignment_hk.Queue.{Queue}
use osassignment_hk.Sched.{Sched, init_scheduler}
use osassignment_hk.Paging.Example.{ram, memory}
use osassignment_hk.Process.{Inst, calc, read, Proc, Os}

abbrev pub calculate : Inst
calculate = record { opcode = calc; arg_0 = 0; arg_1 = 0; arg_2 = 0; arg_3 = 0 }

abbrev pub read_byte : Inst
read_byte = record { opcode = read; arg_0 = 0; arg_1 = 5; arg_2 = 9; arg_3 = 0 }

abbrev pub two_steps : Proc
two_steps = record {
  pid = 1;
  priority = 3;
  path = b'p' ∷ [];
  code = record { text = calculate ∷ read_byte ∷ []; size = 2 };
  regs = λ r. 0;
  pc = 0;
  prio = 1;
  mm = memory;
  page_table_size = 0;
  bp = 1024;
}

abbrev pub other_name : Proc
other_name = record two_steps { pid = 2; path = b'q' ∷ [] }

abbrev pub empty_queue : Queue ℕ
empty_queue = record { proc = replicate 10 none; size = 0 }

abbrev pub unset : Sched ℕ
unset = record {
  ready_queue = empty_queue;
  running_list = empty_queue;
  mlq_ready_queue = λ p. empty_queue;
  slot = λ p. 0;
  curr_prio = 0;
  curr_slot = 0;
  linked = [];
}

-- Process 7 is the other one.
abbrev pub two_processes : Os
two_processes = record {
  procs = λ h. if h == 7 then other_name else two_steps;
  freed = λ h. false;
  mram = ram;
  active_mswp = record ram { free_fp_list = 0 ∷ [] };
  sched = init_scheduler unset;
}
