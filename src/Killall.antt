-- ===== src/Killall.antt =====
-- src/sys_killall.c: the copies between a process's memory and the kernel, and system call 101, which
-- takes the processes of a name out of the queues. What is printed is not modelled. A freed PCB that
-- stands in a queue is followed by the code, which is a fault.
pub mod Copy
pub mod Release
pub mod Times
pub mod Survivors
pub mod Queues
pub mod Items
pub mod Cuts
pub mod Running
pub mod Thins
pub mod Stays
pub mod View
pub mod Call
mod Tests
use osassignment_hk.Base.{
  ℕ, zero, suc, ◌+◌, ◌%◌, ◌^◌, Bool, true, false, not, ◌&&◌, ltb, ◌==◌, if◌then◌else◌, update, List,
  [], ◌∷◌, length, Option, none, some, Ret, success, failure, Outcome, ok, fault, ◌>>=◌,
}
use osassignment_hk.Base.Bytes.{extend_byte, to_byte}
use osassignment_hk.Mm.{Caller}
use osassignment_hk.Queue.{Queue, empty, enqueue, dequeue}
use osassignment_hk.Sched.{Sched, max_prio}
use osassignment_hk.Libmem.{Junk, libfree}
use osassignment_hk.Paging.{libread, libwrite}
use osassignment_hk.Process.{Proc, Os, prio_of, caller_of, put_caller}

-- `vaild_useraddr`: its answer, and the process. The sum is of size_t.
unfoldable pub vaild_useraddr : Junk → Caller → ℕ → ℕ → Outcome (Bool × Caller)
unfolding libread
vaild_useraddr junk proc addr size =
    if size == 0
    then ok (false, proc)
    else if ltb ((addr + size) % 2 ^ 64) addr
    then ok (false, proc)
    else do
      (rc, _, proc) ← libread junk proc addr 0
      elim rc [ failure ↦ ok (false, proc) | success ↦ ok (true, proc) ]

-- The loop of `copy_from_user` from byte `i` on, with the rounds that are left: its code, the bytes
-- that it stored, and the process.
unfoldable pub from_user_loop : Junk → Caller → ℕ → ℕ → ℕ → Outcome (Ret × List ℕ × Caller)
unfolding libread
from_user_loop junk proc user_src zero i = ok (success, [], proc)
from_user_loop junk proc user_src (suc n) i = do
  (rc, word, proc) ← libread junk proc user_src i
  elim rc [
    | failure ↦ ok (failure, [], proc)
    | success ↦ do
      (rc, rest, proc) ← from_user_loop junk proc user_src n (i + 1)
      ok (rc, to_byte word ∷ rest, proc)
  ]

unfoldable pub copy_from_user : Junk → Caller → ℕ → ℕ → Outcome (Ret × List ℕ × Caller)
unfolding vaild_useraddr from_user_loop
copy_from_user junk proc user_src size = do
  (valid, proc) ← vaild_useraddr junk proc user_src size
  if valid then from_user_loop junk proc user_src size 0 else ok (failure, [], proc)

-- The loop of `copy_to_user` over the bytes that are left. It hands `libwrite` the region as the byte,
-- the index as the region, and the byte, extended by its sign, as the offset.
unfoldable pub to_user_loop : Junk → Caller → ℕ → List ℕ → ℕ → Outcome (Ret × Caller)
unfolding libwrite
to_user_loop junk proc user_dst [] i = ok (success, proc)
to_user_loop junk proc user_dst (b ∷ src) i = do
  (rc, proc) ← libwrite junk proc (to_byte user_dst) i (extend_byte b)
  elim rc [ failure ↦ ok (failure, proc) | success ↦ to_user_loop junk proc user_dst src (i + 1) ]

unfoldable pub copy_to_user : Junk → Caller → ℕ → List ℕ → Outcome (Ret × Caller)
unfolding vaild_useraddr to_user_loop
copy_to_user junk proc user_dst src = do
  (valid, proc) ← vaild_useraddr junk proc user_dst (length src)
  if valid then to_user_loop junk proc user_dst src 0 else ok (failure, proc)

-- The text of an array of characters, before its NUL.
unfoldable pub c_string : List ℕ → List ℕ
c_string [] = []
c_string (c ∷ rest) = let text = c_string rest in if c == 0 then [] else c ∷ text

-- `strcmp(...) == 0` on texts
unfoldable pub same_text : List ℕ → List ℕ → Bool
same_text [] [] = true
same_text [] (d ∷ t) = false
same_text (c ∷ s) [] = false
same_text (c ∷ s) (d ∷ t) = (c == d) && same_text s t

-- The loop that frees the registers of a process from register `j` on, with the rounds that are left.
unfoldable pub free_regs : Os → ℕ → ℕ → ℕ → Outcome Os
unfolding libfree
free_regs os h zero j = ok os
free_regs os h (suc n) j =
    let rest = λ (os' : Os). free_regs os' h n (j + 1) in
    if (os.procs h).regs j == 0 then rest os else do
      (_, caller) ← libfree (caller_of os h) ((os.procs h).regs j)
      rest (put_caller os h caller)

-- The state of the loops over a queue: the queue, `temp_queue`, the count, and the rest.
pub record Purge : Type 0 where
  pub queue : Queue ℕ
  pub temp : Queue ℕ
  pub terminated : ℕ
  pub os : Os

-- One process that was taken out: it is terminated, or put aside.
unfoldable pub judge : List ℕ → ℕ → Purge → Outcome Purge
unfolding same_text free_regs
judge name h s =
    if s.os.freed h
    then fault
    else if same_text (s.os.procs h).path name
    then (do os ← free_regs s.os h 10 0; ok (record s { terminated = s.terminated + 1; os = os }))
    else ok (record s { temp = enqueue s.temp (some h) })

-- The loop that empties a queue, with the rounds that are left.
unfoldable pub purge_loop : List ℕ → ℕ → Purge → Outcome Purge
unfolding judge
purge_loop name zero s = ok s
purge_loop name (suc n) s =
    let taken = do
      (proc, q) ← dequeue (prio_of s.os) s.queue
      elim proc [
        | none ↦ ok (record s { queue = q })
        | some h ↦ do s' ← judge name h (record s { queue = q }); purge_loop name n s'
      ]
    in if empty s.queue then ok s else taken

-- The loop that moves the processes back, with the rounds that are left.
unfoldable pub restore_loop : (ℕ → ℕ) → ℕ → Queue ℕ → Queue ℕ → Outcome (Queue ℕ)
restore_loop prio zero queue temp = ok queue
restore_loop prio (suc n) queue temp =
    let moved = do (proc, temp') ← dequeue prio temp; restore_loop prio n (enqueue queue proc) temp'
    in if empty temp then ok queue else moved

-- What `__sys_killall` does to a queue: the queue, the count, and the rest. Each loop makes at most as
-- many rounds as the queue that it empties has processes. `temp` is what the array of `temp_queue` holds
-- before it is used.
unfoldable pub purge : List (Option ℕ) → List ℕ → Queue ℕ → ℕ → Os → Outcome (Queue ℕ × ℕ × Os)
unfolding purge_loop restore_loop
purge temp name queue terminated os = do
  s ← purge_loop name queue.size (record {
    queue = queue;
    temp = record { proc = temp; size = 0 };
    terminated = terminated;
    os = os;
  })
  queue ← restore_loop (prio_of s.os) s.temp.size s.queue s.temp
  ok (queue, s.terminated, s.os)

abbrev pub set_ready : Os → ℕ → Queue ℕ → Os
set_ready os p q = record os {
  sched = record os.sched { mlq_ready_queue = update os.sched.mlq_ready_queue p q };
}

abbrev pub set_running : Os → Queue ℕ → Os
set_running os q = record os { sched = record os.sched { running_list = q } }

-- The loop over the ready queues from priority `p` on, with the rounds that are left.
unfoldable pub purge_ready : List (Option ℕ) → List ℕ → ℕ → ℕ → ℕ → Os → Outcome (ℕ × Os)
unfolding purge
purge_ready temp name zero p terminated os = ok (terminated, os)
purge_ready temp name (suc n) p terminated os = do
  (q, terminated, os) ← purge temp name (os.sched.mlq_ready_queue p) terminated os
  purge_ready temp name n (p + 1) terminated (set_ready os p q)

-- The part of `__sys_killall` that knows the name.
unfoldable pub kill_named : List (Option ℕ) → List ℕ → Os → Outcome (Option ℕ × Os)
unfolding purge purge_ready
kill_named temp name os = do
  (q, terminated, os) ← purge temp name os.sched.running_list 0 os
  (terminated, os) ← purge_ready temp name max_prio 0 terminated (set_running os q)
  ok (some terminated, os)

-- Whether the pointers of a PCB to the queues were set.
unfoldable pub is_linked : List ℕ → ℕ → Bool
is_linked [] h = false
is_linked (k ∷ rest) h = let later = is_linked rest h in if k == h then true else later

-- `__sys_killall` of the process `h` with the register `a1`: the count, or `none` for -1.
unfoldable pub sys_killall : Junk → List (Option ℕ) → Os → ℕ → ℕ → Outcome (Option ℕ × Os)
unfolding copy_from_user c_string kill_named is_linked
sys_killall junk temp os h a1 = do
  (rc, proc_name, caller) ← copy_from_user junk (caller_of os h) a1 99
  let os = put_caller os h caller
  elim rc [
    | failure ↦ ok (none, os)
    | success ↦
        if is_linked os.sched.linked h then kill_named temp (c_string proc_name) os else fault
  ]
