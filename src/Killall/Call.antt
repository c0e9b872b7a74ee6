-- ===== src/Killall/Call.antt =====
-- System call 101 of src/sys_killall.c from the register to the result.
use osassignment_hk.Base.{
  ℕ, ◌+◌, ◌<◌, ◌≡◌, ◌^◌, ◌∙◌, ap, refl, true, if◌then◌else◌, update_same, List, length, All, Option,
  some, ok, fault, >>=-step, if_true, arith,
}
use osassignment_hk.Queue.{max_queue_size}
use osassignment_hk.Sched.{Sched, max_prio}
use osassignment_hk.Sched.Valid.{View, IsValid}
use osassignment_hk.Libmem.{Junk}
use osassignment_hk.Process.{Os, set_sched, prio_of, caller_of, put_caller}
use osassignment_hk.Killall.{c_string, kill_named, is_linked, sys_killall}
use osassignment_hk.Killall.Copy.{values, AllMapped, copy_from_user_copies}
use osassignment_hk.Killall.Times.{is_named, released_os, Ready}
use osassignment_hk.Killall.Queues.{named_total}
use osassignment_hk.Killall.Items.{survivors, named_count, SameItems}
use osassignment_hk.Killall.Running.{AnyReady}
use osassignment_hk.Killall.View.{killed, found, kill_named-IsValid}

-- The memory code that changes nothing leaves the state.
put_caller-caller_of : (os : Os) (h : ℕ) → put_caller os h (caller_of os h) ≡ os
put_caller-caller_of os h =
    ap (λ f. record os { procs = f }) (update_same os.procs h (os.procs h) refl)

-- The name that the process `h` gives: the text of 99 bytes.
abbrev pub name_at : Os → (ℕ → ℕ) → List ℕ
name_at os at = c_string (values (λ k. os.mram.storage (at k)) 99 0)

module _ (junk : Junk) (temp : List (Option ℕ)) (os : Os) (h a1 : ℕ) (at : ℕ → ℕ)
    (mapped : AllMapped (caller_of os h) a1 at 99) (small : a1 < 2 ^ 32)
    (linked : is_linked os.sched.linked h ≡ true) where
  sys_killall_named : sys_killall junk temp os h a1 ≡ kill_named temp (name_at os at) os
  unfolding sys_killall
  sys_killall_named =
      >>=-step _ (
        copy_from_user_copies junk (caller_of os h) a1 99 at mapped (omega arith) small
          (omega arith))
      ∙ ap
          (λ (o : Os).
            if is_linked o.sched.linked h then kill_named temp (name_at os at) o else fault)
          (put_caller-caller_of os h)
      ∙ if_true _ _ linked

  -- Let the first 99 bytes of the region that the register names be in pages that are present, and
  -- the process be known to the scheduler, which is in a valid state, where no enlisted PCB is
  -- freed and those of the name have an area. Then system call 101 returns how many processes it
  -- found on the running list and in the ready queues whose name is the text of these bytes. It
  -- leaves a valid state in which the others wait as before, in their order, and are on the running
  -- list as often as before. Each process of the name has the regions that its registers name given
  -- back as often as it was found; nothing else changes.
  pub sys_killall-IsValid :
      (v : View ℕ)
      → length temp ≡ max_queue_size
      → IsValid (prio_of os) os.sched v
      → All (AnyReady os (name_at os at)) v.running
      → ((p : ℕ) → p < max_prio → All (Ready os.procs os.freed (name_at os at) p) (v.ready p))
      → (s : Sched ℕ) × (running : List ℕ) × (sys_killall junk temp os h a1
          ≡ ok (
            some (
                named_count (is_named os.procs (name_at os at)) v.running
                + named_total (is_named os.procs (name_at os at)) v.ready max_prio 0),
            set_sched (released_os (found (is_named os.procs (name_at os at)) v) os) s,
          ))
        × SameItems running (survivors (is_named os.procs (name_at os at)) v.running)
        × IsValid
            (prio_of os)
            s
            (record (killed (is_named os.procs (name_at os at)) v) { running = running })
  sys_killall-IsValid v whole valid listed ready =
      let (s, running, run, same, valid') =
        kill_named-IsValid temp os v whole valid (name_at os at) (is_named os.procs (name_at os at))
          refl listed ready in
      (s, running, sys_killall_named ∙ run, same, valid')
