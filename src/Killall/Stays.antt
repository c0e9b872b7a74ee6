-- ===== src/Killall/Stays.antt =====
-- What system call 101 leaves of the scheduler, whatever the processes are that it meets.
use osassignment_hk.Base.{
  ℕ, zero, suc, ◌+◌, ◌≤◌, ◌<◌, ◌≡◌, sym, subst, ◌∙◌, update, update-all, update-all₂, List, length,
  Option, none, success, failure, if◌then◌else◌, ok, fault, Holds, Holds-map, Holds-if, Holds->>=,
  Holds-any, arith,
}
use osassignment_hk.Libmem.{Junk}
use osassignment_hk.Queue.{Queue, max_queue_size}
use osassignment_hk.Queue.Represents.{Represents}
use osassignment_hk.Sched.{max_prio}
use osassignment_hk.Sched.Valid.{View, IsValid}
use osassignment_hk.Process.{Os, prio_of, caller_of, put_caller}
use osassignment_hk.Killall.{
  purge, set_ready, set_running, purge_ready, kill_named, is_linked, c_string, copy_from_user,
  sys_killall,
}
use osassignment_hk.Killall.Items.{All-fewer, occurrences}
use osassignment_hk.Killall.Thins.{
  SameSched, SameSched-refl, put_caller-SameSched, Thins, purge-Thins,
}

-- The scheduler of `after` is valid, and no process waits that did not wait before.
pub record Kept (os after : Os) (v w : View ℕ) : Type 0 where
  pub prio : prio_of after ≡ prio_of os
  pub freed : after.freed ≡ os.freed
  pub valid : IsValid (prio_of after) after.sched w
  pub fewer : (p x : ℕ) → occurrences x (w.ready p) ≤ occurrences x (v.ready p)

abbrev pub Stays : Os → View ℕ → Os → Type 0
Stays os v after = (w : View ℕ) × Kept os after v w

pub SameSched-IsValid :
    (os after : Os) (v : View ℕ)
    → IsValid (prio_of os) os.sched v
    → SameSched os after
    → IsValid (prio_of after) after.sched v
SameSched-IsValid os after v valid f =
    subst (λ s. IsValid (prio_of after) s v) (sym f.sched)
      (subst (λ prio. IsValid prio os.sched v) (sym f.prio) valid)

pub SameSched-Stays :
    (os after : Os) (v : View ℕ)
    → IsValid (prio_of os) os.sched v
    → SameSched os after
    → Stays os v after
SameSched-Stays os after v valid f = (
  v,
  record {
    prio = f.prio;
    freed = f.freed;
    valid = SameSched-IsValid os after v valid f;
    fewer = λ p x. omega arith;
  },
)

pub Stays-trans : (a b c : Os) (v : View ℕ) (s : Stays a v b) → Stays b s.0 c → Stays a v c
Stays-trans a b c v (w, k) (u, m) = (
  u,
  record {
    prio = m.prio ∙ k.prio;
    freed = m.freed ∙ k.freed;
    valid = m.valid;
    fewer = λ p x. omega (arith, m.fewer p x, k.fewer p x);
  },
)

-- One ready queue is thinned out.
set_ready-Stays :
    (os : Os) (v : View ℕ) (p n : ℕ) (q : Queue ℕ) (after : Os)
    → IsValid (prio_of os) os.sched v
    → Thins os (v.ready p) (q, n, after)
    → Stays os v (set_ready after p q)
set_ready-Stays os v p n q after valid d =
    let w = record v { ready = update v.ready p d.rest } in
    let fewer : (k x : ℕ) → occurrences x (w.ready k) ≤ occurrences x (v.ready k) =
      update-all (λ k l. (x : ℕ) → occurrences x l ≤ occurrences x (v.ready k)) v.ready p d.rest
        d.fewer (λ k ne x. omega arith) in
    let valid' = SameSched-IsValid os after v valid d.same in
    (
      w,
      record {
        prio = d.same.prio;
        freed = d.same.freed;
        valid = record {
          holds =
              update-all₂ (λ k q l. k < max_prio → Represents q l) after.sched.mlq_ready_queue
                v.ready p q d.rest (λ b. d.holds) (λ k ne. valid'.holds k);
          lists = valid'.lists;
          sorted = λ k.
              All-fewer (λ x. prio_of after x ≡ k) (v.ready k) (w.ready k) (fewer k)
                (valid'.sorted k);
          slots = valid'.slots;
          prio_eq = valid'.prio_eq;
          slot_eq = valid'.slot_eq;
          in_range = valid'.in_range;
          budget = valid'.budget;
        };
        fewer = fewer;
      },
    )

-- The running list is thinned out.
set_running-Stays :
    (os : Os) (v : View ℕ) (n : ℕ) (q : Queue ℕ) (after : Os)
    → IsValid (prio_of os) os.sched v
    → Thins os v.running (q, n, after)
    → Stays os v (set_running after q)
set_running-Stays os v n q after valid d =
    let valid' = SameSched-IsValid os after v valid d.same in
    (
      record v { running = d.rest },
      record {
        prio = d.same.prio;
        freed = d.same.freed;
        valid = record {
          holds = valid'.holds;
          lists = d.holds;
          sorted = valid'.sorted;
          slots = valid'.slots;
          prio_eq = valid'.prio_eq;
          slot_eq = valid'.slot_eq;
          in_range = valid'.in_range;
          budget = valid'.budget;
        };
        fewer = λ p x. omega arith;
      },
    )

module _ (temp : List (Option ℕ)) (whole : length temp ≡ max_queue_size) (name : List ℕ) where
  purge_ready-Stays :
      (n p terminated : ℕ) (os : Os) (v : View ℕ)
      → p + n ≤ max_prio
      → IsValid (prio_of os) os.sched v
      → Holds (λ r. Stays os v r.1) (purge_ready temp name n p terminated os)
  unfolding purge_ready
  purge_ready-Stays zero p terminated os v le valid =
      SameSched-Stays os os v valid (SameSched-refl os)
  purge_ready-Stays (suc n) p terminated os v le valid =
      Holds->>= (Thins os (v.ready p)) (λ r. Stays os v r.1)
        (purge temp name (os.sched.mlq_ready_queue p) terminated os) _
        (purge-Thins temp name (os.sched.mlq_ready_queue p) terminated os (v.ready p) whole
          (valid.holds p (omega arith)))
        (λ (q, t, after) d.
          let s = set_ready-Stays os v p t q after valid d in
          Holds-map (λ r. Stays (set_ready after p q) s.0 r.1) (λ r. Stays os v r.1)
            (purge_ready temp name n (p + 1) t (set_ready after p q))
            (λ r later. Stays-trans os (set_ready after p q) r.1 v s later)
            (purge_ready-Stays n (p + 1) t (set_ready after p q) s.0 (omega arith) s.1.valid))

  kill_named-Stays :
      (os : Os) (v : View ℕ)
      → IsValid (prio_of os) os.sched v
      → Holds (λ r. Stays os v r.1) (kill_named temp name os)
  unfolding kill_named
  kill_named-Stays os v valid =
      Holds->>= (Thins os v.running) (λ r. Stays os v r.1)
        (purge temp name os.sched.running_list 0 os) _
        (purge-Thins temp name os.sched.running_list 0 os v.running whole valid.lists)
        (λ (q, t, after) d.
          let s = set_running-Stays os v t q after valid d in
          Holds->>= (λ r. Stays (set_running after q) s.0 r.1) (λ r. Stays os v r.1)
            (purge_ready temp name max_prio 0 t (set_running after q)) _
            (purge_ready-Stays max_prio 0 t (set_running after q) s.0 (omega arith) s.1.valid)
            (λ r later. Stays-trans os (set_running after q) r.1 v s later))

-- System call 101 of any process and any register, in a valid state of the scheduler.
pub sys_killall-Stays :
    (junk : Junk) (temp : List (Option ℕ)) (os : Os) (h a1 : ℕ) (v : View ℕ)
    → length temp ≡ max_queue_size
    → IsValid (prio_of os) os.sched v
    → Holds (λ r. Stays os v r.1) (sys_killall junk temp os h a1)
unfolding sys_killall
sys_killall-Stays junk temp os h a1 v whole valid =
    Holds-any (λ r. Stays os v r.1) (copy_from_user junk (caller_of os h) a1 99) _
      (λ (rc, proc_name, caller).
        let s =
          SameSched-Stays os (put_caller os h caller) v valid (put_caller-SameSched os h caller) in
        elim rc
          as (λ rc.
            Holds (λ r. Stays os v r.1)
              (elim rc [
                | failure ↦ ok (none, put_caller os h caller)
                | success ↦
                    if is_linked os.sched.linked h
                    then kill_named temp (c_string proc_name) (put_caller os h caller)
                    else fault
              ])) [
                | failure ↦ s
                | success ↦
                    Holds-if (λ r. Stays os v r.1) (is_linked os.sched.linked h) _ _
                      (λ e.
                        Holds-map (λ r. Stays (put_caller os h caller) s.0 r.1)
                          (λ r. Stays os v r.1)
                          (kill_named temp (c_string proc_name) (put_caller os h caller))
                          (λ r later. Stays-trans os (put_caller os h caller) r.1 v s later)
                          (kill_named-Stays temp whole (c_string proc_name) (put_caller os h caller)
                            s.0 s.1.valid))
                      (λ e. tt)
              ])
