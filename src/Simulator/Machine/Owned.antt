-- ===== src/Simulator/Machine/Owned.antt =====
-- What the parts of src/sched.c, src/cpu.c and src/os.c that a step of a thread runs do to the
-- processes that the CPUs hold and that wait.
use osassignment_hk.Base.{
  refl, ◌≤◌, ◌<◌, length, Holds-ok, ℕ, ◌+◌, ◌≡◌, sym, ap, subst, ◌∙◌, inl, inr, true, update,
  update_same, update_other, dec_lt, List, Option, none, some, ok, Holds, Holds-ok, arith,
}
use osassignment_hk.Sched.{Sched, max_prio, put_mlq_proc, add_mlq_proc, get_locked}
use osassignment_hk.Sched.Valid.{
  View, IsValid, mlq_view, put_mlq_proc-IsValid, put_mlq_proc-fault, add_mlq_proc-IsValid,
  add_mlq_proc-fault,
}
use osassignment_hk.Sched.Service.{Turn-in-reach}
use osassignment_hk.Sched.Turns.{get_locked-Turns}
use osassignment_hk.Libmem.{Junk}
use osassignment_hk.Process.{Proc, Os, set_proc, set_sched, prio_of}
use osassignment_hk.Cpu.{fetch, run}
use osassignment_hk.Simulator.Machine.{listed}
use osassignment_hk.Killall.Items.{occurrences}
use osassignment_hk.Cpu.Tame.{IsTame, RunFramed, run-RunFramed}
use osassignment_hk.Queue.Represents.{Represents, queued, enqueue-queued}
use osassignment_hk.Simulator.Machine.Room.{Represents-unique}
use osassignment_hk.Cpu.Stays.{run-Stays}
use osassignment_hk.Killall.Stays.{Stays}
use osassignment_hk.Queue.{max_queue_size}
use osassignment_hk.Simulator.Machine.Lists.{waits, All-elsewhere}
use osassignment_hk.Simulator.Machine.Places.{
  Places, Places-drop, Places-put, Places-add, Places-unborn,
}
use osassignment_hk.Simulator.Machine.Taken.{Places-take, Places-fewer, Places-same}

-- The scheduler is valid, and the processes are where they can be, if the loader has added those
-- below `i`. Under the condition `C` no code has a call of killall, and a queue has room for all.
pub record Owned (C : Type 0) (held : ℕ → Option ℕ) (i : ℕ) (os : Os) : Type 0 where
  pub view : View ℕ
  pub valid : IsValid (prio_of os) os.sched view
  pub places : Places C held os.freed i view
  pub few : C → i ≤ max_queue_size

module _ {C : Type 0} {held : ℕ → Option ℕ} {i : ℕ} {os : Os} (owned : Owned C held i os) where
  abbrev v : View ℕ
  v = owned.view

  pub Owned-drop :
      (c h : ℕ)
      → held c ≡ some h
      → Owned C (update held c none) i (record os { freed = update os.freed h true })
  Owned-drop c h has = record {
    view = v;
    valid = owned.valid;
    places = Places-drop owned.places c h has;
    few = owned.few;
  }

  -- The first part of `put_proc` and of `add_proc`.
  pub Owned-list : (h : ℕ) → Owned C held i (set_sched os (listed h os.sched))
  Owned-list h = record {
    view = record v { running = queued h v.running };
    valid = record {
      holds = owned.valid.holds;
      lists = enqueue-queued h owned.valid.lists;
      sorted = owned.valid.sorted;
      slots = owned.valid.slots;
      prio_eq = owned.valid.prio_eq;
      slot_eq = owned.valid.slot_eq;
      in_range = owned.valid.in_range;
      budget = owned.valid.budget;
    };
    places = Places-same owned.places refl;
    few = owned.few;
  }

  -- The second part of `put_proc`.
  pub Owned-put :
      (c h : ℕ) (s : Sched ℕ)
      → held c ≡ some h
      → put_mlq_proc (prio_of os) h os.sched ≡ ok s
      → Owned C (update held c none) i (set_sched os s)
  Owned-put c h s has e = elim (dec_lt (prio_of os h) max_prio) [
    | yes bound ↦
        let (s', e', valid') = put_mlq_proc-IsValid owned.valid h bound in
        record {
          view = mlq_view (prio_of os) h v;
          valid = subst (λ t. IsValid (prio_of os) t (mlq_view (prio_of os) h v)) (cc) valid';
          places = Places-same (Places-put owned.places c h has (prio_of os) bound owned.few) refl;
          few = owned.few;
        }
    | no over ↦ absurd (let f = put_mlq_proc-fault (prio_of os) h os.sched (omega arith) in cc)
  ]

  pub Owned-take :
      (c : ℕ) (proc : Option ℕ) (s : Sched ℕ)
      → held c ≡ none
      → get_locked (prio_of os) os.sched ≡ ok (proc, s)
      → Owned C (update held c proc) i (set_sched os s)
  Owned-take c proc s free_c e =
      let (r, s', w, e', turn, valid') = get_locked-Turns owned.valid in
      let got : r ≡ proc = cc in
      let left : s' ≡ s = cc in
      record {
        view = w;
        valid = subst (λ t. IsValid (prio_of os) t w) left valid';
        places = elim (Turn-in-reach owned.valid.in_range turn) [
          | inl (nothing, same, _) ↦
              Places-fewer owned.places (update_same held c proc (free_c ∙ sym nothing ∙ got))
                (λ p x.
                  let even : waits w p x ≡ waits v p x = ap (λ r. occurrences x (r p)) same in
                  omega (arith, even))
                (λ cond p x b.
                  let even : waits w p x ≡ waits v p x = ap (λ r. occurrences x (r p)) same in
                  omega (arith, even))
          | inr (a, some_a, r) ↦
              subst (λ o. Places C (update held c o) os.freed i w) (sym some_a ∙ got)
                (Places-take owned.places (prio_of os) c owned.valid.sorted r free_c)
        ];
        few = owned.few;
      }

  pub Owned-run :
      (junk : Junk) (temp : List (Option ℕ)) (h : ℕ) (stat : Option ℕ) (after : Os)
      → length temp ≡ max_queue_size
      → Holds IsTame (fetch (os.procs h).code.text (os.procs h).pc)
      → run junk temp os h ≡ ok (stat, after)
      → Owned C held i after
  Owned-run junk temp h stat after whole tame e =
      let (w, k) =
        Holds-ok (λ r. Stays os v r.1) (run junk temp os h) (stat, after)
          (run-Stays junk temp whole os h v owned.valid) e in
      -- An instruction that does not call killall leaves the queues.
      let (_, frame) =
        Holds-ok (RunFramed junk temp os h) (run junk temp os h) (stat, after)
          (run-RunFramed junk temp os h tame) e in
      let same : (p : ℕ) → p < max_prio → w.ready p ≡ v.ready p = λ p b.
        Represents-unique (k.valid.holds p b) (
          subst (λ (s : Sched ℕ). Represents (s.mlq_ready_queue p) (v.ready p)) (sym frame.sched)
            (owned.valid.holds p b)) in
      record {
        view = w;
        valid = k.valid;
        places =
            subst (λ freed. Places C held freed i w) (sym k.freed)
              (Places-fewer owned.places (λ i. held) k.fewer
                (λ cond p x b.
                  let even : waits w p x ≡ waits v p x = ap (occurrences x) (same p b) in
                  omega (arith, even)));
        few = owned.few;
      }

  -- The PCB of a process that waits nowhere.
  pub Owned-set_proc : (proc : Proc) → Owned C held i (set_proc os i proc)
  Owned-set_proc proc =
      let gone : (p : ℕ) → waits v p i ≡ 0 = Places-unborn owned.places in
      record {
        view = v;
        valid = record {
          holds = owned.valid.holds;
          lists = owned.valid.lists;
          slots = owned.valid.slots;
          prio_eq = owned.valid.prio_eq;
          slot_eq = owned.valid.slot_eq;
          in_range = owned.valid.in_range;
          budget = owned.valid.budget;
          sorted = λ p.
              All-elsewhere (prio_of os) (prio_of (set_proc os i proc)) i p (v.ready p)
                (λ k ne. ap (λ (p : Proc). p.prio) (update_other os.procs i proc k ne)) (gone p)
                (owned.valid.sorted p);
        };
        places = owned.places;
        few = owned.few;
      }

  -- The second part of `add_proc`.
  pub Owned-add :
      (s : Sched ℕ)
      → add_mlq_proc (prio_of os) i os.sched ≡ ok s
      → (C → i < max_queue_size)
      → Owned C held (i + 1) (set_sched os s)
  Owned-add s e more = elim (dec_lt (prio_of os i) max_prio) [
    | yes bound ↦
        let (s', e', valid') = add_mlq_proc-IsValid owned.valid i bound in
        record {
          view = mlq_view (prio_of os) i v;
          valid = subst (λ t. IsValid (prio_of os) t (mlq_view (prio_of os) i v)) (cc) valid';
          places = Places-same (Places-add owned.places (prio_of os) bound more) refl;
          few = λ cond. omega (arith, more cond);
        }
    | no over ↦ absurd (let f = add_mlq_proc-fault (prio_of os) i os.sched (omega arith) in cc)
  ]
