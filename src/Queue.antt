-- ===== src/Queue.antt =====
-- src/queue.c and include/queue.h: the array of at most ten process pointers under every list of
-- the scheduler. A pointer is `none` for NULL; the entries `A` stand for PCBs, and `prio` reads
-- the field `prio` of the PCB behind a pointer. Reading it through NULL, or outside the array, is
-- a fault.
pub mod Represents
pub mod Shift
pub mod Select
pub mod Fifo
mod Tests
use osassignment_hk.Base.{
  ℕ, zero, suc, ◌+◌, ◌-◌, Bool, true, ltb, ◌==◌, if◌then◌else◌, List, get_or, set, Option, none,
  some, Outcome, ok, fault, ◌>>=◌,
}

-- MAX_QUEUE_SIZE
abbrev pub max_queue_size : ℕ
max_queue_size = 10

-- `struct queue_t`
pub record Queue {ℓ} (A : Type ℓ) : Type ℓ where
  pub proc : List (Option A)
  pub size : ℕ

module _ {ℓ} {A : Type ℓ} where
  -- `empty` behind its test for NULL
  unfoldable pub empty : Queue A → Bool
  empty q = q.size == 0

  unfoldable pub empty_ptr : Option (Queue A) → Bool
  unfolding empty
  empty_ptr none = true
  empty_ptr (some q) = empty q

  -- `enqueue` behind its test for NULL: a full queue is left alone.
  unfoldable pub enqueue : Queue A → Option A → Queue A
  enqueue q p =
      if q.size == max_queue_size
      then q
      else record { proc = set q.proc q.size p; size = q.size + 1 }

  unfoldable pub enqueue_ptr : Option (Queue A) → Option A → Option (Queue A)
  unfolding enqueue
  enqueue_ptr none p = none
  enqueue_ptr (some q) p = some (enqueue q p)

  abbrev pub not_null : Option A → Outcome A
  not_null none = fault
  not_null (some a) = ok a

  -- `q->proc[i]`, where it is dereferenced
  unfoldable pub deref : List (Option A) → ℕ → Outcome A
  deref slots i = not_null (get_or slots i none)

  -- The loop over `i` that looks for the least `prio`, with the rounds that are left.
  unfoldable pub find_best : (A → ℕ) → List (Option A) → ℕ → ℕ → ℕ → Outcome ℕ
  unfolding deref
  find_best prio slots zero i best_idx = ok best_idx
  find_best prio slots (suc n) i best_idx = do
    a ← deref slots i
    b ← deref slots best_idx
    find_best prio slots n (i + 1) (if ltb (prio a) (prio b) then i else best_idx)

  -- The loop that moves the entries behind `best_idx` forward, with the rounds that are left.
  unfoldable pub shift : ℕ → ℕ → List (Option A) → List (Option A)
  shift zero i slots = slots
  shift (suc n) i slots = shift n (i + 1) (set slots i (get_or slots (i + 1) none))

  -- `dequeue` behind its test for NULL
  unfoldable pub dequeue : (A → ℕ) → Queue A → Outcome (Option A × Queue A)
  unfolding find_best shift
  dequeue prio q = if q.size == 0 then ok (none, q) else do
    best_idx ← find_best prio q.proc (q.size - 1) 1 0
    let p = get_or q.proc best_idx none
    let slots = shift (q.size - 1 - best_idx) best_idx q.proc
    ok (p, record { proc = set slots (q.size - 1) none; size = q.size - 1 })

  unfoldable pub dequeue_ptr : (A → ℕ) → Option (Queue A) → Outcome (Option A × Option (Queue A))
  unfolding dequeue
  dequeue_ptr prio none = ok (none, none)
  dequeue_ptr prio (some q) = do (p, q') ← dequeue prio q; ok (p, some q')
