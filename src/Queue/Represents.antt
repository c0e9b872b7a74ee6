-- ===== src/Queue/Represents.antt =====
-- A queue seen as the list of its processes, oldest first: what `enqueue` and `empty` do to it.
use mathlib.Core.List.{map-append, append_assoc}
use osassignment_hk.Base.{
  append_assoc, suc, ◌+◌, ◌≤◌, ◌<◌, ◌≡◌, refl, sym, ap, ◌∙◌, ◌⊎◌, inl, inr, true, false, ◌==◌, List,
  [], ◌∷◌, ◌++◌, map, length, length-append, length-map, length-set, set, set-middle, Option, some,
  Bool-cases, ==_iff, if◌then◌else◌, arith,
}
use osassignment_hk.Queue.{Queue, max_queue_size, empty, enqueue}

-- The slots below `size` hold the processes of `l`; those above hold anything.
pub record Represents {ℓ} {A : Type ℓ} (q : Queue A) (l : List A) : Type ℓ where
  pub rest : List (Option A)
  pub slots : q.proc ≡ map some l ++ rest
  pub counted : q.size ≡ length l
  pub whole : length q.proc ≡ max_queue_size

module _ {ℓ} {A : Type ℓ} {q : Queue A} {l : List A} (r : Represents q l) where
  pub size-le : length l ≤ max_queue_size
  size-le =
      omega
        (arith, ap length r.slots, length-append (map some l) r.rest, length-map some l, r.whole)

  -- `empty` tells whether the list is empty.
  pub empty_lem : empty q ≡ (length l == 0)
  unfolding empty
  empty_lem = ap (λ n. n == 0) r.counted

  module _ (a : A) (h : length l < max_queue_size) where
    enqueue_slots :
        (rest : List (Option A))
        → q.proc ≡ map some l ++ rest
        → (rest' : List (Option A)) × (set q.proc (length l) (some a)
            ≡ map some (l ++ a ∷ []) ++ rest')
    enqueue_slots [] e =
        absurd
          (omega (arith, ap length e, length-append (map some l) [], length-map some l, r.whole))
    enqueue_slots (x ∷ rest) e = (
      rest,
      rw (e, ← length-map some l, set-middle (map some l) rest x (some a), map-append some l)
          (sym (append_assoc (map some l) (some a ∷ []) rest)),
    )

    enqueue_room :
        enqueue q (some a) ≡ record { proc = set q.proc (length l) (some a); size = length l + 1 }
    unfolding enqueue
    enqueue_room = ground (arith, r.counted)

  -- With room for one more, `enqueue` appends its process.
  pub enqueue-Represents :
      (a : A) → length l < max_queue_size → Represents (enqueue q (some a)) (l ++ a ∷ [])
  enqueue-Represents a h =
      let (rest', e) = enqueue_slots a h r.rest r.slots in
      rw (enqueue_room a h) (record {
        rest = rest';
        slots = e;
        counted = omega (arith, length-append l (a ∷ []));
        whole = length-set q.proc (length l) (some a) ∙ r.whole;
      })

  -- A full queue drops the process.
  pub enqueue_full : (p : Option A) → length l ≡ max_queue_size → enqueue q p ≡ q
  unfolding enqueue
  enqueue_full p h = ground (arith, r.counted)

-- Whether a queue is empty, as its list and as `empty` tells it.
pub empty-cases {ℓ} :
    {A : Type ℓ} (q : Queue A) (l : List A)
    → Represents q l
    → ((l ≡ []) × (empty q ≡ true))
      ⊎ ((a : A) × (more : List A) × (l ≡ a ∷ more) × (empty q ≡ false))
empty-cases q [] r = inl (refl, empty_lem r)
empty-cases q (a ∷ more) r =
    let positive : (suc (length more) == 0) ≡ false = ground arith in
    inr (a, more, refl, empty_lem r ∙ positive)

-- What a queue holds after `enqueue`: one process more, unless ten are there already.
abbrev pub queued {ℓ} : {A : Type ℓ} → A → List A → List A
queued a l = if length l == max_queue_size then l else l ++ a ∷ []

-- A process that is put stands behind the others.
pub queued_behind {ℓ} :
    {A : Type ℓ} (b h : A) (front back : List A)
    → (back' : List A) × (queued b (front ++ h ∷ back) ≡ front ++ h ∷ back')
queued_behind b h front back = elim (Bool-cases (length (front ++ h ∷ back) == max_queue_size)) [
  | inl full ↦ rw full (back, refl)
  | inr room ↦ rw room (back ++ b ∷ [], append_assoc front (h ∷ back) (b ∷ []))
]

-- `enqueue` of a process puts it behind those that the queue holds; at ten processes it changes
-- nothing, and the process is dropped.
pub enqueue-queued {ℓ} :
    {A : Type ℓ} {q : Queue A} {l : List A} (a : A)
    → Represents q l
    → Represents (enqueue q (some a)) (queued a l)
enqueue-queued {q} {l} a r = elim (Bool-cases (length l == max_queue_size)) [
  | inl full ↦ rw (full, enqueue_full r (some a) ((==_iff (length l) max_queue_size).0 full)) r
  | inr room ↦ rw room (enqueue-Represents r a (ground (arith, size-le r)))
]
