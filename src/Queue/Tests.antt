-- ===== src/Queue/Tests.antt =====
-- Runs of the queue over numbers that are their own priority, and the theorems at them.
use osassignment_hk.Base.{ℕ, ◌≡◌, refl, true, List, [], ◌∷◌, replicate, none, some, ok, fault}
use osassignment_hk.Queue.{Queue, empty_ptr, enqueue, enqueue_ptr, dequeue, dequeue_ptr}
use osassignment_hk.Queue.Represents.{Represents, queued, enqueue-queued}
use osassignment_hk.Queue.Select.{Selects, dequeue-Selects}

abbrev blank : Queue ℕ
blank = record { proc = replicate 10 none; size = 0 }

-- 5, 3, 7, 3 were put, in this order.
abbrev mixed : Queue ℕ
mixed = record { proc = some 5 ∷ some 3 ∷ some 7 ∷ some 3 ∷ replicate 6 none; size = 4 }

abbrev itself : ℕ → ℕ
itself n = n

mixed_built :
    enqueue (enqueue (enqueue (enqueue blank (some 5)) (some 3)) (some 7)) (some 3) ≡ mixed
unfolding enqueue
mixed_built = refl

mixed_taken :
    dequeue itself mixed
    ≡ ok (some 3, record { proc = some 5 ∷ some 7 ∷ some 3 ∷ none ∷ replicate 6 none; size = 3 })
unfolding dequeue
mixed_taken = refl

-- A count that is too large makes the loop read a NULL pointer.
too_large : dequeue itself (record mixed { size = 5 }) ≡ fault
unfolding dequeue
too_large = refl

null_queue :
    (empty_ptr {A = ℕ} none ≡ true)
    × (enqueue_ptr {A = ℕ} none (some 1) ≡ none)
    × (dequeue_ptr itself none ≡ ok (none, none))
unfolding empty_ptr enqueue_ptr dequeue_ptr
null_queue = (refl, refl, refl)

mixed-Represents : Represents mixed (5 ∷ 3 ∷ 7 ∷ 3 ∷ [])
mixed-Represents = record { rest = replicate 6 none; slots = refl; counted = refl; whole = refl }

dequeue-Selects_example :
    (a : ℕ) × (q : Queue ℕ) × (others : List ℕ) × (dequeue itself mixed ≡ ok (some a, q))
    × Selects itself (5 ∷ 3 ∷ 7 ∷ 3 ∷ []) a others
    × Represents q others
dequeue-Selects_example = dequeue-Selects itself (5 ∷ 3 ∷ 7 ∷ 3 ∷ []) mixed-Represents (λ e. cc)

enqueue-queued_example : Represents (enqueue mixed (some 9)) (queued 9 (5 ∷ 3 ∷ 7 ∷ 3 ∷ []))
enqueue-queued_example = enqueue-queued 9 mixed-Represents
