-- ===== src/Simulator/Machine/Room.antt =====
-- How many processes a queue of src/sched.c can hold, if each is there once at most.
use osassignment_hk.Base.{
  ℕ, zero, suc, ◌+◌, ◌≤◌, ◌<◌, ◌≡◌, refl, ap, ◌∙◌, ℕ_discrete, List, [], ◌∷◌, ◌++◌, map, length,
  All, Option, some, arith,
}
use osassignment_hk.Queue.{Queue}
use osassignment_hk.Queue.Represents.{Represents}
use osassignment_hk.Killall.Items.{occurrences}

-- How many entries are below `n`.
total : ℕ → List ℕ → ℕ
total zero l = 0
total (suc n) l = occurrences n l + total n l

total_none : (n : ℕ) → total n [] ≡ 0
unfolding total occurrences
total_none zero = refl
total_none (suc n) = omega (arith, total_none n)

total_more : (n y : ℕ) (l : List ℕ) → n ≤ y → total n (y ∷ l) ≡ total n l
unfolding total occurrences
total_more zero y l h = refl
total_more (suc n) y l h = ground (arith, total_more n y l (omega arith))

total_less : (n y : ℕ) (l : List ℕ) → y < n → total n (y ∷ l) ≡ 1 + total n l
unfolding total occurrences
total_less zero y l h = absurd (omega arith)
total_less (suc n) y l h = elim (ℕ_discrete y n) [
  | yes e ↦ ground (arith, total_more n y l (omega arith))
  | no ne ↦ ground (arith, total_less n y l (omega arith))
]

length-total : (n : ℕ) (l : List ℕ) → All (λ x. x < n) l → total n l ≡ length l
length-total n [] a = total_none n
length-total n (y ∷ l) a = omega (arith, total_less n y l a.0, length-total n l a.1)

module _ (l : List ℕ) (once : (x : ℕ) → occurrences x l ≤ 1) where
  total-le : (n : ℕ) → total n l ≤ n
  unfolding total
  total-le zero = omega arith
  total-le (suc n) = omega (arith, once n, total-le n)

  total-lt : (n h : ℕ) → h < n → occurrences h l ≡ 0 → total n l < n
  unfolding total
  total-lt zero h lt none = absurd (omega arith)
  total-lt (suc n) h lt none = elim (ℕ_discrete h n) [
    | yes e ↦
        let gone : occurrences n l ≡ 0 = ap (λ k. occurrences k l) (omega arith) ∙ none in
        omega (arith, gone, total-le n)
    | no ne ↦ omega (arith, once n, total-lt n h (omega arith) none)
  ]

  -- All entries are below `n`.
  module _ (n : ℕ) (small : All (λ x. x < n) l) where
    pub length-le : length l ≤ n
    length-le = omega (arith, length-total n l small, total-le n)

    pub length-lt : (h : ℕ) → h < n → occurrences h l ≡ 0 → length l < n
    length-lt h lt none = omega (arith, length-total n l small, total-lt n h lt none)

some_tail :
    (l m : List ℕ) (r s : List (Option ℕ))
    → length l ≡ length m
    → map some l ++ r ≡ map some m ++ s
    → l ≡ m
some_tail [] [] r s e f = refl
some_tail [] (b ∷ m) r s e f = absurd (omega arith)
some_tail (a ∷ l) [] r s e f = absurd (omega arith)
some_tail (a ∷ l) (b ∷ m) r s e f = let rest = some_tail l m r s (omega arith) (cc) in cc

-- A queue has one list.
pub Represents-unique : {q : Queue ℕ} {l m : List ℕ} → Represents q l → Represents q m → l ≡ m
Represents-unique {q} {l} {m} r s =
    some_tail l m r.rest s.rest (omega (arith, r.counted, s.counted)) (cc)
