-- ===== src/Queue/Shift.antt =====
-- The entries of the array around the process that is taken.
use mathlib.Core.List.{map-append, append_assoc}
use osassignment_hk.Base.{
  ℕ, subst, ◌+◌, ◌-◌, ◌≡◌, sym, ap, ◌∙◌, List, [], ◌∷◌, ◌++◌, map, length, length-append,
  length-map, get_or, get_or-middle, set, set-middle, Option, none, some, arith,
}
use osassignment_hk.Queue.{shift}

pub slot-middle {ℓ} :
    {A : Type ℓ} (xs : List A) (a : A) (ys : List A) (rest : List (Option A))
    → get_or (map some (xs ++ a ∷ ys) ++ rest) (length xs) none ≡ some a
slot-middle xs a ys rest =
    rw (map-append some xs, append_assoc (map some xs), ← length-map some xs)
      (get_or-middle (map some xs) (map some ys ++ rest) (some a) none)

shift-middle {ℓ} :
    {A : Type ℓ} (xs : List (Option A)) (a : Option A) (ys : List A) (rest : List (Option A))
    (i : ℕ)
    → i ≡ length xs
    → (z : Option A) × (shift (length ys) i (xs ++ a ∷ (map some ys ++ rest))
        ≡ xs ++ map some ys ++ z ∷ rest)
unfolding shift
shift-middle xs a [] rest i e = (a, sym (append_assoc xs [] (a ∷ rest)))
shift-middle xs a (y ∷ ys) rest i e =
    let more = map some ys ++ rest in
    let read : get_or (xs ++ a ∷ some y ∷ more) (i + 1) none ≡ some y =
      subst (λ k. get_or (xs ++ a ∷ some y ∷ more) k none ≡ some y)
        (omega (arith, length-append xs (a ∷ [])))
        (rw append_assoc at (get_or-middle (xs ++ a ∷ []) more (some y) none)) in
    let write : set (xs ++ a ∷ some y ∷ more) i (some y) ≡ (xs ++ some y ∷ []) ++ some y ∷ more =
      rw e (set-middle xs (some y ∷ more) a (some y) ∙ sym (append_assoc xs (some y ∷ []) _)) in
    let (z, done) =
      shift-middle (xs ++ some y ∷ []) (some y) ys rest (i + 1)
        (omega (arith, length-append xs (some y ∷ []))) in
    (
      z,
      ap (λ v. shift (length ys) (i + 1) (set (xs ++ a ∷ some y ∷ more) i v)) read
          ∙ ap (shift (length ys) (i + 1)) write
          ∙ done
          ∙ ap (λ t. t ++ z ∷ rest) (append_assoc xs (some y ∷ []) (map some ys)),
    )

-- The array after the entry `a` behind `before` is taken out, and its last slot is cleared.
pub slots-without {ℓ} :
    {A : Type ℓ} (before : List A) (a : A) (after : List A) (rest : List (Option A)) (n : ℕ)
    → n ≡ length before + length after
    → set
        (shift (n - length before) (length before) (map some (before ++ a ∷ after) ++ rest))
        n
        none
      ≡ map some (before ++ after) ++ none ∷ rest
slots-without before a after rest n e =
    let (z, shifted) =
      shift-middle (map some before) (some a) after rest (length before)
        (sym (length-map some before)) in
    let rounds : n - length before ≡ length after = omega arith in
    let last : n ≡ length (map some (before ++ after)) =
      omega (arith, length-map some (before ++ after), length-append before after) in
    let shifted' : shift (n - length before) (length before)
          (map some (before ++ a ∷ after) ++ rest)
        ≡ map some (before ++ after) ++ z ∷ rest =
      rw
        (
          rounds,
          map-append some before,
          map-append some before,
          append_assoc (map some before) (map some (a ∷ after)) rest,
        )
        shifted in
    rw (shifted', last) (set-middle (map some (before ++ after)) rest z none)
