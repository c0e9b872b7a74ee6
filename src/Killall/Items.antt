-- ===== src/Killall/Items.antt =====
-- Lists of processes up to their order, for the queues whose processes have different priorities.
use osassignment_hk.Base.{
  ◌≤◌, ◌<◌, subst, ℕ_discrete, ℕ, ◌+◌, ◌≡◌, inl, inr, Bool, ◌==◌, if◌then◌else◌, List, [], ◌∷◌,
  ◌++◌, All, Bool-cases, arith,
}

-- The processes with another name, and how many have the name.
unfoldable pub survivors : (ℕ → Bool) → List ℕ → List ℕ
survivors named [] = []
survivors named (h ∷ l) = let rest = survivors named l in if named h then rest else h ∷ rest

unfoldable pub named_count : (ℕ → Bool) → List ℕ → ℕ
named_count named [] = 0
named_count named (h ∷ l) = (if named h then 1 else 0) + named_count named l

-- How often a list has `x`.
unfoldable pub occurrences : ℕ → List ℕ → ℕ
occurrences x [] = 0
occurrences x (y ∷ l) = (if y == x then 1 else 0) + occurrences x l

-- The same processes, each as often, in any order.
abbrev pub SameItems : List ℕ → List ℕ → Type 0
SameItems l m = (x : ℕ) → occurrences x l ≡ occurrences x m

pub occurrences-append :
    (x : ℕ) (l m : List ℕ) → occurrences x (l ++ m) ≡ occurrences x l + occurrences x m
unfolding occurrences
occurrences-append x [] m = omega arith
occurrences-append x (y ∷ l) m = omega (arith, occurrences-append x l m)

pub occurrences-middle :
    (x : ℕ) (before : List ℕ) (a : ℕ) (after : List ℕ)
    → occurrences x (before ++ a ∷ after) ≡ occurrences x (a ∷ []) + occurrences x (before ++ after)
unfolding occurrences
occurrences-middle x [] a after = omega arith
occurrences-middle x (b ∷ before) a after = omega (arith, occurrences-middle x before a after)

pub named_count-middle :
    (named : ℕ → Bool) (before : List ℕ) (a : ℕ) (after : List ℕ)
    → named_count named (before ++ a ∷ after)
      ≡ named_count named (a ∷ []) + named_count named (before ++ after)
unfolding named_count
named_count-middle named [] a after = omega arith
named_count-middle named (b ∷ before) a after =
    omega (arith, named_count-middle named before a after)

pub survivors-middle :
    (named : ℕ → Bool) (x : ℕ) (before : List ℕ) (a : ℕ) (after : List ℕ)
    → occurrences x (survivors named (before ++ a ∷ after))
      ≡ occurrences x (survivors named (a ∷ [])) + occurrences x (survivors named (before ++ after))
unfolding survivors occurrences
survivors-middle named x [] a after = elim (Bool-cases (named a)) [
  | inl e ↦ rw e (omega arith)
  | inr e ↦ rw e (omega arith)
]
survivors-middle named x (b ∷ before) a after =
    let rest = survivors-middle named x before a after in
    elim (Bool-cases (named b)) [ inl e ↦ rw e rest | inr e ↦ rw e (omega (arith, rest)) ]

pub All-middle {κ} :
    (P : ℕ → Type κ) (before : List ℕ) (a : ℕ) (after : List ℕ)
    → All P (before ++ a ∷ after)
    → P a × All P (before ++ after)
All-middle P [] a after h = h
All-middle P (b ∷ before) a after h =
    let (here, rest) = All-middle P before a after h.1 in (here, (h.0, rest))

pub All-occurrences : (P : ℕ → Type 0) (x : ℕ) (l : List ℕ) → All P l → 0 < occurrences x l → P x
unfolding occurrences
All-occurrences P x [] a some_x = absurd (omega arith)
All-occurrences P x (y ∷ l) a some_x = elim (ℕ_discrete y x) [
  | yes e ↦ subst P e a.0
  | no ne ↦ All-occurrences P x l a.1 (ground arith)
]

pub occurrences-All :
    (P : ℕ → Type 0) (l : List ℕ) → ((x : ℕ) → 0 < occurrences x l → P x) → All P l
unfolding occurrences
occurrences-All P [] h = tt
occurrences-All P (y ∷ l) h =
    (h y (ground arith), occurrences-All P l (λ x some_x. h x (omega arith)))

-- What holds of all items holds of fewer.
pub All-fewer :
    (P : ℕ → Type 0) (l m : List ℕ)
    → ((x : ℕ) → occurrences x m ≤ occurrences x l)
    → All P l
    → All P m
All-fewer P l m fewer a =
    occurrences-All P m (λ x some_x. All-occurrences P x l a (omega (arith, fewer x)))
