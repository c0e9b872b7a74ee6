-- ===== src/Libmem/FirstFit.antt =====
-- The search for a free region.
use osassignment_hk.Base.{
  ℕ, ◌+◌, ◌-◌, ◌^◌, ◌≤◌, ◌<◌, ◌≡◌, refl, ap, ◌++◌, leb, Bool-cases, inl, inr, List, [], ◌∷◌, All,
  Option, none, some, arith,
}
use osassignment_hk.Mm.{Rg}
use osassignment_hk.Libmem.{width, first_fit}

-- A region of the heap: it does not end before it starts.
abbrev pub Ordered : Rg → Type 0
Ordered rg = (rg.rg_start ≤ rg.rg_end) × (rg.rg_end < 2 ^ 64)

abbrev pub TooSmall : ℕ → Rg → Type 0
TooSmall size rg = rg.rg_end < rg.rg_start + size

-- What the search may do with a list of free regions.
pub data Cuts (size : ℕ) (l : List Rg) (r : Option (Rg × List Rg)) : Type 0 where
  full : All (TooSmall size) l → r ≡ none → Cuts size l r
  cut :
      (before : List Rg) (rg : Rg) (after : List Rg)
      → l ≡ before ++ rg ∷ after
      → All (TooSmall size) before
      → rg.rg_start + size ≤ rg.rg_end
      → r
        ≡ some (
          record { rg_start = rg.rg_start; rg_end = rg.rg_start + size },
          before ++ record rg { rg_start = rg.rg_start + size } ∷ after,
        )
      → Cuts size l r

pub width_lem : (rg : Rg) → Ordered rg → width rg ≡ rg.rg_end - rg.rg_start
unfolding width
width_lem rg (le, lt) = omega arith

later :
    (size : ℕ) (rg : Rg) (rest : List Rg) (r : Option (Rg × List Rg))
    → TooSmall size rg
    → Cuts size rest r
    → Cuts size
        (rg ∷ rest)
        (elim r [ none ↦ none | some (newrg, rest') ↦ some (newrg, rg ∷ rest') ])
later size rg rest r small (full all e) = full (small, all) (rw e refl)
later size rg rest r small (cut before found after whole all fits e) =
    cut (rg ∷ before) found after (ap (λ l. rg ∷ l) whole) (small, all) fits (rw e refl)

-- On a list of regions within 64 bits none of which ends before it starts, the search of
-- `get_free_vmrg_area` cuts the wanted size off the start of the first region that is large enough,
-- and leaves the rest of that region and all the others in their places; it finds nothing only if
-- every region is too small.
pub first_fit-Cuts : (size : ℕ) (l : List Rg) → All Ordered l → Cuts size l (first_fit size l)
unfolding first_fit
first_fit-Cuts size [] h = full tt refl
first_fit-Cuts size (rg ∷ rest) (h, hs) = elim (Bool-cases (leb size (width rg))) [
  | inl e ↦ cut [] rg rest refl tt (ground (arith, width_lem rg h)) (rw e refl)
  | inr e ↦
      rw e (later size rg rest _ (ground (arith, width_lem rg h)) (first_fit-Cuts size rest hs))
]
