-- ===== src/Stdio.antt =====
-- The functions of the C library by which the simulator reads files, as an interface: `F` is an open
-- file. A conversion that fails gives `none`, and then the call makes no further conversion. A run may
-- also end by `exit(1)`.
use osassignment_hk.Base.{
  ◌≡◌, refl, ap, subst, Bool, true, false, ℕ, zero, suc, ltb, if◌then◌else◌, List, [], ◌∷◌, length,
  Option, none, some,
}

pub data Exec {ℓ} (A : Type ℓ) : Type ℓ where
  done : A → Exec A
  crash : Exec A
  exit_1 : Exec A

infixl 5 ◌>>=◌
abbrev pub ◌>>=◌ {ℓ κ} : {A : Type ℓ} {B : Type κ} → Exec A → (A → Exec B) → Exec B
done a >>= f = f a
crash >>= f = crash
exit_1 >>= f = exit_1

pub exec_step {ℓ κ} :
    {A : Type ℓ} {B : Type κ} {m : Exec A} (f : A → Exec B) {a : A} → m ≡ done a → (m >>= f) ≡ f a
exec_step f e = ap (λ m. m >>= f) e

-- A property of the result, if there is one.
abbrev pub Done {ℓ κ} : {A : Type ℓ} → (A → Type κ) → Exec A → Type κ
Done P (done a) = P a
Done P crash = Unit
Done P exit_1 = Unit

pub Done-done {ℓ κ} :
    {A : Type ℓ} (P : A → Type κ) (m : Exec A) (a : A) → Done P m → m ≡ done a → P a
Done-done P m a h e = subst (Done P) e h

pub Done-if {ℓ κ} :
    {A : Type ℓ} (P : A → Type κ) (b : Bool) (m k : Exec A)
    → (b ≡ true → Done P m)
    → (b ≡ false → Done P k)
    → Done P (if b then m else k)
Done-if P true m k yes_b no_b = yes_b refl
Done-if P false m k yes_b no_b = no_b refl

-- fopen, the conversions %u, %d, %lu and %s of fscanf, white space in its format, fgets for 200
-- bytes, and sscanf with %d%d%d%d.
pub record Stdio (F : Type 0) : Type 0 where
  pub fopen : List ℕ → Option F
  pub scan_u : F → Option ℕ × F
  pub scan_d : F → Option ℕ × F
  pub scan_lu : F → Option ℕ × F
  pub scan_s : F → Option (List ℕ) × F
  pub skip_space : F → F
  pub fgets : F → Option (List ℕ) × F
  pub sscan_d : List ℕ → List ℕ

module _ {F : Type 0} where
  -- A call of fscanf with `n` numbers of one kind, and `finish` for what follows them in the format: the
  -- numbers that it reads.
  unfoldable pub scan_nums : (F → Option ℕ × F) → (F → F) → ℕ → F → List ℕ × F
  scan_nums scan finish zero f = ([], finish f)
  scan_nums scan finish (suc n) f =
      let (x, f) = scan f in
      let (rest, f') = scan_nums scan finish n f in
      elim x [ none ↦ ([], f) | some v ↦ (v ∷ rest, f') ]

  -- %s into an array of `room` characters: it keeps what it holds if there is no word.
  unfoldable pub read_word : Stdio F → ℕ → List ℕ → F → Exec (List ℕ × F)
  read_word io room old f =
      let (w, f) = io.scan_s f in
      elim w [
        | none ↦ done (old, f)
        | some word ↦ if ltb (length word) room then done (word, f) else crash
      ]
