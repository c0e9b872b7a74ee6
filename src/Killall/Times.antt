-- ===== src/Killall/Times.antt =====
-- The processes that src/sys_killall.c terminates, and how often: a process that it finds several
-- times is terminated as often.
use osassignment_hk.Base.{
  ℕ, zero, suc, ◌+◌, ◌≡◌, refl, sym, ap, subst, fun_ext, ◌∙◌, inl, inr, Bool, true, false, ◌==◌,
  ==_iff, if◌then◌else◌, List, [], ◌∷◌, All, Bool-cases, arith,
}
use osassignment_hk.Process.{Proc, Os, set_proc, prio_of}
use osassignment_hk.Killall.{same_text}
use osassignment_hk.Killall.Items.{occurrences}
use osassignment_hk.Killall.Release.{released, HasArea, released-HasArea}

-- Whether a process has the name.
abbrev pub is_named : (ℕ → Proc) → List ℕ → ℕ → Bool
is_named procs name h = same_text (procs h).path name

-- `f` applied `n` times
unfoldable pub repeat {ℓ} : {A : Type ℓ} → ℕ → (A → A) → A → A
repeat zero f x = x
repeat (suc n) f x = f (repeat n f x)

repeat_add {ℓ} :
    {A : Type ℓ} (n k : ℕ) (f : A → A) (x : A) → repeat n f (repeat k f x) ≡ repeat (n + k) f x
unfolding repeat
repeat_add zero k f x = let e : k ≡ zero + k = omega arith in ap (λ m. repeat m f x) e
repeat_add (suc n) k f x =
    let e : suc (n + k) ≡ suc n + k = omega arith in
    ap f (repeat_add n k f x) ∙ ap (λ m. repeat m f x) e

-- What `released` keeps, it keeps any number of times.
repeat_keeps {κ} :
    {B : Type κ} (field : Proc → B)
    → ((p : Proc) → field (released p) ≡ field p)
    → (n : ℕ) (p : Proc) → field (repeat n released p) ≡ field p
unfolding repeat
repeat_keeps field keeps zero p = refl
repeat_keeps field keeps (suc n) p = keeps (repeat n released p) ∙ repeat_keeps field keeps n p

repeat-HasArea : (n : ℕ) (p : Proc) → HasArea p → HasArea (repeat n released p)
unfolding repeat
repeat-HasArea zero p a = a
repeat-HasArea (suc n) p a = released-HasArea (repeat n released p) (repeat-HasArea n p a)

-- The state after each process was terminated so many times.
abbrev pub released_os : (ℕ → ℕ) → Os → Os
released_os times os = record os { procs = λ k. repeat (times k) released (os.procs k) }

abbrev pub once : ℕ → ℕ → ℕ
once h k = if h == k then 1 else 0

-- How often the processes of the name stand in a list.
abbrev pub times : (ℕ → Bool) → List ℕ → ℕ → ℕ
times named l k = if named k then occurrences k l else 0

pub released_os_once :
    (os : Os) (h : ℕ) → set_proc os h (released (os.procs h)) ≡ released_os (once h) os
unfolding repeat
released_os_once os h =
    ap (λ f. record os { procs = f })
      (fun_ext (λ k. elim (Bool-cases (h == k)) [
        | inl e ↦ rw e (ap (λ j. released (os.procs j)) ((==_iff h k).0 e))
        | inr e ↦ rw e refl
      ]))

pub released_os_twice :
    (t u : ℕ → ℕ) (os : Os) → released_os t (released_os u os) ≡ released_os (λ k. t k + u k) os
released_os_twice t u os =
    ap (λ f. record os { procs = f }) (fun_ext (λ k. repeat_add (t k) (u k) released (os.procs k)))

pub is_named-released_os :
    (t : ℕ → ℕ) (os : Os) (name : List ℕ)
    → is_named (released_os t os).procs name ≡ is_named os.procs name
is_named-released_os t os name =
    fun_ext (λ h. repeat_keeps (λ p. same_text p.path name) (λ p. refl) (t h) (os.procs h))

pub prio_of-released_os : (t : ℕ → ℕ) (os : Os) → prio_of (released_os t os) ≡ prio_of os
prio_of-released_os t os = fun_ext (λ h. repeat_keeps (λ p. p.prio) (λ p. refl) (t h) (os.procs h))

-- A PCB that is not freed, has the priority `p`, and has an area if it has the name.
pub record Ready (procs : ℕ → Proc) (freed : ℕ → Bool) (name : List ℕ) (p h : ℕ) : Type 0 where
  pub live : freed h ≡ false
  pub prio : (procs h).prio ≡ p
  pub area : is_named procs name h ≡ true → HasArea (procs h)

pub Ready-released_os :
    (t : ℕ → ℕ) (os : Os) (name : List ℕ) (p h : ℕ)
    → Ready os.procs os.freed name p h
    → Ready (released_os t os).procs os.freed name p h
Ready-released_os t os name p h r = record {
  live = r.live;
  prio = ap (λ f. f h) (prio_of-released_os t os) ∙ r.prio;
  area = λ e.
      repeat-HasArea (t h) (os.procs h)
        (r.area (sym (ap (λ f. f h) (is_named-released_os t os name)) ∙ e));
}

pub All-map : (P Q : ℕ → Type 0) (l : List ℕ) → ((h : ℕ) → P h → Q h) → All P l → All Q l
All-map P Q [] f a = tt
All-map P Q (h ∷ l) f a = (f h a.0, All-map P Q l f a.1)

-- One more process of the name, and one of another.
pub times_named :
    (named : ℕ → Bool) (h : ℕ) (l : List ℕ)
    → named h ≡ true
    → (k : ℕ) → times named l k + once h k ≡ times named (h ∷ l) k
unfolding occurrences
times_named named h l e k = elim (Bool-cases (h == k)) [
  | inl same ↦
      let e' : named k ≡ true = subst (λ j. named j ≡ true) ((==_iff h k).0 same) e in
      rw (e', same) (omega arith)
  | inr other ↦ elim (Bool-cases (named k)) [
    | inl y ↦ rw (y, other) (omega arith)
    | inr n ↦ rw (n, other) (omega arith)
  ]
]

pub times_other :
    (named : ℕ → Bool) (h : ℕ) (l : List ℕ)
    → named h ≡ false
    → (k : ℕ) → times named l k ≡ times named (h ∷ l) k
unfolding occurrences
times_other named h l e k = elim (Bool-cases (h == k)) [
  | inl same ↦
      let e' : named k ≡ false = subst (λ j. named j ≡ false) ((==_iff h k).0 same) e in rw e' refl
  | inr other ↦ elim (Bool-cases (named k)) [
    | inl y ↦ rw (y, other) (omega arith)
    | inr n ↦ rw n refl
  ]
]
