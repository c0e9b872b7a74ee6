-- ===== src/Loader/Names.antt =====
-- The names of the opcodes in src/loader.c.
use osassignment_hk.Base.{
  ℕ, ◌≡◌, ◌≢◌, ◌↔◌, refl, ◌∙◌, ◌⊎◌, inl, inr, Bool, true, false, ◌==◌, ==_iff, ltb, Bool-cases,
  List, [], ◌∷◌, length, All, if_true, if_false,
}
use osassignment_hk.Killall.{same_text}
use osassignment_hk.Process.{Opcode, calc, alloc, free, read, write, syscall}
use osassignment_hk.Stdio.{done, exit_1}
use osassignment_hk.Loader.{name_of, match_opcode, get_opcode}

pub same_text_iff : (s t : List ℕ) → (same_text s t ≡ true) ↔ (s ≡ t)
unfolding same_text
same_text_iff [] [] = (λ e. refl, λ e. refl)
same_text_iff [] (d ∷ t) = (λ e. cc, λ e. cc)
same_text_iff (c ∷ s) [] = (λ e. cc, λ e. cc)
same_text_iff (c ∷ s) (d ∷ t) =
    let rest = same_text_iff s t in
    (
      λ e. elim (Bool-cases (c == d)) [
        | inl f ↦
            let g : same_text s t ≡ true = rw f at e in
            let h = rest.0 g in let i = (==_iff c d).0 f in cc
        | inr f ↦ let g : ◌≡◌ {A = Bool} false true = rw f at e in cc
      ],
      λ e. let h : c ≡ d = cc in let g : s ≡ t = cc in rw ((==_iff c d).1 h) (rest.1 g),
    )

-- The tests for the opcodes of a list find the one with the name, or none has it.
match_opcode-cases :
    (ops : List Opcode) (opt : List ℕ)
    → ((op : Opcode) × (opt ≡ name_of op) × (match_opcode ops opt ≡ done op))
      ⊎ (All (λ op. opt ≢ name_of op) ops × (match_opcode ops opt ≡ exit_1))
unfolding match_opcode
match_opcode-cases [] opt = inr (tt, refl)
match_opcode-cases (op ∷ rest) opt = elim (Bool-cases (same_text opt (name_of op))) [
  | inl e ↦ inl (op, (same_text_iff opt (name_of op)).0 e, if_true _ _ e)
  | inr e ↦ elim (match_opcode-cases rest opt) [
    | inl (op', named, found) ↦ inl (op', named, if_false _ _ e ∙ found)
    | inr (others, missed) ↦
        inr (
          (λ f. let g = (same_text_iff opt (name_of op)).1 f in cc, others),
          if_false _ _ e ∙ missed,
        )
  ]
]

each_opcode :
    (P : Opcode → Type 0)
    → All P (calc ∷ alloc ∷ free ∷ read ∷ write ∷ syscall ∷ [])
    → (op : Opcode) → P op
each_opcode P (a, (b, (c, (d, (e, (f, _)))))) calc = a
each_opcode P (a, (b, (c, (d, (e, (f, _)))))) alloc = b
each_opcode P (a, (b, (c, (d, (e, (f, _)))))) free = c
each_opcode P (a, (b, (c, (d, (e, (f, _)))))) read = d
each_opcode P (a, (b, (c, (d, (e, (f, _)))))) write = e
each_opcode P (a, (b, (c, (d, (e, (f, _)))))) syscall = f

-- For every word, `get_opcode` gives the opcode of which it is the name, or it is the name of no
-- opcode and the program exits with 1.
pub get_opcode-cases :
    (opt : List ℕ)
    → ((op : Opcode) × (opt ≡ name_of op) × (get_opcode opt ≡ done op))
      ⊎ (((op : Opcode) → opt ≢ name_of op) × (get_opcode opt ≡ exit_1))
unfolding get_opcode
get_opcode-cases opt =
    elim (match_opcode-cases (calc ∷ alloc ∷ free ∷ read ∷ write ∷ syscall ∷ []) opt) [
      | inl found ↦ inl found
      | inr (others, missed) ↦ inr (each_opcode (λ op. opt ≢ name_of op) others, missed)
    ]

pub get_opcode-name_of : (op : Opcode) → get_opcode (name_of op) ≡ done op
unfolding get_opcode match_opcode same_text
get_opcode-name_of calc = refl
get_opcode-name_of alloc = refl
get_opcode-name_of free = refl
get_opcode-name_of read = refl
get_opcode-name_of write = refl
get_opcode-name_of syscall = refl

pub short_name : (op : Opcode) → ltb (length (name_of op)) 10 ≡ true
short_name calc = refl
short_name alloc = refl
short_name free = refl
short_name read = refl
short_name write = refl
short_name syscall = refl
