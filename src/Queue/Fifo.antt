-- ===== src/Queue/Fifo.antt =====
-- A queue whose processes all have one priority, as those of the multilevel queue do.
use osassignment_hk.Base.{ℕ, ◌<◌, ◌≡◌, List, [], ◌∷◌, ◌++◌, All, some, ok, subst, arith}
use osassignment_hk.Queue.{Queue, dequeue}
use osassignment_hk.Queue.Represents.{Represents}
use osassignment_hk.Queue.Select.{dequeue-Selects}

module _ {ℓ} {A : Type ℓ} (prio : A → ℕ) (p : ℕ) where
  abbrev Same : List A → Type 0
  Same = All (λ x. prio x ≡ p)

  Same-middle : (xs : List A) (a : A) (ys : List A) → Same (xs ++ a ∷ ys) → prio a ≡ p
  Same-middle [] a ys h = h.0
  Same-middle (x ∷ xs) a ys h = Same-middle xs a ys h.1

  Selects-oldest :
      (b : A) (more : List A) (a : A) (others before after : List A)
      → Same (b ∷ more)
      → b ∷ more ≡ before ++ a ∷ after
      → others ≡ before ++ after
      → All (λ x. prio a < prio x) before
      → (a ≡ b) × (others ≡ more)
  Selects-oldest b more a others [] after same e o above = (cc, cc)
  Selects-oldest b more a others (x ∷ before) after same e o above =
      let all : Same ((x ∷ before) ++ a ∷ after) = subst Same e same in
      absurd (omega (arith, Same-middle (x ∷ before) a after all, all.0, above.0))

  -- If all processes of a queue have the same `prio` and it holds one at least, `dequeue` takes the
  -- oldest and leaves the others in their order.
  pub dequeue_fifo :
      {q : Queue A} (b : A) (more : List A)
      → Represents q (b ∷ more)
      → Same (b ∷ more)
      → (q' : Queue A) × (dequeue prio q ≡ ok (some b, q')) × Represents q' more
  dequeue_fifo {q} b more r same =
      let (a, q', others, e, s, r') = dequeue-Selects prio (b ∷ more) r (λ h. cc) in
      let (oldest, kept) =
        Selects-oldest b more a others s.before s.after same s.split s.joined s.above in
      (q', subst (λ t. dequeue prio q ≡ ok (some t, q')) oldest e, subst (Represents q') kept r')
