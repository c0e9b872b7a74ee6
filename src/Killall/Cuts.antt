-- ===== src/Killall/Cuts.antt =====
-- What `dequeue` takes out of a queue with different priorities, for the loops of src/sys_killall.c.
use osassignment_hk.Base.{
  ℕ, suc, ◌+◌, ◌≡◌, sym, ap, subst, ◌∙◌, Bool, true, false, if◌then◌else◌, List, [], ◌∷◌, ◌++◌,
  length, length-append, All, some, ok, arith,
}
use osassignment_hk.Queue.{Queue, dequeue}
use osassignment_hk.Queue.Represents.{Represents}
use osassignment_hk.Queue.Select.{dequeue-Selects}
use osassignment_hk.Killall.Items.{
  survivors, named_count, occurrences, occurrences-middle, named_count-middle, survivors-middle,
  All-middle,
}
use osassignment_hk.Killall.Times.{once, times, times_named, times_other}

-- What a round takes out of a list.
pub record Cut (l others : List ℕ) (a : ℕ) : Type 0 where
  pub before : List ℕ
  pub after : List ℕ
  pub split : l ≡ before ++ a ∷ after
  pub joined : others ≡ before ++ after

module _ {l others : List ℕ} {a : ℕ} (c : Cut l others a) where
  pub Cut-length : length l ≡ suc (length others)
  Cut-length = omega (
    arith,
    ap length c.split,
    ap length c.joined,
    length-append c.before (a ∷ c.after),
    length-append c.before c.after,
  )

  pub Cut-occurrences : (x : ℕ) → occurrences x l ≡ occurrences x (a ∷ []) + occurrences x others
  Cut-occurrences x = rw (c.split, c.joined) (occurrences-middle x c.before a c.after)

  pub Cut-survivors :
      (named : ℕ → Bool) (x : ℕ)
      → occurrences x (survivors named l)
        ≡ occurrences x (survivors named (a ∷ [])) + occurrences x (survivors named others)
  Cut-survivors named x = rw (c.split, c.joined) (survivors-middle named x c.before a c.after)

  pub Cut-count :
      (named : ℕ → Bool)
      → named_count named l ≡ named_count named (a ∷ []) + named_count named others
  Cut-count named = rw (c.split, c.joined) (named_count-middle named c.before a c.after)

  Cut-times : (named : ℕ → Bool) (k : ℕ) → times named (a ∷ others) k ≡ times named l k
  unfolding occurrences
  Cut-times named k =
      let same : occurrences k (a ∷ others) ≡ occurrences k l = omega (arith, Cut-occurrences k) in
      ap (λ n. if named k then n else 0) same

  pub Cut-times_named :
      (named : ℕ → Bool)
      → named a ≡ true
      → (k : ℕ) → times named others k + once a k ≡ times named l k
  Cut-times_named named e k = times_named named a others e k ∙ Cut-times named k

  pub Cut-times_other :
      (named : ℕ → Bool) → named a ≡ false → (k : ℕ) → times named others k ≡ times named l k
  Cut-times_other named e k = times_other named a others e k ∙ Cut-times named k

  pub Cut-All : (P : ℕ → Type 0) → All P l → P a × All P others
  Cut-All P h =
      let (here, rest) = All-middle P c.before a c.after (subst (All P) c.split h) in
      (here, subst (All P) (sym c.joined) rest)

-- `dequeue` of a queue that is not empty cuts a process out.
pub dequeue-Cut :
    (prio : ℕ → ℕ) {q : Queue ℕ} (h : ℕ) (l : List ℕ)
    → Represents q (h ∷ l)
    → (a : ℕ) × (q' : Queue ℕ) × (others : List ℕ) × (dequeue prio q ≡ ok (some a, q'))
      × Cut (h ∷ l) others a
      × Represents q' others
dequeue-Cut prio h l r =
    let (a, q', others, e, s, r') = dequeue-Selects prio (h ∷ l) r (λ e. cc) in
    (
      a,
      q',
      others,
      e,
      record { before = s.before; after = s.after; split = s.split; joined = s.joined },
      r',
    )
