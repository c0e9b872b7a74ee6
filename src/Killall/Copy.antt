-- ===== src/Killall/Copy.antt =====
-- The copies of src/sys_killall.c between the memory of a process and the kernel.
use osassignment_hk.Base.{
  ℕ, zero, suc, ◌+◌, ◌^◌, ◌%◌, ◌≤◌, ◌<◌, ◌≡◌, refl, ap, ◌∙◌, true, false, ltb, ◌==◌, List, [], ◌∷◌,
  success, ok, >>=-step, if_false, le→not_ltb, arith,
}
use osassignment_hk.Base.Bytes.{to_byte-extend_byte}
use osassignment_hk.Mm.{Caller}
use osassignment_hk.Libmem.{Junk}
use osassignment_hk.Paging.Access.{Mapped, libread_lem}
use osassignment_hk.Killall.{vaild_useraddr, from_user_loop, copy_from_user}

-- `f i` to `f (i + n - 1)`
abbrev pub values {ℓ} : {A : Type ℓ} → (ℕ → A) → ℕ → ℕ → List A
values f zero i = []
values f (suc n) i = f i ∷ values f n (i + 1)

-- Byte `i` of the region stands at address `at i` of RAM, in a page that is present.
abbrev pub AllMapped : Caller → ℕ → (ℕ → ℕ) → ℕ → Type 0
AllMapped caller rgid at size = (i : ℕ) → i < size → Mapped caller rgid i (at i)

module _ (junk : Junk) (caller : Caller) (rgid size : ℕ) (at : ℕ → ℕ)
    (mapped : AllMapped caller rgid at size) where
  vaild_useraddr_mapped :
      0 < size
      → rgid < 2 ^ 32
      → size < 2 ^ 32
      → vaild_useraddr junk caller rgid size ≡ ok (true, caller)
  unfolding vaild_useraddr
  vaild_useraddr_mapped some_bytes small_id small =
      let not_none : (size == 0) ≡ false = ground arith in
      let no_wrap : ltb ((rgid + size) % 2 ^ 64) rgid ≡ false = le→not_ltb _ _ (omega arith) in
      if_false _ _ not_none
      ∙ if_false _ _ no_wrap
      ∙ >>=-step _ (libread_lem (mapped 0 some_bytes) junk)

  from_user_loop_mapped :
      (n i : ℕ)
      → i + n ≤ size
      → from_user_loop junk caller rgid n i
        ≡ ok (success, values (λ k. caller.mram.storage (at k)) n i, caller)
  unfolding from_user_loop
  from_user_loop_mapped zero i h = refl
  from_user_loop_mapped (suc n) i h =
      let m = mapped i (omega arith) in
      >>=-step _ (libread_lem m junk)
      ∙ >>=-step _ (from_user_loop_mapped n (i + 1) (omega arith))
      ∙ ap (λ b. ok (success, b ∷ values (λ k. caller.mram.storage (at k)) n (i + 1), caller))
          (to_byte-extend_byte (caller.mram.storage (at i)) m.byte)

  -- If the first `size` bytes of a region are in pages that are present, and `size` is positive,
  -- then `copy_from_user` of them succeeds, gives these bytes in their order, and leaves the
  -- process as it is. The region's number and `size` fit into 32 bits.
  pub copy_from_user_copies :
      0 < size
      → rgid < 2 ^ 32
      → size < 2 ^ 32
      → copy_from_user junk caller rgid size
        ≡ ok (success, values (λ k. caller.mram.storage (at k)) size 0, caller)
  unfolding copy_from_user
  copy_from_user_copies some_bytes small_id small =
      >>=-step _ (vaild_useraddr_mapped some_bytes small_id small)
      ∙ from_user_loop_mapped size 0 (omega arith)
