-- ===== src/Mm/Swap.antt =====
-- `__swap_cp_page`: the copy of one page between two random access devices.
use osassignment_hk.Base.{
  ℕ, zero, suc, ◌+◌, ◌-◌, ◌*◌, ◌≤◌, ◌<◌, ◌≡◌, ◌≢◌, refl, sym, ap, subst, ◌∙◌, leb, ltb, ◌&&◌,
  if◌then◌else◌, Bool-cases, ◌⊎◌, inl, inr, update, update_self, update_other, ok, arith,
}
use osassignment_hk.Pte.{pagesz}
use osassignment_hk.Memphy.{Memphy}
use osassignment_hk.Memphy.Access.{written, read_random, write_random}
use osassignment_hk.Mm.{cp_loop, swap_cp_page}

-- Bytes `c` to `c + n` of page `df`, taken from page `sf` of another device.
copied : (ℕ → ℕ) → ℕ → ℕ → ℕ → ℕ → (ℕ → ℕ) → ℕ → ℕ
copied src sf df zero c dst = dst
copied src sf df (suc n) c dst =
    copied src sf df n (c + 1) (update dst (df * pagesz + c) (src (sf * pagesz + c)))

copied_outside :
    (src : ℕ → ℕ) (sf df n c : ℕ) (dst : ℕ → ℕ) (addr : ℕ)
    → (addr < df * pagesz + c) ⊎ (df * pagesz + c + n ≤ addr)
    → copied src sf df n c dst addr ≡ dst addr
unfolding copied
copied_outside src sf df zero c dst addr h = refl
copied_outside src sf df (suc n) c dst addr h =
    let away : (addr < df * pagesz + (c + 1)) ⊎ (df * pagesz + (c + 1) + n ≤ addr) = omega arith in
    let ne : df * pagesz + c ≢ addr = omega arith in
    copied_outside src sf df n (c + 1) _ addr away ∙ update_other dst _ _ addr ne

copied_inside :
    (src : ℕ → ℕ) (sf df n c : ℕ) (dst : ℕ → ℕ) (i : ℕ)
    → c ≤ i
    → i < c + n
    → copied src sf df n c dst (df * pagesz + i) ≡ src (sf * pagesz + i)
unfolding copied
copied_inside src sf df zero c dst i h h' = absurd (omega arith)
copied_inside src sf df (suc n) c dst i h h' =
    let split : (i ≡ c) ⊎ (c + 1 ≤ i) = omega arith in
    elim split [
      | inl e ↦
          copied_outside src sf df n (c + 1) _ (df * pagesz + i) (inl (omega arith))
          ∙ ap (λ k. update dst (df * pagesz + c) (src (sf * pagesz + c)) (df * pagesz + k)) e
          ∙ update_self dst (df * pagesz + c) _
          ∙ ap (λ k. src (sf * pagesz + k)) (sym e)
      | inr later ↦ copied_inside src sf df n (c + 1) _ i later (omega arith)
    ]

copied_at :
    (src : ℕ → ℕ) (sf df : ℕ) (dst : ℕ → ℕ) (addr : ℕ)
    → copied src sf df pagesz 0 dst addr ≡ (
        if leb (df * pagesz) addr && ltb addr ((df + 1) * pagesz)
        then src (sf * pagesz + (addr - df * pagesz))
        else dst addr)
copied_at src sf df dst addr =
    elim (Bool-cases (leb (df * pagesz) addr && ltb addr ((df + 1) * pagesz))) [
      | inl e ↦
          let whole : df * pagesz + (addr - df * pagesz) ≡ addr = ground arith in
          rw e (
            subst (λ k. copied src sf df pagesz 0 dst k ≡ src (sf * pagesz + (addr - df * pagesz)))
              whole
              (copied_inside src sf df pagesz 0 dst (addr - df * pagesz) (omega arith)
                (ground arith)))
      | inr e ↦
          let away : (addr < df * pagesz + 0) ⊎ (df * pagesz + 0 + pagesz ≤ addr) = ground arith in
          rw e (copied_outside src sf df pagesz 0 dst addr away)
    ]

cp_loop-copied :
    (junk n c : ℕ) (mpsrc : Memphy) (sf : ℕ) (mpdst : Memphy) (df : ℕ)
    → mpsrc.rdmflg ≢ 0
    → mpdst.rdmflg ≢ 0
    → sf * pagesz + c + n ≤ mpsrc.maxsz
    → df * pagesz + c + n ≤ mpdst.maxsz
    → cp_loop junk n c mpsrc sf mpdst df
      ≡ ok (mpsrc, record mpdst { storage = copied mpsrc.storage sf df n c mpdst.storage })
unfolding cp_loop copied
cp_loop-copied junk zero c mpsrc sf mpdst df hs hd ls ld = refl
cp_loop-copied junk (suc n) c mpsrc sf mpdst df hs hd ls ld =
    rw
      (
        read_random mpsrc (sf * pagesz + c) junk hs (omega arith),
        write_random mpdst (df * pagesz + c) (mpsrc.storage (sf * pagesz + c)) hd (omega arith),
      )
      (cp_loop-copied junk n (c + 1) mpsrc sf (written mpdst (df * pagesz + c) _) df hs hd
        (omega arith) (omega arith))

-- If both devices are of random access and both pages lie inside of them, `__swap_cp_page` does not
-- fault, leaves the source as it was, and gives each byte of the destination page the value of the
-- byte at the same place of the source page; it changes no other byte of the destination.
pub swap_cp_page_copies :
    (junk : ℕ) (mpsrc : Memphy) (srcfpn : ℕ) (mpdst : Memphy) (dstfpn : ℕ)
    → mpsrc.rdmflg ≢ 0
    → mpdst.rdmflg ≢ 0
    → (srcfpn + 1) * pagesz ≤ mpsrc.maxsz
    → (dstfpn + 1) * pagesz ≤ mpdst.maxsz
    → (f : ℕ → ℕ) × (swap_cp_page junk mpsrc srcfpn mpdst dstfpn
        ≡ ok (mpsrc, record mpdst { storage = f }))
      × ((addr : ℕ)
          → f addr ≡ (
              if leb (dstfpn * pagesz) addr && ltb addr ((dstfpn + 1) * pagesz)
              then mpsrc.storage (srcfpn * pagesz + (addr - dstfpn * pagesz))
              else mpdst.storage addr))
unfolding swap_cp_page
swap_cp_page_copies junk mpsrc sf mpdst df hs hd ls ld = (
  copied mpsrc.storage sf df pagesz 0 mpdst.storage,
  cp_loop-copied junk pagesz 0 mpsrc sf mpdst df hs hd (omega arith) (omega arith),
  copied_at mpsrc.storage sf df mpdst.storage,
)
