-- ===== src/Memphy/Frames.antt =====
-- The list of free frames: each is in the device, and none is there twice.
use osassignment_hk.Base.{
  ℕ, zero, suc, ◌+◌, ◌-◌, ◌*◌, ◌/◌, ◌≤◌, ◌<◌, ◌≡◌, ◌≢◌, refl, ap, subst, ◌==◌, if◌then◌else◌, List,
  [], ◌∷◌, length, All, Ret, success, failure, arith,
}
use osassignment_hk.Memphy.{Memphy, frames_from, get_freefp, take_frame, put_freefp, init_memphy}

-- No entry equals `a`.
abbrev pub Lacks : ℕ → List ℕ → Type 0
Lacks a = All (λ x. a ≢ x)

abbrev pub Distinct : List ℕ → Type 0
Distinct [] = Unit
Distinct (x ∷ xs) = Lacks x xs × Distinct xs

-- A frame is 256 bytes of the device.
abbrev pub Inside : Memphy → ℕ → Type 0
Inside mp fpn = fpn * 256 + 256 ≤ mp.maxsz

pub record IsValid (mp : Memphy) : Type 0 where
  pub inside : All (Inside mp) mp.free_fp_list
  pub distinct : Distinct mp.free_fp_list

-- `get_freefp` gives a frame of the device that is not free any more, or reports that none is free.
pub data Gets (mp : Memphy) (retfpn : ℕ) (r : Ret × ℕ × Memphy) : Type 0 where
  exhausted : mp.free_fp_list ≡ [] → r ≡ (failure, retfpn, mp) → Gets mp retfpn r
  frame :
      (fpn : ℕ) (mp' : Memphy)
      → mp.free_fp_list ≡ fpn ∷ mp'.free_fp_list
      → r ≡ (success, fpn, mp')
      → Inside mp fpn
      → Lacks fpn mp'.free_fp_list
      → IsValid mp'
      → mp'.storage ≡ mp.storage
      → Gets mp retfpn r

take_frame-Gets :
    (mp : Memphy) (retfpn : ℕ) (l : List ℕ)
    → IsValid mp
    → mp.free_fp_list ≡ l
    → Gets mp retfpn (take_frame l mp retfpn)
unfolding take_frame
take_frame-Gets mp retfpn [] v e = exhausted e refl
take_frame-Gets mp retfpn (fpn ∷ rest) v e =
    let inside = subst (All (Inside mp)) e v.inside in
    let distinct = subst Distinct e v.distinct in
    frame fpn (record mp { free_fp_list = rest }) e refl inside.0 distinct.0
      (record { inside = inside.1; distinct = distinct.1 }) refl

-- On a device whose free frames lie inside of it and are distinct, `MEMPHY_get_freefp` either
-- returns -1 and changes nothing, if no frame is free, or gives the first free frame, which lies
-- inside of the device, is not free any more, and leaves the storage as it was and the free list
-- valid.
pub get_freefp-Gets :
    (mp : Memphy) (retfpn : ℕ) → IsValid mp → Gets mp retfpn (get_freefp mp retfpn)
unfolding get_freefp
get_freefp-Gets mp retfpn v = take_frame-Gets mp retfpn mp.free_fp_list v refl

-- If a frame lies inside of the device and is not free, `MEMPHY_put_freefp` leaves a valid free
-- list, and the next `MEMPHY_get_freefp` gives this frame and the device as it was.
pub put_freefp-IsValid :
    (mp : Memphy) (fpn : ℕ)
    → IsValid mp
    → Inside mp fpn
    → Lacks fpn mp.free_fp_list
    → IsValid (put_freefp mp fpn) × (get_freefp (put_freefp mp fpn) 0 ≡ (success, fpn, mp))
unfolding put_freefp get_freefp
put_freefp-IsValid mp fpn v i l =
    (record { inside = (i, v.inside); distinct = (l, v.distinct) }, refl)

frames_from-Lacks : (n iter a : ℕ) → a < iter → Lacks a (frames_from n iter)
unfolding frames_from
frames_from-Lacks zero iter a h = tt
frames_from-Lacks (suc n) iter a h = (omega arith, frames_from-Lacks n (iter + 1) a (omega arith))

frames_from-Distinct : (n iter : ℕ) → Distinct (frames_from n iter)
unfolding frames_from
frames_from-Distinct zero iter = tt
frames_from-Distinct (suc n) iter =
    (frames_from-Lacks n (iter + 1) iter (omega arith), frames_from-Distinct n (iter + 1))

frames_from-Inside :
    (mp : Memphy) (n iter : ℕ) → (iter + n) * 256 ≤ mp.maxsz → All (Inside mp) (frames_from n iter)
unfolding frames_from
frames_from-Inside mp zero iter h = tt
frames_from-Inside mp (suc n) iter h =
    (omega arith, frames_from-Inside mp n (iter + 1) (omega arith))

frames_from-length : (n iter : ℕ) → length (frames_from n iter) ≡ n
unfolding frames_from
frames_from-length zero iter = refl
frames_from-length (suc n) iter = ap suc (frames_from-length n (iter + 1))

module _ (junk : List ℕ) (mp : Memphy) (max_size randomflg : ℕ) where
  flag : ℕ
  flag = if randomflg == 0 then 0 else 1

  fresh : Memphy
  fresh = record mp {
    storage = λ _. 0;
    maxsz = max_size;
    rdmflg = flag;
    cursor = if flag == 0 then 0 else mp.cursor;
    free_fp_list = 0 ∷ frames_from (max_size / 256 - 1) 1;
  }

  init_memphy-fresh : 512 ≤ max_size → init_memphy junk mp max_size randomflg ≡ fresh
  unfolding init_memphy fresh flag
  init_memphy-fresh h = ground arith

  -- `init_memphy` of at least 512 bytes, two frames, leaves a valid free list with all frames of
  -- the device, its size, and zeroes in its storage.
  pub init_memphy-IsValid :
      512 ≤ max_size
      → let mp' = init_memphy junk mp max_size randomflg in
        IsValid mp'
        × (length mp'.free_fp_list ≡ max_size / 256)
        × (mp'.maxsz ≡ max_size)
        × ((addr : ℕ) → mp'.storage addr ≡ 0)
  unfolding fresh
  init_memphy-IsValid h =
      let n = max_size / 256 in
      rw (init_memphy-fresh h) (
        record {
          inside = (omega arith, frames_from-Inside fresh (n - 1) 1 (omega arith));
          distinct = (frames_from-Lacks (n - 1) 1 0 (omega arith), frames_from-Distinct (n - 1) 1);
        },
        omega (arith, frames_from-length (n - 1) 1),
        refl,
        λ addr. refl,
      )

-- `init_memphy` of 256 to 511 bytes, one frame, leaves a free list whose rest is what the memory
-- held before: `fp_next` of the only node is not set.
pub init_memphy_one_frame :
    (junk : List ℕ) (mp : Memphy) (max_size randomflg : ℕ)
    → 256 ≤ max_size
    → max_size < 512
    → (init_memphy junk mp max_size randomflg).free_fp_list ≡ 0 ∷ junk
unfolding init_memphy
init_memphy_one_frame junk mp max_size randomflg lo hi = ground arith
