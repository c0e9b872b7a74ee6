-- ===== src/Memphy.antt =====
-- src/mm-memphy.c: the physical memory devices, RAM and swap, and their lists of free frames.
-- An access outside of `storage` is a fault. `junk` is what uninitialised memory holds.
pub mod Access
pub mod Frames
mod Tests
use osassignment_hk.Base.{
  ℕ, zero, suc, ◌+◌, ◌-◌, ◌/◌, ◌%◌, ◌&&◌, ltb, ◌==◌, if◌then◌else◌, update, List, [], ◌∷◌, Option,
  none, some, Ret, success, failure, Outcome, ok, fault, ◌>>=◌,
}

-- `struct memphy_struct`. A list of frames is the list of their numbers.
pub record Memphy : Type 0 where
  pub storage : ℕ → ℕ
  pub maxsz : ℕ
  pub rdmflg : ℕ
  pub cursor : ℕ
  pub free_fp_list : List ℕ
  pub used_fp_list : List ℕ

-- The loop of `MEMPHY_mv_csr`, on fuel: `numstep` grows to `offset` at most.
unfoldable pub csr_loop : ℕ → ℕ → ℕ → Memphy → Memphy
csr_loop zero numstep offset mp = mp
csr_loop (suc fuel) numstep offset mp =
    let rest =
      csr_loop fuel (numstep + 1) offset (record mp { cursor = (mp.cursor + 1) % mp.maxsz }) in
    if ltb numstep offset && ltb numstep mp.maxsz then rest else mp

unfoldable pub mv_csr : Memphy → ℕ → Memphy
unfolding csr_loop
mv_csr mp offset = csr_loop offset 0 offset (record mp { cursor = 0 })

-- `mp->storage[addr]`, read and written
unfoldable pub load : Memphy → ℕ → Outcome ℕ
load mp addr = if ltb addr mp.maxsz then ok (mp.storage addr) else fault

unfoldable pub store : Memphy → ℕ → ℕ → Outcome Memphy
store mp addr b =
    if ltb addr mp.maxsz then ok (record mp { storage = update mp.storage addr b }) else fault

-- The functions that read take what `*value` holds, and return what it holds then.
unfoldable pub seq_read : Memphy → ℕ → ℕ → Outcome (Ret × ℕ × Memphy)
unfolding mv_csr load
seq_read mp addr value =
    if mp.rdmflg == 0
    then ok (failure, value, mp)
    else do b ← load (mv_csr mp addr) addr; ok (success, b, mv_csr mp addr)

-- `MEMPHY_read` behind its test for NULL
unfoldable pub read : Memphy → ℕ → ℕ → Outcome (Ret × ℕ × Memphy)
unfolding load seq_read
read mp addr value =
    if mp.rdmflg == 0 then seq_read mp addr value else do b ← load mp addr; ok (success, b, mp)

unfoldable pub seq_write : Memphy → ℕ → ℕ → Outcome (Ret × Memphy)
unfolding mv_csr store
seq_write mp addr value =
    if mp.rdmflg == 0
    then ok (failure, mp)
    else do mp' ← store (mv_csr mp addr) addr value; ok (success, mp')

-- `MEMPHY_write` behind its test for NULL
unfoldable pub write : Memphy → ℕ → ℕ → Outcome (Ret × Memphy)
unfolding store seq_write
write mp addr b =
    if mp.rdmflg == 0 then seq_write mp addr b else do mp' ← store mp addr b; ok (success, mp')

unfoldable pub read_ptr : Option Memphy → ℕ → ℕ → Outcome (Ret × ℕ × Option Memphy)
unfolding read
read_ptr none addr value = ok (failure, value, none)
read_ptr (some mp) addr value = do (r, v, mp') ← read mp addr value; ok (r, v, some mp')

unfoldable pub write_ptr : Option Memphy → ℕ → ℕ → Outcome (Ret × Option Memphy)
unfolding write
write_ptr none addr b = ok (failure, none)
write_ptr (some mp) addr b = do (r, mp') ← write mp addr b; ok (r, some mp')

-- The frames from `iter` on, as the loop of `MEMPHY_format` links them.
unfoldable pub frames_from : ℕ → ℕ → List ℕ
frames_from zero iter = []
frames_from (suc n) iter = iter ∷ frames_from n (iter + 1)

-- The first node's `fp_next` is set by the second round only: with one frame it is not initialised.
unfoldable pub link_first : List ℕ → ℕ → List ℕ
unfolding frames_from
link_first junk numfp = if numfp == 1 then 0 ∷ junk else 0 ∷ frames_from (numfp - 1) 1

unfoldable pub format : List ℕ → Memphy → ℕ → Ret × Memphy
unfolding link_first
format junk mp pagesz =
    let numfp = mp.maxsz / pagesz in
    if numfp == 0
    then (failure, mp)
    else (success, record mp { free_fp_list = link_first junk numfp })

unfoldable pub take_frame : List ℕ → Memphy → ℕ → Ret × ℕ × Memphy
take_frame [] mp retfpn = (failure, retfpn, mp)
take_frame (fpn ∷ rest) mp retfpn = (success, fpn, record mp { free_fp_list = rest })

-- `MEMPHY_get_freefp`: the number goes to `*retfpn`, which keeps what it held if no frame is free.
unfoldable pub get_freefp : Memphy → ℕ → Ret × ℕ × Memphy
unfolding take_frame
get_freefp mp retfpn = take_frame mp.free_fp_list mp retfpn

unfoldable pub put_freefp : Memphy → ℕ → Memphy
put_freefp mp fpn = record mp { free_fp_list = fpn ∷ mp.free_fp_list }

-- `init_memphy` over a struct that is not initialised; it always returns 0.
unfoldable pub init_memphy : List ℕ → Memphy → ℕ → ℕ → Memphy
unfolding format
init_memphy junk mp max_size randomflg =
    let (_, mp') = format junk (record mp { storage = λ _. 0; maxsz = max_size }) 256 in
    let flag = if randomflg == 0 then 0 else 1 in
    record mp' { rdmflg = flag; cursor = if flag == 0 then 0 else mp'.cursor }

-- The lines that `MEMPHY_dump` prints: address and byte, where the byte is not 0.
unfoldable pub dump_from : (ℕ → ℕ) → ℕ → ℕ → List (ℕ × ℕ)
dump_from storage zero i = []
dump_from storage (suc n) i =
    let rest = dump_from storage n (i + 1) in if storage i == 0 then rest else (i, storage i) ∷ rest

unfoldable pub dump : Memphy → List (ℕ × ℕ)
unfolding dump_from
dump mp = dump_from mp.storage mp.maxsz 0
