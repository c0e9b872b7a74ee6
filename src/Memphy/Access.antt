-- ===== src/Memphy/Access.antt =====
-- Reads and writes of a device.
use Prim.Native.Nat.{min}
use native.Mathlib.Nat.{mod-eq_of_lt}
use osassignment_hk.Base.{
  ℕ, zero, suc, ◌+◌, ◌%◌, ◌≤◌, ◌<◌, ◌≡◌, ◌≢◌, ap, ◌∙◌, ltb, ◌==◌, ◌&&◌, update, success, failure,
  ok, fault, Bool-cases, inl, inr, if◌then◌else◌, arith,
}
use osassignment_hk.Memphy.{Memphy, csr_loop, mv_csr, read, write}

-- The device after a write.
abbrev pub written : Memphy → ℕ → ℕ → Memphy
written mp addr b = record mp { storage = update mp.storage addr b }

pub read_random :
    (mp : Memphy) (addr value : ℕ)
    → mp.rdmflg ≢ 0
    → addr < mp.maxsz
    → read mp addr value ≡ ok (success, mp.storage addr, mp)
unfolding read
read_random mp addr value h lt = ground arith

pub write_random :
    (mp : Memphy) (addr b : ℕ)
    → mp.rdmflg ≢ 0
    → addr < mp.maxsz
    → write mp addr b ≡ ok (success, written mp addr b)
unfolding write
write_random mp addr b h lt = ground arith

-- On a random access device, a write inside of the device succeeds, and a read inside of it then
-- gives the byte that was written if it is of that address, and what was there if it is of another.
pub read-write :
    (mp : Memphy) (addr b other value : ℕ)
    → mp.rdmflg ≢ 0
    → addr < mp.maxsz
    → other < mp.maxsz
    → (mp' : Memphy) × (write mp addr b ≡ ok (success, mp'))
      × (read mp' other value ≡ ok (success, if addr == other then b else mp.storage other, mp'))
read-write mp addr b other value h lt lt' = (
  written mp addr b,
  write_random mp addr b h lt,
  read_random (written mp addr b) other value h lt',
)

-- On a random access device, a read or a write at or past the device's size is not refused: it
-- leaves the storage, and faults.
pub access_outside :
    (mp : Memphy) (addr b value : ℕ)
    → mp.rdmflg ≢ 0
    → mp.maxsz ≤ addr
    → (read mp addr value ≡ fault) × (write mp addr b ≡ fault)
unfolding read write
access_outside mp addr b value h le = (ground arith, ground arith)

-- On a sequential device every read and every write returns -1 and changes nothing, since its
-- functions test the flag the wrong way.
pub sequential_refuses :
    (mp : Memphy) (addr b value : ℕ)
    → mp.rdmflg ≡ 0
    → (read mp addr value ≡ ok (failure, value, mp)) × (write mp addr b ≡ ok (failure, mp))
unfolding read write
sequential_refuses mp addr b value h = (ground arith, ground arith)

csr_loop-cursor :
    (fuel numstep offset : ℕ) (mp : Memphy)
    → 0 < mp.maxsz
    → offset ≤ numstep + fuel
    → numstep ≤ offset
    → numstep ≤ mp.maxsz
    → mp.cursor ≡ numstep % mp.maxsz
    → ((csr_loop fuel numstep offset mp).cursor ≡ min offset mp.maxsz % mp.maxsz)
unfolding csr_loop
csr_loop-cursor zero numstep offset mp pos enough le le' at =
    let done : numstep ≡ min offset mp.maxsz = omega arith in at ∙ ap (λ n. n % mp.maxsz) done
csr_loop-cursor (suc fuel) numstep offset mp pos enough le le' at =
    elim (Bool-cases (ltb numstep offset && ltb numstep mp.maxsz)) [
      | inl more ↦
          let below : numstep < mp.maxsz = ground arith in
          let next : (mp.cursor + 1) % mp.maxsz ≡ (numstep + 1) % mp.maxsz =
            ap (λ n. (n + 1) % mp.maxsz) (at ∙ mod-eq_of_lt below) in
          rw more (
            csr_loop-cursor fuel (numstep + 1) offset _ pos (omega arith) (ground arith)
              (omega arith) next)
      | inr done ↦
          let stop : numstep ≡ min offset mp.maxsz = ground arith in
          rw done (at ∙ ap (λ n. n % mp.maxsz) stop)
    ]

-- On a device that is not empty, `MEMPHY_mv_csr` moves the cursor to the address, or round to 0 if
-- the address is not in the device.
pub mv_csr-cursor :
    (mp : Memphy) (offset : ℕ)
    → 0 < mp.maxsz
    → (mv_csr mp offset).cursor ≡ min offset mp.maxsz % mp.maxsz
unfolding mv_csr
mv_csr-cursor mp offset pos =
    csr_loop-cursor offset 0 offset (record mp { cursor = 0 }) pos (omega arith) (omega arith)
      (omega arith) (omega arith)
