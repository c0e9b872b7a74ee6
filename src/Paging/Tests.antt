-- ===== src/Paging/Tests.antt =====
-- The bytes of a process, and the theorems on them at it.
use osassignment_hk.Base.{
  ℕ, ◌≡◌, refl, ◌==◌, if◌then◌else◌, Outcome, Ret, success, failure, ok, fault, true, [], ◌∷◌,
  arith,
}
use osassignment_hk.Base.Bytes.{extend_byte}
use osassignment_hk.Pte.{pgn, offst, page_present, pte_fpn, pte_set_fpn, max_pgn}
use osassignment_hk.Mm.{Caller}
use osassignment_hk.Paging.{pg_getpage, libread, libwrite}
use osassignment_hk.Paging.Access.{Mapped, pg_getpage_present, libread-libwrite}
use osassignment_hk.Paging.Fault.{Faults, PagedIn, pg_getpage_faults}
use osassignment_hk.Paging.Ram.{pg_getpage_never_loads}
use osassignment_hk.Paging.Bounds.{libread_past_table}
use osassignment_hk.Paging.Example.{ram, area, memory, process, junk, area_found, low_enough}

first_byte : Mapped process 0 5 261
unfolding pte_set_fpn page_present pte_fpn pgn offst max_pgn
first_byte = record {
  area = (0, area);
  found = area_found;
  entry = omega arith;
  low = omega arith;
  present = refl;
  place = refl;
  random = omega arith;
  inside = omega arith;
  byte = omega arith;
}

second_region_byte : Mapped process 1 7 51
unfolding pte_set_fpn page_present pte_fpn pgn offst max_pgn
second_region_byte = record {
  area = (0, area);
  found = area_found;
  entry = omega arith;
  low = omega arith;
  present = refl;
  place = refl;
  random = omega arith;
  inside = omega arith;
  byte = omega arith;
}

libread-libwrite_example :
    (caller' : Caller) × (libwrite junk process 200 0 5 ≡ ok (success, caller'))
    × (libread junk caller' 1 7
        ≡ ok (success, extend_byte (if 261 == 51 then 200 else process.mram.storage 51), caller'))
libread-libwrite_example =
    libread-libwrite junk process 0 5 261 1 7 51 200 first_byte second_region_byte (omega arith)

first_present : page_present (memory.pgd 0) ≡ true
unfolding page_present pte_set_fpn
first_present = refl

pg_getpage_present_example :
    pg_getpage junk process 0 ≡ ok (success, pte_fpn (memory.pgd 0), process)
pg_getpage_present_example =
    pg_getpage_present junk process 0 (omega (arith, low_enough)) first_present

-- Page 2 is asked for: page 0 leaves.
abbrev after_fault : Outcome (Ret × ℕ × Caller) → Caller
after_fault (ok (rc, fpn, caller)) = caller
after_fault fault = process

absent_returns :
    pg_getpage junk process 2 ≡ ok (success, 1, after_fault (pg_getpage junk process 2))
unfolding pg_getpage max_pgn page_present pte_fpn pte_set_fpn
absent_returns = refl

pg_getpage_never_loads_example : (after_fault (pg_getpage junk process 2)).mram ≡ ram
pg_getpage_never_loads_example =
    pg_getpage_never_loads junk process 2 success 1 (after_fault (pg_getpage junk process 2))
      absent_returns

libread_past_table_example :
    libread junk process 30 5
    ≡ (if 30 == 30 then fault else ok (failure, extend_byte junk.value, process))
libread_past_table_example = libread_past_table junk process (0, area) 5 30 area_found (omega arith)

-- RAM and swap have four frames each; page 2 faults, and page 0 is the victim.
pages_fault : Faults process 2 0 (1 ∷ []) 0 []
unfolding pte_set_fpn page_present pte_fpn max_pgn
pages_fault = record {
  entry = omega arith;
  absent = refl;
  order = refl;
  other = λ e. omega arith;
  vic_entry = omega arith;
  words = (omega arith, omega arith);
  room = refl;
  narrow = omega arith;
  vic_frame = (λ e. omega arith, omega arith);
  old_frame = (λ e. omega arith, omega arith);
  swp_frame = (λ e. omega arith, omega arith);
  same_frame = (λ e. omega arith, omega arith);
}

pg_getpage_faults_example :
    (after : Caller) × (pg_getpage junk process 2 ≡ ok (success, pte_fpn (process.mm.pgd 0), after))
    × PagedIn process 2 0 (1 ∷ []) 0 [] after
pg_getpage_faults_example = pg_getpage_faults junk pages_fault
