-- ===== src/Memphy/Tests.antt =====
-- The devices at concrete sizes, and the theorems at them.
use osassignment_hk.Base.{ℕ, ◌%◌, ◌/◌, ◌≡◌, refl, [], ◌∷◌, length, arith}
use osassignment_hk.Memphy.{Memphy, mv_csr, init_memphy}
use osassignment_hk.Memphy.Frames.{IsValid, init_memphy-IsValid}

-- A device of four frames; frames 1 and 3 are free.
abbrev ram : Memphy
ram = record {
  storage = λ addr. addr % 7;
  maxsz = 1024;
  rdmflg = 1;
  cursor = 0;
  free_fp_list = 1 ∷ 3 ∷ [];
  used_fp_list = [];
}

abbrev tape : Memphy
tape = record ram { rdmflg = 0 }

ram-IsValid : IsValid ram
ram-IsValid = record {
  inside = (omega arith, (omega arith, tt));
  distinct = ((omega arith, tt), (tt, tt));
}

moved : (mv_csr tape 5).cursor ≡ 5
unfolding mv_csr
moved = refl

init_memphy-IsValid_example :
    let mp' = init_memphy [] ram 1024 1 in
    IsValid mp'
    × (length mp'.free_fp_list ≡ 1024 / 256)
    × (mp'.maxsz ≡ 1024)
    × ((addr : ℕ) → mp'.storage addr ≡ 0)
init_memphy-IsValid_example = init_memphy-IsValid [] ram 1024 1 (omega arith)
