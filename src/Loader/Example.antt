-- ===== src/Loader/Example.antt =====
-- A C library whose files hold items, for the tests of the parts that load programs.
use osassignment_hk.Base.{ℕ, List, [], ◌∷◌, Option, none, some}
use osassignment_hk.Process.{Inst}
use osassignment_hk.Stdio.{Stdio}
use osassignment_hk.Loader.Print.{Item, num, word, line, print}

abbrev pub scan_num : List Item → Option ℕ × List Item
scan_num (num n ∷ ts) = (some n, ts)
scan_num (word w ∷ ts) = (none, word w ∷ ts)
scan_num (line l ∷ ts) = (none, line l ∷ ts)
scan_num [] = (none, [])

abbrev pub scan_word : List Item → Option (List ℕ) × List Item
scan_word (word w ∷ ts) = (some w, ts)
scan_word (num n ∷ ts) = (none, num n ∷ ts)
scan_word (line l ∷ ts) = (none, line l ∷ ts)
scan_word [] = (none, [])

abbrev pub scan_line : List Item → Option (List ℕ) × List Item
scan_line (line l ∷ ts) = (some l, ts)
scan_line (num n ∷ ts) = (none, num n ∷ ts)
scan_line (word w ∷ ts) = (none, word w ∷ ts)
scan_line [] = (none, [])

-- Files that hold the items of a program with the priority 5.
abbrev pub items_io : List Inst → Stdio (List Item)
items_io program = record {
  fopen = λ path. some (print 5 program);
  scan_u = scan_num;
  scan_d = scan_num;
  scan_lu = scan_num;
  scan_s = scan_word;
  skip_space = λ f. f;
  fgets = scan_line;
  sscan_d = λ raw. raw;
}
