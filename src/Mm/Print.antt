-- ===== src/Mm/Print.antt =====
-- src/mm.c: the functions that print lists and the page table, as the numbers that they print, line by
-- line, behind the first line. A list that is NULL is the empty one, of which they print no line.
use osassignment_hk.Base.{
  ℕ, zero, suc, ◌+◌, ◌-◌, ◌*◌, ◌^◌, ◌==◌, if◌then◌else◌, List, [], ◌∷◌, map, none, some, Ret,
  success, failure, Outcome, ok, fault, ◌>>=◌,
}
use osassignment_hk.Pte.{pgn, pte_fpn}
use osassignment_hk.Mm.{Rg, Vma, Caller}
use osassignment_hk.MmVm.{get_vma_by_num}

unfoldable pub print_list_fp : List ℕ → Ret × List ℕ
print_list_fp [] = (failure, [])
print_list_fp (fpn ∷ fps) = (success, fpn ∷ fps)

unfoldable pub print_list_rg : List Rg → Ret × List (ℕ × ℕ)
print_list_rg [] = (failure, [])
print_list_rg (rg ∷ rgs) = (success, map (λ r. (r.rg_start, r.rg_end)) (rg ∷ rgs))

unfoldable pub print_list_vma : List Vma → Ret × List (ℕ × ℕ)
print_list_vma [] = (failure, [])
print_list_vma (vma ∷ vmas) = (success, map (λ v. (v.vm_start, v.vm_end)) (vma ∷ vmas))

unfoldable pub print_list_pgn : List ℕ → Ret × List ℕ
print_list_pgn [] = (failure, [])
print_list_pgn (page ∷ pages) = (success, page ∷ pages)

-- The first loop of `print_pgtbl` over `pgit`, with the rounds that are left: offset and entry.
unfoldable pub print_entries : (ℕ → ℕ) → ℕ → ℕ → List (ℕ × ℕ)
print_entries pgd zero pgit = []
print_entries pgd (suc n) pgit = (pgit * 4, pgd pgit) ∷ print_entries pgd n (pgit + 1)

-- The second loop: page and frame.
unfoldable pub print_frames : (ℕ → ℕ) → ℕ → ℕ → List (ℕ × ℕ)
unfolding pte_fpn
print_frames pgd zero pgit = []
print_frames pgd (suc n) pgit = (pgit, pte_fpn (pgd pgit)) ∷ print_frames pgd n (pgit + 1)

-- `end` of `print_pgtbl`: for -1 it is the end of the first area.
unfoldable pub end_of : Caller → ℕ → Outcome ℕ
unfolding get_vma_by_num
end_of caller end =
    if end == 2 ^ 32 - 1
    then (do
      found ← get_vma_by_num caller.mm.mmap 0
      elim found [ none ↦ fault | some (_, vma) ↦ ok vma.vm_end ])
    else ok end

-- `print_pgtbl` of a process: it returns 0. The lines of the two loops.
unfoldable pub print_pgtbl : Caller → ℕ → ℕ → Outcome (List (ℕ × ℕ) × List (ℕ × ℕ))
unfolding end_of print_entries print_frames pgn
print_pgtbl caller start end = do
  end ← end_of caller end
  ok (
    print_entries caller.mm.pgd (pgn end - pgn start) (pgn start),
    print_frames caller.mm.pgd (pgn end - pgn start) (pgn start),
  )
