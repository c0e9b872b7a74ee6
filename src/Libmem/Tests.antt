-- ===== src/Libmem/Tests.antt =====
-- The frames, areas and regions of a process, and the theorems on them at it.
use osassignment_hk.Base.{
  ℕ, ◌+◌, ◌-◌, ◌*◌, ◌/◌, ◌≡◌, refl, leb, ltb, ◌&&◌, if◌then◌else◌, ◌++◌, update, List, [], ◌∷◌,
  length, none, success, ok, ◌>>=◌, set, arith,
}
use osassignment_hk.Base.Bytes.{as_int}
use osassignment_hk.Pte.{pagesz, pgn, page_alignsz}
use osassignment_hk.Mm.{swap_cp_page, vmap_page_range, alloc_pages_range}
use osassignment_hk.Mm.Swap.{swap_cp_page_copies}
use osassignment_hk.Mm.Map.{
  Grants, mapped, newest_first, left_free, alloc_pages_range-Grants, vmap_page_range_maps,
}
use osassignment_hk.MmVm.{inc_vma_limit, validate_overlap_vm_area}
use osassignment_hk.MmVm.Limit.{Meets, inc_vma_limit_grows}
use osassignment_hk.Libmem.{first_fit, liballoc, libfree}
use osassignment_hk.Libmem.FirstFit.{Cuts, first_fit-Cuts}
use osassignment_hk.Libmem.Alloc.{given_back, libfree_twice, liballoc-libfree}
use osassignment_hk.Libmem.Exhausted.{unbacked, liballoc_without_frames}
use osassignment_hk.Paging.Example.{
  ram, region, other_region, area, memory, process, junk, area_found, low_enough,
}

swap_cp_page_copies_example :
    (f : ℕ → ℕ) × (swap_cp_page 0 ram 1 ram 3 ≡ ok (ram, record ram { storage = f }))
    × ((addr : ℕ)
        → f addr ≡ (
            if leb (3 * pagesz) addr && ltb addr ((3 + 1) * pagesz)
            then ram.storage (1 * pagesz + (addr - 3 * pagesz))
            else ram.storage addr))
swap_cp_page_copies_example =
    swap_cp_page_copies 0 ram 1 ram 3 (omega arith) (omega arith) (omega arith) (omega arith)

alloc_pages_range-Grants_example : Grants 3 [] ram (alloc_pages_range ram 3)
alloc_pages_range-Grants_example = alloc_pages_range-Grants ram 3

page_two : pgn 512 ≡ 2
unfolding pgn
page_two = refl

vmap_page_range_maps_example :
    vmap_page_range memory 512 1 (3 ∷ 2 ∷ [])
    ≡ ok (
      success,
      record { rg_start = 512; rg_end = 512 + 1 * pagesz },
      record memory {
        pgd = mapped memory.pgd (pgn 512) 1 (3 ∷ 2 ∷ []);
        fifo_pgn = (pgn 512 + 1) ∷ memory.fifo_pgn;
      },
    )
vmap_page_range_maps_example =
    vmap_page_range_maps memory 512 1 (3 ∷ 2 ∷ []) (omega arith)
      (omega (arith, low_enough, page_two))

one_page : page_alignsz 200 ≡ 256
unfolding page_alignsz
one_page = refl

three_pages : page_alignsz 600 ≡ 768
unfolding page_alignsz
three_pages = refl

area-Meets : Meets process 0 200 0 area
unfolding validate_overlap_vm_area
area-Meets = record {
  found = area_found;
  apart = refl;
  size_int = omega arith;
  end_int = omega arith;
  new_int = omega (arith, one_page);
}

area_large-Meets : Meets process 0 600 0 area
unfolding validate_overlap_vm_area
area_large-Meets = record {
  found = area_found;
  apart = refl;
  size_int = omega arith;
  end_int = omega arith;
  new_int = omega (arith, three_pages);
}

inc_vma_limit_grows_example :
    let n = page_alignsz 200 / pagesz in
    (taken rest : List ℕ) × (ram.free_fp_list ≡ taken ++ rest)
    × (length taken ≡ n)
    × (inc_vma_limit process 0 200
        ≡ ok (
          success,
          record process {
            mm = record memory {
              pgd = mapped memory.pgd (pgn 512) n (newest_first taken []);
              mmap =
                  set memory.mmap 0 (record area {
                    vm_end = 512 + page_alignsz 200;
                    sbrk = 512 + page_alignsz 200;
                  });
              fifo_pgn = (pgn 512 + n) ∷ memory.fifo_pgn;
            };
            mram = left_free ram rest;
          },
        ))
inc_vma_limit_grows_example =
    inc_vma_limit_grows process 0 200 0 area area-Meets (omega (arith, one_page))
      (omega (arith, one_page, page_two, low_enough))

first_fit-Cuts_example :
    Cuts 200 (other_region ∷ region ∷ []) (first_fit 200 (other_region ∷ region ∷ []))
first_fit-Cuts_example =
    first_fit-Cuts 200 (other_region ∷ region ∷ [])
      ((omega arith, omega arith), ((omega arith, omega arith), tt))

libfree_twice_example :
    let rg = given_back memory 0 in
    (libfree process 0 >>= λ (_, caller'). libfree caller' 0)
    ≡ ok (
      success,
      record process {
        mm = record memory {
          mmap = record area { vm_freerg_list = rg ∷ rg ∷ area.vm_freerg_list } ∷ [];
        };
      },
    )
unfolding as_int
libfree_twice_example = libfree_twice process area [] 0 refl (omega arith) (omega arith)

liballoc-libfree_example :
    let rg = memory.symrgtbl 0 in
    (libfree process 0 >>= λ (_, caller'). liballoc junk caller' 100 3)
    ≡ ok (
      success,
      record process {
        mm = record memory {
          mmap =
              record area {
                vm_freerg_list = record rg { rg_start = rg.rg_start + 100 } ∷ area.vm_freerg_list;
              }
              ∷ [];
          symrgtbl =
              update memory.symrgtbl 3
                (record { rg_start = rg.rg_start; rg_end = rg.rg_start + 100 });
        };
      },
    )
liballoc-libfree_example =
    liballoc-libfree junk process area [] 0 3 100 refl (omega arith) (omega arith) (omega arith)
      (omega arith) (omega arith)

large_fits_nowhere : first_fit 600 area.vm_freerg_list ≡ none
unfolding first_fit
large_fits_nowhere = refl

liballoc_without_frames_example :
    liballoc junk process 600 2 ≡ ok (success, unbacked junk process area [] 2 600)
liballoc_without_frames_example =
    liballoc_without_frames junk process area [] 2 600 refl (omega arith)
      (omega (arith, three_pages)) (omega arith) large_fits_nowhere area_large-Meets.apart
      (omega (arith, three_pages))
