-- ===== src/Tests/Memory.antt =====
-- Runs of the allocators, of the page table of a task and of the display of sizes.
use idkernel.Base.{
  ◌==◌, if◌then◌else◌, Among, ◌↔◌, List, false, drop, replicate, Option, true, none, ℕ, ◌≡◌, ◌+◌,
  ◌*◌, ◌≤◌, ◌<◌, ◌^◌, ◌⊎◌, refl, ok, ◌>>=◌, some, [], ◌∷◌, arith,
}
use idkernel.Abi.{SyscallError}
use idkernel.Context.PageTable.{PageTableEntry, unused, new_from, drop_table}
use idkernel.Context.PageTable.Laws.{with_lower, LeadsAny, times, sum, ways, drop_table-new_from}
use idkernel.Allocator.Align.{align_up}
use idkernel.Allocator.FixedSizeBlock.{FallbackHeap, Layout, Allocator, list_index, alloc, dealloc}
use idkernel.Allocator.FixedSizeBlock.Laws.{
  IsValid, Serves, Reused, Requested, list_index_lem, alloc_lem, dealloc-alloc,
}
use idkernel.Allocator.HeapFrame.{HeapRegion}
use idkernel.Allocator.LinkedList.{Region, alloc_from_region, find_region, suitable}
use idkernel.Allocator.LinkedList.Laws.{Answers, alloc_from_region_lem, find_region_lem}

-- A heap that hands out ever higher addresses, its state, and takes nothing back.
abbrev bump_heap : FallbackHeap
bump_heap = record {
  Heap = ℕ;
  allocate_first_fit = λ l top. (some top, top + l.size);
  deallocate = λ ptr l top. top;
  used = λ top. top;
  free = λ top. 0;
  size = λ top. top;
}

abbrev pointer : Layout
pointer = record { size = 24; align = 8 }

-- One free block of 32 bytes.
abbrev one_free : Allocator bump_heap
one_free = record {
  list_heads = [] ∷ [] ∷ (0x500 ∷ []) ∷ [] ∷ [] ∷ [] ∷ [] ∷ [] ∷ [] ∷ [];
  fallback_allocator = 0x1000;
  block_free = 32;
}

one_free-IsValid : IsValid bump_heap one_free
one_free-IsValid = (refl, refl)

pointer_index : list_index pointer ≡ some 2
unfolding list_index
pointer_index = refl

list_index_lem_example : Serves pointer (some 2)
unfolding list_index
list_index_lem_example = list_index_lem pointer

alloc_lem_example :
    (ptr : ℕ) × (a' : Allocator bump_heap) × (alloc bump_heap {E = SyscallError} pointer one_free
      ≡ ok ptr a')
    × IsValid bump_heap a'
    × (Reused bump_heap pointer one_free ptr a' ⊎ Requested bump_heap pointer one_free ptr a')
alloc_lem_example = alloc_lem bump_heap {E = SyscallError} one_free pointer one_free-IsValid

dealloc-alloc_example :
    (dealloc bump_heap {E = SyscallError} 0x700 pointer >>= λ _. alloc bump_heap pointer) one_free
    ≡ ok 0x700 one_free
dealloc-alloc_example =
    dealloc-alloc bump_heap {E = SyscallError} one_free pointer pointer 2 0x700 one_free-IsValid
      pointer_index pointer_index (omega arith)

-- A lower half with one table of level 3, whose table of level 2 has one of level 1.
abbrev lower_half : List PageTableEntry
lower_half = record { present = true; huge_page = false; addr = 1 } ∷ replicate 255 unused

abbrev table_at : ℕ → List PageTableEntry
table_at n = record { present = true; huge_page = false; addr = n + 1 } ∷ []

drop_table-new_from_example :
    (drop 256 (with_lower lower_half (new_from (replicate 512 unused)))
      ≡ drop 256 (replicate 512 unused))
    × (Among 3 (drop_table table_at (with_lower lower_half (new_from (replicate 512 unused))))
        ↔ LeadsAny table_at 2 lower_half 3)
    × (times 3 (drop_table table_at (with_lower lower_half (new_from (replicate 512 unused))))
        ≡ sum (ways table_at 3 2) lower_half)
    × (drop_table table_at (new_from (replicate 512 unused)) ≡ [])
drop_table-new_from_example = drop_table-new_from table_at (replicate 512 unused) lower_half 3 refl

abbrev first_region : Region
first_region = record { start_addr = 1001; size = 40 }

abbrev second_region : Region
second_region = record { start_addr = 5008; size = 64 }

suits : alloc_from_region second_region 32 (2 ^ 4) ≡ suitable 5008
unfolding alloc_from_region align_up
suits = refl

alloc_from_region_lem_example :
    (q : ℕ) × (5008 ≡ q * 2 ^ 4)
    × (5008 ≤ 5008)
    × (5008 < 5008 + 2 ^ 4)
    × ((5008 + 32 ≡ 5008 + 64) ⊎ (5008 + 32 + 16 ≤ 5008 + 64))
alloc_from_region_lem_example =
    alloc_from_region_lem second_region 32 4 60 5008 refl (omega arith) suits

find_region_lem_example :
    Answers 32 16
      (first_region ∷ second_region ∷ [])
      (find_region 32 16 (first_region ∷ second_region ∷ []))
find_region_lem_example = find_region_lem 32 16 (first_region ∷ second_region ∷ [])

-- A region that is not mapped yet, and one at 0x443000 from its start on.
abbrev unmapped : HeapRegion
unmapped = record { start = 0x100000; limit = 0x200000; virt_start = none }

abbrev mapped_region : HeapRegion
mapped_region = record unmapped { virt_start = some 0x443000 }

-- Between the frames of two heap pages one was taken for a page table.
abbrev translate : ℕ → Option ℕ
translate n = if n == 0x444000 then some 0x101000 else some 0x103000
