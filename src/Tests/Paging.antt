-- ===== src/Tests/Paging.antt =====
-- The boot frame allocator on a memory map of three regions, and page tables of two entries.
use idkernel.Base.{
  ◌+◌, ◌==◌, if◌then◌else◌, ◌≡◌, ◌≢◌, refl, inl, inr, true, false, some, List, [], ◌∷◌, drop, All,
  Among, ok, arith,
}
use idkernel.Paging.Frames.{MemoryRegion, Physical, init, usable_frames, addresses}
use idkernel.Paging.Tables.{Tables, fix_bootloader_pollution, globalize_kernelspace}
use idkernel.Paging.Tables.Clearing.{Cleared, walk, huge_way, fix_bootloader_pollution_lem}
use idkernel.Paging.Tables.Globalizing.{Globalized, global_way, globalize_kernelspace_lem}
use idkernel.Paging.Frames.Regions.{Pairwise, InUsable}
use idkernel.Paging.Frames.Laws.{allocations, answers, Documented, allocations_lem}

abbrev crate : Physical
crate = record { phys_addr = λ a. some a; containing_address = λ a. a }

crate-Documented : Documented crate
crate-Documented = record { below = λ a h. refl; whole = λ a h. refl }

abbrev memory_map : List MemoryRegion
memory_map =
    record { start = 0x1000; end = 0x3000; usable = true }
    ∷ record { start = 0x3000; end = 0x9000; usable = false }
    ∷ record { start = 0x9000; end = 0xA000; usable = true }
    ∷ []

three_frames : init memory_map ≡ 0x1000 ∷ 0x2000 ∷ 0x9000 ∷ []
unfolding init usable_frames addresses
three_frames = refl

allocations_lem_example :
    (allocations {E = ⊥} crate 2 (init memory_map)
      ≡ ok (answers 2 (init memory_map)) (drop 2 (init memory_map)))
    × All (InUsable memory_map) (init memory_map)
    × Pairwise (λ x y. x ≢ y) (init memory_map)
    × Among 0x9000 (init memory_map)
allocations_lem_example =
    allocations_lem crate memory_map crate-Documented
      ((refl, refl, omega arith), ((refl, refl, omega arith), ((refl, refl, omega arith), tt)))
      ((inl (omega arith), (inl (omega arith), tt)), ((inl (omega arith), tt), (tt, tt))) 2 0x9000
      (inr (inr (inl (refl, (omega arith, omega arith, refl)))))

-- Memory in which every entry of a table is present and leads to the next table.
abbrev chain : Tables
chain = λ t i. record { present = true; global = false; huge_page = false; addr = t + 1 }

-- The same, but that the tables at 9 hold huge pages.
abbrev with_huge : Tables
with_huge = λ t i. record { present = true; global = false; huge_page = t == 9; addr = t + 1 }

fix_bootloader_pollution_lem_example :
    (walk 2 3 (fix_bootloader_pollution 2 7 with_huge) 7 (λ l. 0)
      ≡ huge_way 2 3 (fix_bootloader_pollution 2 7 with_huge) 7 (λ l. 0))
    × Cleared with_huge (fix_bootloader_pollution 2 7 with_huge)
fix_bootloader_pollution_lem_example =
    fix_bootloader_pollution_lem 2 7 with_huge (λ l. 0) (λ l. omega arith) (omega arith)

globalize_kernelspace_lem_example :
    (global_way 2 3 (globalize_kernelspace 2 7 chain) 7 (λ l. if l == 3 then 1 else 0) ≡ true)
    × Globalized chain (globalize_kernelspace 2 7 chain)
globalize_kernelspace_lem_example =
    globalize_kernelspace_lem 2 7 chain (λ l. if l == 3 then 1 else 0) (λ l. ground arith)
      (omega arith)
