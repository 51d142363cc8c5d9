-- ===== src/Context/PageTable.antt =====
-- idker/src/context/page_table.rs: the page table of a task, which shares the upper half of its
-- entries with the kernel, and the frames that are given back with it. Tables other than the top one
-- are looked up by their physical address.
pub mod Laws
use idkernel.Base.{
  ℕ, zero, suc, Bool, true, false, not, ◌||◌, ◌&&◌, List, [], ◌∷◌, ◌++◌, if◌then◌else◌, take, drop,
  replicate,
}

-- The fields in use of a `PageTableEntry`; the frame of a present and not huge one is at `addr`.
pub record PageTableEntry : Type 0 where
  pub present : Bool
  pub huge_page : Bool
  pub addr : ℕ

abbrev pub unused : PageTableEntry
unused = record { present = false; huge_page = false; addr = 0 }

-- `PageTable::new`, with the higher-half entries of another table copied into it.
unfoldable pub new_from : List PageTableEntry → List PageTableEntry
new_from table = replicate 256 unused ++ drop 256 table

-- The frames that a loop over entries gives back, in order.
abbrev pub for_each : (PageTableEntry → List ℕ) → List PageTableEntry → List ℕ
for_each worker [] = []
for_each worker (e ∷ es) = worker e ++ for_each worker es

module _ (table_at : ℕ → List PageTableEntry) where
  -- `unmap_worker`, on an entry so many levels above level 2: the frames that it hands to
  -- `deallocate_frame`, those of the tables below before its own.
  unfoldable pub unmap_worker : ℕ → PageTableEntry → List ℕ
  unmap_worker zero entry = if not entry.present || entry.huge_page then [] else entry.addr ∷ []
  unmap_worker (suc level) entry =
      let lower = for_each (unmap_worker level) (table_at entry.addr) in
      if not entry.present || entry.huge_page then [] else lower ++ entry.addr ∷ []

  -- `Drop for UserPageTable`: the lower entries, from level 4 on.
  unfoldable pub drop_table : List PageTableEntry → List ℕ
  drop_table page_table = for_each (unmap_worker 2) (take 256 page_table)
