-- ===== src/Paging/Tables.antt =====
-- idker/src/arch/x86_64/paging/mod.rs: `fix_bootloader_pollution` and `globalize_kernelspace`, on
-- the memory that holds the page tables, by the address and the index of an entry. How many entries
-- a table has (512) is a parameter, its half the `512 / 2` of the source.
pub mod Clearing
pub mod Globalizing
use idkernel.Base.{ℕ, zero, suc, ◌+◌, ◌-◌, ◌/◌, Bool, true, false, not, ◌&&◌, ◌==◌, if◌then◌else◌}

-- The fields in use of a `PageTableEntry`.
pub record Entry : Type 0 where
  pub present : Bool
  pub global : Bool
  pub huge_page : Bool
  pub addr : ℕ

abbrev pub Tables : Type 0
Tables = ℕ → ℕ → Entry

-- A write to one entry.
abbrev pub set : ℕ → ℕ → Entry → Tables → Tables
set t i e mem = λ u j. if (u == t) && (j == i) then e else mem u j

-- A loop over so many indices from 0 on.
abbrev pub each : ℕ → (ℕ → Tables → Tables) → Tables → Tables
each zero f mem = mem
each (suc n) f mem = f n (each n f mem)

module _ (size : ℕ) where
  -- `clear_leaf` on an entry so many levels above level 1.
  unfoldable pub clear_leaf : ℕ → ℕ → ℕ → Tables → Tables
  clear_leaf zero t i mem =
      if not (mem t i).present then mem else set t i (record (mem t i) { present = false }) mem
  clear_leaf (suc level) t i mem =
      let below = each size (clear_leaf level (mem t i).addr) mem in
      if not (mem t i).present
      then mem
      else if (mem t i).global
      then set t i (record (mem t i) { present = false }) mem
      else below

  -- With the address of the level 4 table.
  unfoldable pub fix_bootloader_pollution : ℕ → Tables → Tables
  fix_bootloader_pollution root mem = each (size / 2) (clear_leaf 3 root) mem

  unfoldable pub globalize_leaf : ℕ → ℕ → ℕ → Tables → Tables
  globalize_leaf zero t i mem =
      if not (mem t i).present then mem else set t i (record (mem t i) { global = true }) mem
  globalize_leaf (suc level) t i mem =
      let marked = set t i (record (mem t i) { global = true }) mem in
      let below = each size (globalize_leaf level (mem t i).addr) marked in
      if not (mem t i).present then mem else if (mem t i).huge_page then marked else below

  unfoldable pub globalize_kernelspace : ℕ → Tables → Tables
  globalize_kernelspace root mem =
      each (size - size / 2) (λ i. globalize_leaf 3 root (size / 2 + i)) mem
