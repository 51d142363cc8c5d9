-- ===== src/Allocator/HeapFrame/Laws.antt =====
-- The addresses of frames of idker/src/allocator/heap_frame.rs.
use idkernel.Base.{ℕ, ◌-◌, ◌≡◌, some, List, All}
use idkernel.Allocator.HeapFrame.{HeapRegion, contains}

-- Each region holds both addresses or neither.
abbrev pub Together : ℕ → ℕ → List HeapRegion → Type 0
Together p q = All (λ x. contains p x ≡ contains q x)

-- A region whose virtual start is set from a pair of addresses.
abbrev placed : ℕ → ℕ → HeapRegion → HeapRegion
placed paddr vaddr region = record region { virt_start = some (vaddr - (paddr - region.start)) }
