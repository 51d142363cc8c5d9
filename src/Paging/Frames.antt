-- ===== src/Paging/Frames.antt =====
-- idker/src/arch/x86_64/paging/frame_allocator.rs: `BootInfoFrameAllocator`. Its iterator is the
-- list of the addresses that it still yields, before they become frames. `PhysAddr::new` (`none`
-- where it panics) and `PhysFrame::containing_address` of the crate x86_64 are a parameter.
pub mod Regions
pub mod Laws
use idkernel.Base.{
  ℕ, zero, suc, ◌+◌, ◌-◌, ◌/◌, Bool, Option, none, some, List, [], ◌∷◌, ◌++◌, if◌then◌else◌,
  Outcome, ok, Prog, ◌>>=◌, pure, unwrap,
}

-- The fields in use of a region of the memory map; `usable` is the test of its kind.
pub record MemoryRegion : Type 0 where
  pub start : ℕ
  pub end : ℕ
  pub usable : Bool

pub record Physical : Type 0 where
  pub phys_addr : ℕ → Option ℕ
  pub containing_address : ℕ → ℕ

-- `(start..).step_by(4096)`, the first ones.
abbrev pub stepped : ℕ → ℕ → List ℕ
stepped zero start = []
stepped (suc n) start = start ∷ stepped n (start + 4096)

-- `(r.start..r.end).step_by(4096)`.
unfoldable pub addresses : MemoryRegion → List ℕ
addresses r = stepped ((r.end - r.start + 4095) / 4096) r.start

-- `usable_frames`, without the last step.
unfoldable pub usable_frames : List MemoryRegion → List ℕ
usable_frames [] = []
usable_frames (r ∷ memory_map) =
    if r.usable then addresses r ++ usable_frames memory_map else usable_frames memory_map

unfoldable pub init : List MemoryRegion → List ℕ
init memory_map = usable_frames memory_map

-- `self.iter.next()`.
unfoldable pub allocate_frame : {E : Type 0} → Physical → Prog (List ℕ) E (Option ℕ)
allocate_frame p [] = pure none []
allocate_frame p (addr ∷ rest) =
    (unwrap (p.phys_addr addr) >>= λ a. pure (some (p.containing_address a))) rest
