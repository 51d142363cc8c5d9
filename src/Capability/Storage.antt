-- ===== src/Capability/Storage.antt =====
-- idker/src/capability/syscall.rs: `TaskCapabilityStorage`, a vector of handles and capabilities.
-- Whether the allocator grants `try_reserve(1)` is an argument. The counter is checked, as in a
-- build with overflow checks.
pub mod Laws
pub mod Kept
use idkernel.Base.{
  ℕ, ◌+◌, ◌^◌, Bool, true, false, Option, none, some, List, [], ◌∷◌, ◌++◌, if◌then◌else◌, ◌==◌,
  position, remove_at, get_elem?, assoc, assoc_set, Outcome, ok, err, panic, hang, Prog, ◌>>=◌,
  ◌>>◌, pure, get, modify, ok_or, unwrap, guard, assert, ltb,
}
use idkernel.Abi.{SyscallError, no_memory, wrong_capability}
use idkernel.Capability.Data.{Capability}

pub record Storage : Type 0 where
  pub next_handle : ℕ
  pub handles : List (ℕ × Capability)

-- `Default::default()`.
unfoldable pub empty : Storage
empty = record { next_handle = 0; handles = [] }

unfoldable pub insert : Bool → Capability → Prog Storage SyscallError ℕ
insert reserved cap = do
  s ← get
  let id = s.next_handle
  assert (ltb (id + 1) (2 ^ 64))
  modify (λ t. record t { next_handle = id + 1 })
  guard reserved no_memory
  modify (λ t. record t { handles = t.handles ++ (id, cap) ∷ [] })
  pure id

-- `get`: the capability of the first entry with the handle.
unfoldable pub lookup : ℕ → Storage → Option Capability
lookup handle s = assoc handle s.handles

-- What a caller of `get_mut` writes through the reference.
unfoldable pub write_back : ℕ → Capability → Storage → Storage
write_back handle cap s = record s { handles = assoc_set handle cap s.handles }

unfoldable pub delete : ℕ → Prog Storage SyscallError Capability
delete handle = do
  s ← get
  index ← ok_or (position (λ x. x.0 == handle) s.handles) wrong_capability
  entry ← unwrap (get_elem? s.handles index)
  modify (λ t. record t { handles = remove_at index t.handles })
  pure entry.1
