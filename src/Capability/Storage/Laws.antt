-- ===== src/Capability/Storage/Laws.antt =====
-- The capability table of idker/src/capability/syscall.rs as a finite map with fresh handles.
use idkernel.Base.{
  ℕ, ◌+◌, ◌^◌, ◌<◌, ◌≡◌, Bool, true, none, some, [], ◌∷◌, ◌++◌, if◌then◌else◌, ◌==◌, assoc,
  assoc_remove, ok, err, arith, Within, Within-push, Within-remove, assoc_above, assoc-append,
  assoc-append_none, assoc-remove_self, assoc-remove_ne, position_found, position_missing,
  Option-cases, inl, inr,
}
use native.Mathlib.Numerals.{add-one}
use idkernel.Abi.{no_memory, wrong_capability}
use idkernel.Capability.Data.{Capability}
use idkernel.Capability.Storage.{Storage, empty, insert, lookup, delete}

-- The handles ascend below the counter, so that each stands once.
pub record IsValid (s : Storage) : Type 0 where
  pub handed_out : Within 0 s.next_handle s.handles

pub empty-IsValid : IsValid empty
unfolding empty
empty-IsValid = record { handed_out = omega arith }

-- The table after an insertion that the allocator granted, and after a deletion.
abbrev pub inserted : Capability → Storage → Storage
inserted cap s = record {
  next_handle = s.next_handle + 1;
  handles = s.handles ++ (s.next_handle, cap) ∷ [];
}

abbrev pub deleted : ℕ → Storage → Storage
deleted h s = record s { handles = assoc_remove h s.handles }

pub insert_lem :
    (reserved : Bool) (cap : Capability) (s : Storage)
    → s.next_handle + 1 < 2 ^ 64
    → insert reserved cap s ≡ (
        if reserved
        then ok s.next_handle (inserted cap s)
        else err no_memory (record s { next_handle = s.next_handle + 1 }))
unfolding insert
insert_lem reserved cap s h = ground arith

pub inserted-IsValid : (cap : Capability) (s : Storage) → IsValid s → IsValid (inserted cap s)
inserted-IsValid cap s v = record {
  handed_out = rw add-one (Within-push 0 s.next_handle cap s.handles v.handed_out);
}

pub deleted-IsValid : (h : ℕ) (s : Storage) → IsValid s → IsValid (deleted h s)
deleted-IsValid h s v = record {
  handed_out = Within-remove h 0 s.next_handle s.handles v.handed_out;
}

-- In a table whose handles are distinct and below the next one, an insertion makes the next handle
-- lead to the new capability, and every other handle leads where it did.
pub lookup-inserted :
    (h : ℕ) (cap : Capability) (s : Storage)
    → IsValid s
    → lookup h (inserted cap s) ≡ (if h == s.next_handle then some cap else lookup h s)
unfolding lookup
lookup-inserted h cap s v = elim (Option-cases (assoc h s.handles)) [
  | inl missing ↦ rw (assoc-append_none h s.handles _ missing) (ground arith)
  | inr (c, found) ↦
      rw (assoc-append h s.handles _ c found)
        (ground (arith, assoc_above h 0 s.next_handle s.handles v.handed_out))
]

pub delete_lem :
    (h : ℕ) (s : Storage)
    → delete h s
      ≡ elim (lookup h s) [ none ↦ err wrong_capability s | some cap ↦ ok cap (deleted h s) ]
unfolding delete lookup
delete_lem h s = elim (Option-cases (assoc h s.handles)) [
  | inl missing ↦ ground (arith, position_missing h s.handles missing)
  | inr (c, found) ↦ ground (arith, position_found h c s.handles found)
]

-- In a table whose handles are distinct and below the next one, a deletion leaves nothing under its
-- handle, and every other handle leads where it did.
pub lookup-deleted :
    (h q : ℕ) (s : Storage)
    → IsValid s
    → lookup q (deleted h s) ≡ (if q == h then none else lookup q s)
unfolding lookup
lookup-deleted h q s v = ground (
  arith,
  assoc-remove_self h 0 s.next_handle s.handles v.handed_out,
  assoc-remove_ne h q s.handles,
)

-- In a table whose handles ascend below the next one, with room for one more and memory for it, an
-- insertion returns the next handle and leaves such a table, in which that handle leads to the new
-- capability and every other handle leads where it did.
pub insert-lookup :
    (cap : Capability) (s : Storage)
    → IsValid s
    → s.next_handle + 1 < 2 ^ 64
    → (s' : Storage) × (insert true cap s ≡ ok s.next_handle s')
      × IsValid s'
      × ((h : ℕ) → lookup h s' ≡ (if h == s.next_handle then some cap else lookup h s))
insert-lookup cap s v room = (
  inserted cap s,
  insert_lem true cap s room,
  inserted-IsValid cap s v,
  λ h. lookup-inserted h cap s v,
)

-- In a table whose handles ascend below the next one, the deletion of a handle that is there
-- returns its capability and leaves such a table, in which that handle leads to nothing and every
-- other handle leads where it did.
pub delete-lookup :
    (h : ℕ) (cap : Capability) (s : Storage)
    → IsValid s
    → lookup h s ≡ some cap
    → (s' : Storage) × (delete h s ≡ ok cap s')
      × IsValid s'
      × ((q : ℕ) → lookup q s' ≡ (if q == h then none else lookup q s))
delete-lookup h cap s v found = (
  deleted h s,
  ground (arith, delete_lem h s, found),
  deleted-IsValid h s v,
  λ q. lookup-deleted h q s v,
)
