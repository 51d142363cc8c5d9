-- ===== src/File/Storage/Laws.antt =====
-- The file table of idker/src/file/syscall.rs as a finite map with fresh descriptors.
use idkernel.Base.{
  ℕ, ◌+◌, ◌^◌, ◌<◌, ◌≡◌, refl, none, some, [], ◌∷◌, ◌++◌, assoc, assoc_set, assoc_remove, Outcome,
  ok, err, arith, Within, Within-push, Within-set, Within-remove, position_found, position_missing,
  Option-cases, inl, inr, Prog, panic, hang,
}
use native.Mathlib.Numerals.{add-one}
use idkernel.Abi.{SyscallError, wrong_descriptor}
use idkernel.File.Handles.{FileHandle}
use idkernel.File.Storage.{Storage, new, allocate_descriptor, push, on_handle, close}

pub record IsValid (s : Storage) : Type 0 where
  pub handed_out : Within 1 s.next_descriptor s.handles

abbrev pub pushed : FileHandle → Storage → Storage
pushed h s = record s {
  handles = s.handles ++ (s.next_descriptor, h) ∷ [];
  next_descriptor = s.next_descriptor + 1;
}

abbrev pub closed : ℕ → Storage → Storage
closed fd s = record s { handles = assoc_remove fd s.handles }

pub new-IsValid : (task : ℕ) → IsValid (new task)
unfolding new
new-IsValid task = record { handed_out = omega arith }

pub push_lem :
    {E : Type 0} (h : FileHandle) (s : Storage)
    → s.next_descriptor + 1 < 2 ^ 64
    → push {E = E} h s ≡ ok s.next_descriptor (pushed h s)
unfolding push allocate_descriptor
push_lem h s e = ground arith

pub pushed-IsValid : (h : FileHandle) (s : Storage) → IsValid s → IsValid (pushed h s)
pushed-IsValid h s v = record {
  handed_out = rw add-one (Within-push 1 s.next_descriptor h s.handles v.handed_out);
}

pub close_lem :
    (fd : ℕ) (s : Storage)
    → close fd s
      ≡ elim (assoc fd s.handles) [ none ↦ err wrong_descriptor s | some _ ↦ ok tt (closed fd s) ]
unfolding close
close_lem fd s = elim (Option-cases (assoc fd s.handles)) [
  | inl missing ↦ ground (arith, position_missing fd s.handles missing)
  | inr (c, found) ↦ ground (arith, position_found fd c s.handles found)
]

-- The table once a handle has changed.
abbrev pub updated : ℕ → FileHandle → Storage → Storage
updated fd h s = record s { handles = assoc_set fd h s.handles }

pub updated-IsValid : (fd : ℕ) (h : FileHandle) (s : Storage) → IsValid s → IsValid (updated fd h s)
updated-IsValid fd h s v = record {
  handed_out = Within-set fd 1 s.next_descriptor h s.handles v.handed_out;
}

-- If a method on a descriptor succeeds, the descriptor has a handle on which the method succeeds
-- with the same result, and the table after it is the one before with only the handle of that
-- descriptor replaced by what the method left.
pub on_handle-ok :
    {A : Type 0} (fd : ℕ) (method : Prog FileHandle SyscallError A) (s t : Storage) (a : A)
    → on_handle fd method s ≡ ok a t
    → (h : FileHandle) × (h' : FileHandle) × (assoc fd s.handles ≡ some h)
      × (method h ≡ ok a h')
      × (t ≡ updated fd h' s)
unfolding on_handle
on_handle-ok {A} fd method s t a e = elim (Option-cases (assoc fd s.handles)) [
  | inl missing ↦ let q = rw (missing, on_handle) at e in cc
  | inr (h, found) ↦ go h found (method h) refl
]
  where
    go :
        (h : FileHandle)
        → assoc fd s.handles ≡ some h
        → (r : Outcome FileHandle SyscallError A) → method h ≡ r
        → (k : FileHandle) × (k' : FileHandle) × (assoc fd s.handles ≡ some k)
          × (method k ≡ ok a k')
          × (t ≡ updated fd k' s)
    go h found (ok b h') m = let q = rw (found, m, on_handle) at e in (h, h', found, cc, cc)
    go h found (err x h') m = let q = rw (found, m, on_handle) at e in cc
    go h found panic m = let q = rw (found, m, on_handle) at e in cc
    go h found hang m = let q = rw (found, m, on_handle) at e in cc

pub closed-IsValid : (fd : ℕ) (s : Storage) → IsValid s → IsValid (closed fd s)
closed-IsValid fd s v = record {
  handed_out = Within-remove fd 1 s.next_descriptor s.handles v.handed_out;
}
