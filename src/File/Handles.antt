-- ===== src/File/Handles.antt =====
-- The implementations of the trait `FileHandle`: `InitFsFileHandle` of idker/src/file/initfs.rs
-- and `IteratorFileHandle` of idker/src/file/system.rs. A read returns the bytes that it put at
-- the front of the caller's buffer; the buffer is its length.
pub mod Laws
use idkernel.Base.{
  ℕ, zero, suc, ◌-◌, List, [], ◌∷◌, Option, none, some, if◌then◌else◌, ◌==◌, ltb, leb, Str, length,
  take, drop, slice, Outcome, ok, err, panic, hang, Prog, ◌>>=◌, ◌>>◌, pure, get, modify, fail,
  unwrap, assert, min,
}
use mathlib.Core.List.{flatten}
use idkernel.File.System.{FileHandleError, not_seekable, seek_out_of_range}

pub data FileHandle : Type 0 where
  init_file : Str → ℕ → FileHandle
  iterator : Str → FileHandle

-- `FileHandle::seek`.
unfoldable pub seek : ℕ → Prog FileHandle FileHandleError (Unit {0})
seek at (init_file file index) =
    if ltb (length file) at
    then err seek_out_of_range (init_file file index)
    else ok tt (init_file file at)
seek at (iterator rest) = err not_seekable (iterator rest)

-- `InitFsFileHandle::read`: the subtraction is checked, the index expression and
-- `copy_from_slice` panic on wrong lengths, and the index stays.
unfoldable pub read_init_file : {E : Type 0} → ℕ → Str → ℕ → Prog FileHandle E Str
read_init_file at file index = do
  assert (leb index (length file))
  let len = min at (length file - index)
  source ← unwrap (slice index len file)
  assert (length source == len)
  pure source

-- `IteratorFileHandle::read`: one byte at most, and `at[0]` is checked.
unfoldable pub read_iterator : {E : Type 0} → ℕ → Str → Prog FileHandle E Str
read_iterator at [] h = ok [] h
read_iterator zero (x ∷ rest) h = panic
read_iterator (suc at) (x ∷ rest) h = ok (x ∷ []) (iterator rest)

-- `FileHandle::read`.
unfoldable pub read : {E : Type 0} → ℕ → Prog FileHandle E Str
read at (init_file file index) = read_init_file at file index (init_file file index)
read at (iterator rest) = read_iterator at rest (iterator rest)

-- `dir_names_to_handle`: `interleaved names separator` is what `interleave_shortest` of itertools
-- yields for the names and an endless cycle of separators.
unfoldable pub dir_names_to_handle : (List Str → Str → List Str) → List Str → FileHandle
dir_names_to_handle interleaved names = iterator (flatten (interleaved names (10 ∷ [])))
