-- ===== src/File/Load/Laws.antt =====
-- What `read_file_to_memory` of idker/src/file/mod.rs brings into memory.
use idkernel.Base.{
  ℕ, suc, ◌<◌, ◌≡◌, Bool, [], ◌∷◌, if◌then◌else◌, ◌==◌, Str, Outcome, ok, err, panic, arith,
}
use idkernel.Abi.{SyscallError, no_memory}
use idkernel.File.Handles.{FileHandle, init_file, iterator, read, read_iterator}
use idkernel.File.Handles.Laws.{read-init_file, InRange}
use idkernel.File.Load.{load, read_file_to_memory, resize}

-- What the first round comes to on each handle, once memory is granted.
abbrev pub first_round : FileHandle → Outcome FileHandle SyscallError Str
first_round (init_file file index) = if index == 0 then ok [] (init_file file 0) else panic
first_round (iterator []) = ok [] (iterator [])
first_round (iterator (x ∷ rest)) = panic

-- For a limit above 0, at least one round and a handle whose index lies in its file,
-- `read_file_to_memory` ends in its first round: without memory it fails with `no_memory`, and with
-- memory it returns an empty buffer for a file at its start or a handle whose names are all read,
-- and panics on any other handle.
pub read_file_to_memory_lem :
    (rounds limit : ℕ) (reserves : ℕ → Bool) (handle : FileHandle)
    → InRange handle
    → 0 < limit
    → read_file_to_memory (suc rounds) reserves limit handle
      ≡ (if reserves 0 then first_round handle else err no_memory handle)
unfolding read_file_to_memory load resize
read_file_to_memory_lem rounds limit reserves (init_file file index) r h =
    ground (arith, read-init_file {E = SyscallError} 0 index file r)
read_file_to_memory_lem rounds limit reserves (iterator []) r h =
    unfold read read_iterator in ground arith
read_file_to_memory_lem rounds limit reserves (iterator (x ∷ rest)) r h =
    unfold read read_iterator in ground arith
