-- ===== src/File/Load.antt =====
-- idker/src/file/mod.rs: `read_file_to_memory`, and the conversions of the errors of the file
-- layer in idker/src/syscalls/mod.rs.
pub mod Laws
use idkernel.Base.{
  ℕ, zero, suc, ◌+◌, ◌-◌, ◌*◌, Bool, List, [], ◌∷◌, ◌++◌, if◌then◌else◌, ◌==◌, leb, Str, length,
  take, drop, replicate, Outcome, hang, Prog, ◌>>=◌, ◌>>◌, pure, guard, fail_if, assert, min,
}
use idkernel.Abi.{SyscallError, no_memory, invalid_path, fs_not_seekable, fs_seek_out_of_range}
use idkernel.File.System.{FileHandleError, not_seekable, seek_out_of_range, PathOpenError}
use idkernel.File.Handles.{FileHandle, read}

-- `From<PathOpenError>` and `From<FileHandleError>`.
unfoldable pub from_path_open_error : PathOpenError → SyscallError
from_path_open_error e = invalid_path

unfoldable pub from_file_handle_error : FileHandleError → SyscallError
from_file_handle_error not_seekable = fs_not_seekable
from_file_handle_error seek_out_of_range = fs_seek_out_of_range

abbrev pub page : ℕ
page = 4096

-- `Vec::resize(n, 0)`.
unfoldable pub resize : ℕ → Str → Str
resize n xs = take n xs ++ replicate (n - length xs) 0

-- The loop, with a bound on its rounds past which it has not returned. `reserves n` is whether
-- the allocator grants `try_reserve` to a buffer of `n` bytes. A read fills the front of the slice
-- behind `old_len`.
unfoldable pub load : ℕ → (ℕ → Bool) → ℕ → Str → Prog FileHandle SyscallError Str
load zero reserves limit buffer handle = hang
load (suc rounds) reserves limit buffer handle =
    let next = load rounds reserves limit in
    (do
      assert (leb (length buffer) limit)
      let read_n = min page (limit - length buffer)
      fail_if (read_n == 0) no_memory
      guard (reserves (length buffer)) no_memory
      let old_len = length buffer
      let resized = resize old_len buffer
      bytes ← read (length (drop old_len resized))
      let filled = take old_len resized ++ (bytes ++ drop (old_len + length bytes) resized)
      let kept = if length bytes == read_n then filled else take (old_len + length bytes) filled
      if length bytes == 0 then pure kept else next kept)
      handle

unfoldable pub read_file_to_memory : ℕ → (ℕ → Bool) → ℕ → Prog FileHandle SyscallError Str
read_file_to_memory rounds reserves limit = load rounds reserves limit []
