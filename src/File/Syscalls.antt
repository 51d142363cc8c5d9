-- ===== src/File/Syscalls.antt =====
-- idker/src/file/syscall.rs: the system calls on files. The bytes at a user address, the UTF-8
-- test and itertools' `interleave_shortest` are arguments; a buffer in user memory is given by its
-- length, and what is read into it is returned.
pub mod Laws
pub mod Kept
pub mod Calls
use idkernel.Base.{
  ℕ, ◌+◌, ◌^◌, ◌/◌, ◌%◌, Bool, true, false, Option, none, some, List, [], ◌∷◌, if◌then◌else◌, ◌==◌,
  Str, length, Outcome, ok, err, panic, hang, Prog, ◌>>=◌, ◌>>◌, pure, get, guard, assert, zoom,
}
use idkernel.Abi.{SyscallError, string_not_utf8}
use idkernel.Context.Kernel.{Kernel, current_task, with_write, on_context}
use idkernel.Context.Lock.{SpinRwLock}
use idkernel.Context.Task.{TaskContext}
use idkernel.File.Handles.{FileHandle}
use idkernel.File.InitFs
use idkernel.File.InitFs.{InitFsFolderHandle}
use idkernel.File.Load.{from_path_open_error}
use idkernel.File.ProcFs
use idkernel.File.ProcFs.{Handle, root}
use idkernel.File.Storage
use idkernel.File.Storage.{Storage}
use idkernel.File.System.{open_path_full, PathResult, opened, not_opened}
use idkernel.Userspace.{check_addr_userspace, checked_sum}

-- What the calls need from outside.
pub record Outside : Type 0 where
  pub user_bytes : ℕ → ℕ → Str
  pub is_utf8 : Str → Bool
  pub interleaved : List Str → Str → List Str

abbrev pub on_files : {E A : Type 0} → Prog Storage E A → Prog TaskContext E A
on_files = zoom (λ c. c.files) (λ s c. record c { files = s })

module _ (o : Outside) where
  -- The path resolved from the task's root, with as many rounds as are enough.
  unfoldable pub resolve : Storage → Str → Option (PathResult (Handle InitFsFolderHandle))
  resolve s path =
      open_path_full (length path + 1) (ProcFs.open_dir InitFs.open_dir) (root s.root) path

  unfoldable pub read_handle : Handle InitFsFolderHandle → FileHandle
  read_handle = ProcFs.read o.interleaved (InitFs.read o.interleaved)

  -- The part of `open` under the lock of the caller.
  unfoldable pub open_in : Str → Prog Storage SyscallError ℕ
  open_in path s = elim (resolve s path) [
    | none ↦ hang
    | some (not_opened e) ↦ err (from_path_open_error e) s
    | some (opened h) ↦ Storage.push (read_handle h) s
  ]

  module _ (sp : SpinRwLock) where
    unfoldable pub open_file : ℕ → ℕ → ℕ → Prog Kernel SyscallError ℕ
    open_file path_ptr path_len mode = do
      check_addr_userspace path_ptr
      checked_sum path_ptr path_len
      check_addr_userspace (path_ptr + path_len)
      let path = o.user_bytes path_ptr path_len
      guard (o.is_utf8 path) string_not_utf8
      assert (mode % 2 ^ 8 / 2 % 2 == 0)
      me ← current_task
      with_write sp me (on_context me (on_files (open_in path)))

module _ (sp : SpinRwLock) where
  unfoldable pub seek : ℕ → ℕ → Prog Kernel SyscallError (Unit {0})
  seek fd index = do
    me ← current_task
    with_write sp me (on_context me (on_files (Storage.seek fd index)))

  unfoldable pub read : ℕ → ℕ → ℕ → Prog Kernel SyscallError Str
  read fd at len = do
    check_addr_userspace at
    checked_sum at len
    check_addr_userspace (at + len)
    me ← current_task
    with_write sp me (on_context me (on_files (Storage.read fd len)))

  unfoldable pub close : ℕ → Prog Kernel SyscallError (Unit {0})
  close fd = do me ← current_task; with_write sp me (on_context me (on_files (Storage.close fd)))
