-- ===== src/User/Calls.antt =====
-- syscall/src/syscall.rs: the functions that programs call, and `_start` of initproc/src/main.rs. A
-- slice is where it starts and how long it is; the registers of the program at a call are a
-- parameter, the same at each.
pub mod Laws
use idkernel.Base.{
  ℕ, ◌==◌, leb, not, Option, none, some, if◌then◌else◌, [], ◌∷◌, Outcome, ok, err, panic, hang,
  Prog, ◌>>=◌, ◌>>◌, pure, ok_or, assert, must,
}
use idkernel.Abi.{SyscallError, unknown_error}
use idkernel.Dispatch.{AllSavedRegisters}
use idkernel.User.Raw.{
  raw, raw_exit, raw_yield, raw_fs_open, raw_fs_handle_seek, raw_fs_handle_read,
  raw_fs_handle_close, raw_process_my_pid, raw_process_spawn, raw_process_cap_share,
  raw_process_cap_transfer, raw_process_exec,
}

-- `NonZeroU64::new`.
abbrev pub non_zero : ℕ → Option ℕ
non_zero n = if n == 0 then none else some n

module _ {S : Type 0} (gate : AllSavedRegisters → Prog S ⊥ AllSavedRegisters)
    (before : AllSavedRegisters) where
  -- `exit`, which loops for ever where the call returns.
  unfoldable pub exit : Prog S ⊥ ⊥
  exit = must (raw gate raw_exit [] before) >>= λ _ s. hang

  unfoldable pub yield_ : Prog S ⊥ (Unit {0})
  yield_ = must (raw gate raw_yield [] before)

  -- `File::new`, and the methods of a file by its descriptor.
  unfoldable pub file_new : ℕ → ℕ → ℕ → Prog S SyscallError ℕ
  file_new path path_len mode = do
    res ← raw gate raw_fs_open (path ∷ path_len ∷ mode ∷ []) before
    ok_or (non_zero res) unknown_error

  unfoldable pub file_seek : ℕ → ℕ → Prog S SyscallError (Unit {0})
  file_seek file at = raw gate raw_fs_handle_seek (file ∷ at ∷ []) before

  -- The length of the part of the buffer that was read into; slicing past its end panics.
  unfoldable pub file_read : ℕ → ℕ → ℕ → Prog S SyscallError ℕ
  file_read file buf buf_len = do
    len ← raw gate raw_fs_handle_read (file ∷ buf ∷ buf_len ∷ []) before
    assert (leb len buf_len)
    pure len

  unfoldable pub file_drop : ℕ → Prog S ⊥ (Unit {0})
  file_drop file = must (raw gate raw_fs_handle_close (file ∷ []) before)

  -- `Process::my_pid`, `Process::spawn`, and the methods of a process by its pid.
  unfoldable pub my_pid : Prog S SyscallError ℕ
  my_pid = raw gate raw_process_my_pid [] before

  unfoldable pub spawn : Prog S SyscallError ℕ
  spawn = do pid ← raw gate raw_process_spawn [] before; ok_or (non_zero pid) unknown_error

  unfoldable pub capability_share : ℕ → ℕ → Prog S SyscallError (Unit {0})
  capability_share process cap_id = raw gate raw_process_cap_share (process ∷ cap_id ∷ []) before

  unfoldable pub capability_transfer : ℕ → ℕ → Prog S SyscallError (Unit {0})
  capability_transfer process cap_id =
      raw gate raw_process_cap_transfer (process ∷ cap_id ∷ []) before

  -- `Process::exec`, on a path.
  unfoldable pub exec : ℕ → ℕ → Prog S SyscallError (Unit {0})
  exec path path_len = raw gate raw_process_exec (path ∷ path_len ∷ []) before

  -- `_start` of the first process.
  unfoldable pub start : Prog S ⊥ ⊥
  start = yield_ >>= λ _. exit
