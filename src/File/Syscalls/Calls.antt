-- ===== src/File/Syscalls/Calls.antt =====
-- The invariant of the kernel's state under the system calls of idker/src/file/syscall.rs.
use idkernel.Base.{ℕ, ◌+◌, ◌^◌, ◌/◌, ◌%◌, ◌==◌, ltb, Keeps, bind-Keeps, guard-Keeps, assert-Keeps}
use idkernel.Abi.{string_not_utf8, wrong_parameters}
use idkernel.Context.Lock.{SpinRwLock}
use idkernel.Context.Kernel.Kept.{current_task-Keeps}
use idkernel.Context.Kernel.Sound.{Sound}
use idkernel.Context.Kernel.Tables.{held_files-Keeps}
use idkernel.File.Storage.Kept.{
  seek-Keeps as seek_in-Keeps, read-Keeps as read_in-Keeps, close-Keeps as close_in-Keeps,
}
use idkernel.File.Syscalls.{Outside, open_file, seek, read, close}
use idkernel.File.Syscalls.Kept.{open_in-Keeps}
use idkernel.Userspace.{check_addr_userspace}

-- The tests of user addresses touch nothing.
pub check_addr_userspace-Keeps :
    {S : Type 0} {I : S → Type 0} (addr : ℕ) → Keeps I (check_addr_userspace addr)
unfolding check_addr_userspace
check_addr_userspace-Keeps addr = guard-Keeps (addr / 2 ^ 63 % 2 == 0) wrong_parameters

module _ (sp : SpinRwLock) {held : ℕ → Type 0} where
  pub open_file-Keeps :
      (o : Outside) (path_ptr path_len mode : ℕ)
      → Keeps (Sound held) (open_file o sp path_ptr path_len mode)
  unfolding open_file
  open_file-Keeps o path_ptr path_len mode = bind-Keeps (check_addr_userspace-Keeps path_ptr) λ _.
      bind-Keeps (assert-Keeps (ltb (path_ptr + path_len) (2 ^ 64))) λ _.
        bind-Keeps (check_addr_userspace-Keeps (path_ptr + path_len)) λ _.
          bind-Keeps (guard-Keeps (o.is_utf8 (o.user_bytes path_ptr path_len)) string_not_utf8) λ _.
            bind-Keeps (assert-Keeps (mode % 2 ^ 8 / 2 % 2 == 0)) λ _.
              bind-Keeps current_task-Keeps
                λ me. held_files-Keeps sp me (open_in-Keeps o (o.user_bytes path_ptr path_len))

  pub seek-Keeps : (fd index : ℕ) → Keeps (Sound held) (seek sp fd index)
  unfolding seek
  seek-Keeps fd index =
      bind-Keeps current_task-Keeps λ me. held_files-Keeps sp me (seek_in-Keeps fd index)

  pub read-Keeps : (fd at len : ℕ) → Keeps (Sound held) (read sp fd at len)
  unfolding read
  read-Keeps fd at len = bind-Keeps (check_addr_userspace-Keeps at) λ _.
      bind-Keeps (assert-Keeps (ltb (at + len) (2 ^ 64))) λ _.
        bind-Keeps (check_addr_userspace-Keeps (at + len))
          λ _. bind-Keeps current_task-Keeps λ me. held_files-Keeps sp me (read_in-Keeps fd len)

  pub close-Keeps : (fd : ℕ) → Keeps (Sound held) (close sp fd)
  unfolding close
  close-Keeps fd = bind-Keeps current_task-Keeps λ me. held_files-Keeps sp me (close_in-Keeps fd)
