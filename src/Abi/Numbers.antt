-- ===== src/Abi/Numbers.antt =====
-- syscall/src/common.rs: `SyscallCode` and `SyscallError` with their discriminants, and the
-- conversions that `TryFromPrimitive` derives from these.
use idkernel.Base.{ℕ, ◌^◌, ◌-◌, Option, ◌==◌, List, [], ◌∷◌, find}

pub data SyscallCode : Type 0 where
  exit yield : SyscallCode
  capability_clone capability_inspect capability_restrict capability_drop : SyscallCode
  fs_open fs_handle_seek fs_handle_read fs_handle_write fs_handle_close : SyscallCode
  conversation_create_p2p conversation_create_public conversation_talk : SyscallCode
  conversation_cap_share conversation_cap_transfer : SyscallCode
  process_my_pid process_spawn process_cap_share process_cap_transfer process_exec : SyscallCode
  memory_map_virt memory_map_phys memory_edit_perms memory_unmap : SyscallCode

-- `code as u64`: a variant without a number of its own follows the one before it.
unfoldable pub code_number : SyscallCode → ℕ
code_number exit = 0
code_number yield = 1
code_number capability_clone = 0x100
code_number capability_inspect = 0x101
code_number capability_restrict = 0x102
code_number capability_drop = 0x103
code_number fs_open = 0x200
code_number fs_handle_seek = 0x201
code_number fs_handle_read = 0x202
code_number fs_handle_write = 0x203
code_number fs_handle_close = 0x204
code_number conversation_create_p2p = 0x300
code_number conversation_create_public = 0x301
code_number conversation_talk = 0x302
code_number conversation_cap_share = 0x303
code_number conversation_cap_transfer = 0x304
code_number process_my_pid = 0x400
code_number process_spawn = 0x401
code_number process_cap_share = 0x402
code_number process_cap_transfer = 0x403
code_number process_exec = 0x404
code_number memory_map_virt = 0x500
code_number memory_map_phys = 0x501
code_number memory_edit_perms = 0x502
code_number memory_unmap = 0x503

pub data SyscallError : Type 0 where
  unknown_syscall not_implemented wrong_parameters no_memory string_not_utf8 : SyscallError
  invalid_path wrong_descriptor fs_not_seekable fs_seek_out_of_range : SyscallError
  fs_not_executable wrong_capability wrong_capability_perms wrong_process : SyscallError
  memory_already_mapped unknown_error : SyscallError

-- `error as usize`.
unfoldable pub error_number : SyscallError → ℕ
error_number unknown_syscall = 1
error_number not_implemented = 2
error_number wrong_parameters = 3
error_number no_memory = 4
error_number string_not_utf8 = 5
error_number invalid_path = 6
error_number wrong_descriptor = 7
error_number fs_not_seekable = 8
error_number fs_seek_out_of_range = 9
error_number fs_not_executable = 10
error_number wrong_capability = 11
error_number wrong_capability_perms = 12
error_number wrong_process = 13
error_number memory_already_mapped = 14
error_number unknown_error = 2 ^ 64 - 1

abbrev pub all_codes : List SyscallCode
all_codes =
    exit ∷ yield ∷ capability_clone ∷ capability_inspect ∷ capability_restrict ∷ capability_drop
    ∷ fs_open ∷ fs_handle_seek ∷ fs_handle_read ∷ fs_handle_write ∷ fs_handle_close
    ∷ conversation_create_p2p ∷ conversation_create_public ∷ conversation_talk
    ∷ conversation_cap_share ∷ conversation_cap_transfer ∷ process_my_pid ∷ process_spawn
    ∷ process_cap_share ∷ process_cap_transfer ∷ process_exec ∷ memory_map_virt ∷ memory_map_phys
    ∷ memory_edit_perms ∷ memory_unmap ∷ []

abbrev pub all_errors : List SyscallError
all_errors =
    unknown_syscall ∷ not_implemented ∷ wrong_parameters ∷ no_memory ∷ string_not_utf8
    ∷ invalid_path ∷ wrong_descriptor ∷ fs_not_seekable ∷ fs_seek_out_of_range ∷ fs_not_executable
    ∷ wrong_capability ∷ wrong_capability_perms ∷ wrong_process ∷ memory_already_mapped
    ∷ unknown_error ∷ []

-- `SyscallCode::try_from(n)`: the variant with that discriminant.
unfoldable pub code_from : ℕ → Option SyscallCode
code_from n = find (λ c. code_number c == n) all_codes

-- `SyscallError::try_from(n)`.
unfoldable pub error_from : ℕ → Option SyscallError
error_from n = find (λ e. error_number e == n) all_errors
