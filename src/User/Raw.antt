-- ===== src/User/Raw.antt =====
-- syscall/syscall_macros/src/lib.rs: what `create_syscall` expands to, and the calls that
-- syscall/src/raw.rs creates with it. The instruction `syscall` and the stubs that save and load the
-- registers are a parameter `gate`, which `syscall_gate` stands for.
pub mod Laws
pub mod Declared
use idkernel.Base.{
  ℕ, zero, suc, ◌+◌, ◌-◌, Bool, true, false, not, ◌&&◌, leb, ◌==◌, Option, none, some, List, [],
  ◌∷◌, if◌then◌else◌, length, Outcome, ok, err, panic, hang, Prog,
}
use idkernel.Abi.{SyscallCode, SyscallError, code_number, error_from, unknown_error}
use idkernel.Context.Lock.{SpinRwLock}
use idkernel.Dispatch.{AllSavedRegisters, Environment, on_symcall_1}
use idkernel.Machine.{Machine}
use idkernel.Memory.{Paging}

-- The registers that carry arguments and results.
pub data Registry : Type 0 where
  rdi rsi rdx r10 r8 r9 : Registry

abbrev pub registries : List Registry
registries = rdi ∷ rsi ∷ rdx ∷ r10 ∷ r8 ∷ r9 ∷ []

abbrev pub read_register : Registry → AllSavedRegisters → ℕ
read_register rdi r = r.rdi
read_register rsi r = r.rsi
read_register rdx r = r.rdx
read_register r10 r = r.r10
read_register r8 r = r.r8
read_register r9 r = r.r9

abbrev pub write_register : Registry → ℕ → AllSavedRegisters → AllSavedRegisters
write_register rdi x r = record r { rdi = x }
write_register rsi x r = record r { rsi = x }
write_register rdx x r = record r { rdx = x }
write_register r10 x r = record r { r10 = x }
write_register r8 x r = record r { r8 = x }
write_register r9 x r = record r { r9 = x }

pub record SyscallDescriptor : Type 0 where
  pub selector : SyscallCode
  pub arg_count : ℕ
  pub ret_count : ℕ

-- The two tests without which the macro is a compile error; there are six names for each.
unfoldable pub is_expanded : SyscallDescriptor → Bool
is_expanded d = leb d.arg_count (6 - 1) && leb d.ret_count (6 - 1)

-- `(#(#rets),*)`: a tuple of so many `u64`.
abbrev pub Results : ℕ → Type 0
Results zero = Unit
Results (suc zero) = ℕ
Results (suc (suc n)) = ℕ × Results (suc n)

-- The results from the registers in order, 0 where there are none left (the tests exclude it).
abbrev pub results : (n : ℕ) → List Registry → AllSavedRegisters → Results n
results zero regs r = tt
results (suc zero) [] r = 0
results (suc zero) (x ∷ regs) r = read_register x r
results (suc (suc n)) [] r = (0, results (suc n) [] r)
results (suc (suc n)) (x ∷ regs) r = (read_register x r, results (suc n) regs r)

-- The arguments into the registers in order.
abbrev pub put_arguments : List Registry → List ℕ → AllSavedRegisters → AllSavedRegisters
put_arguments regs [] r = r
put_arguments [] (a ∷ args) r = r
put_arguments (x ∷ regs) (a ∷ args) r = put_arguments regs args (write_register x a r)

-- The registers at the instruction, from those of the program before.
unfoldable pub at_syscall : SyscallDescriptor → List ℕ → AllSavedRegisters → AllSavedRegisters
at_syscall d args r = record (put_arguments registries args r) { rax = code_number d.selector }

-- What the instruction does before the kernel sees the registers: `rcx` is the address that follows
-- it, and `r11` the flags.
abbrev pub overwritten : ℕ → AllSavedRegisters → AllSavedRegisters
overwritten next r = record r { rcx = next; r11 = r.rflags }

-- The instruction at the address before `next`, with the dispatch behind it.
abbrev pub syscall_gate :
    Environment
    → (paging : Paging) → SpinRwLock
    → ℕ
    → AllSavedRegisters
    → Prog (Machine paging) ⊥ AllSavedRegisters
syscall_gate env paging sp next r = on_symcall_1 env paging sp (overwritten next r)

-- `SyscallError::try_from(err).unwrap_or(SyscallError::UnknownError)`.
unfoldable pub error_of : ℕ → SyscallError
error_of n = elim (error_from n) [ none ↦ unknown_error | some e ↦ e ]

-- The end of the function, after the instruction.
unfoldable pub decoded :
    {S : Type 0} (n : ℕ) → AllSavedRegisters → S → Outcome S SyscallError (Results n)
decoded n r s = if not (r.rax == 0) then err (error_of r.rax) s else ok (results n registries r) s

-- The function that the macro defines.
unfoldable pub raw :
    {S : Type 0}
    → (AllSavedRegisters → Prog S ⊥ AllSavedRegisters)
    → (d : SyscallDescriptor) → List ℕ
    → AllSavedRegisters
    → Prog S SyscallError (Results d.ret_count)
raw gate d args before s = elim (gate (at_syscall d args before) s) [
  | ok r s' ↦ decoded d.ret_count r s'
  | err e s' ↦ absurd e
  | panic ↦ panic
  | hang ↦ hang
]

-- `create_syscall!(…)`.
abbrev pub create : SyscallCode → ℕ → ℕ → SyscallDescriptor
create selector args rets = record { selector = selector; arg_count = args; ret_count = rets }

abbrev pub raw_exit : SyscallDescriptor
raw_exit = create SyscallCode.exit 0 0

abbrev pub raw_yield : SyscallDescriptor
raw_yield = create SyscallCode.yield 0 0

abbrev pub raw_fs_open : SyscallDescriptor
raw_fs_open = create SyscallCode.fs_open 3 1

abbrev pub raw_fs_handle_seek : SyscallDescriptor
raw_fs_handle_seek = create SyscallCode.fs_handle_seek 2 0

abbrev pub raw_fs_handle_read : SyscallDescriptor
raw_fs_handle_read = create SyscallCode.fs_handle_read 3 1

abbrev pub raw_fs_handle_close : SyscallDescriptor
raw_fs_handle_close = create SyscallCode.fs_handle_close 1 0

abbrev pub raw_capability_clone : SyscallDescriptor
raw_capability_clone = create SyscallCode.capability_clone 1 1

abbrev pub raw_capability_inspect : SyscallDescriptor
raw_capability_inspect = create SyscallCode.capability_inspect 2 2

abbrev pub raw_capability_restrict : SyscallDescriptor
raw_capability_restrict = create SyscallCode.capability_restrict 3 0

abbrev pub raw_capability_drop : SyscallDescriptor
raw_capability_drop = create SyscallCode.capability_drop 1 0

abbrev pub raw_process_my_pid : SyscallDescriptor
raw_process_my_pid = create SyscallCode.process_my_pid 0 1

abbrev pub raw_process_spawn : SyscallDescriptor
raw_process_spawn = create SyscallCode.process_spawn 0 1

abbrev pub raw_process_cap_share : SyscallDescriptor
raw_process_cap_share = create SyscallCode.process_cap_share 2 0

abbrev pub raw_process_cap_transfer : SyscallDescriptor
raw_process_cap_transfer = create SyscallCode.process_cap_transfer 2 0

abbrev pub raw_process_exec : SyscallDescriptor
raw_process_exec = create SyscallCode.process_exec 2 0

abbrev pub raw_memory_map_virt : SyscallDescriptor
raw_memory_map_virt = create SyscallCode.memory_map_virt 3 0

abbrev pub raw_memory_map_phys : SyscallDescriptor
raw_memory_map_phys = create SyscallCode.memory_map_phys 4 0

-- All of them.
abbrev pub raw_calls : List SyscallDescriptor
raw_calls =
    raw_exit ∷ raw_yield ∷ raw_fs_open ∷ raw_fs_handle_seek ∷ raw_fs_handle_read
    ∷ raw_fs_handle_close ∷ raw_capability_clone ∷ raw_capability_inspect ∷ raw_capability_restrict
    ∷ raw_capability_drop ∷ raw_process_my_pid ∷ raw_process_spawn ∷ raw_process_cap_share
    ∷ raw_process_cap_transfer ∷ raw_process_exec ∷ raw_memory_map_virt ∷ raw_memory_map_phys ∷ []
