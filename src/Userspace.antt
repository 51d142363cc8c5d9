-- ===== src/Userspace.antt =====
-- idker/src/syscalls/userspace.rs: `check_addr_userspace`, and the checked sum of an address and a
-- length.
use idkernel.Base.{
  ℕ, ◌+◌, ◌^◌, ◌/◌, ◌%◌, ◌<◌, ◌≡◌, ◌==◌, if◌then◌else◌, ltb, ok, err, Prog, guard, assert, arith,
}
use idkernel.Abi.{SyscallError, wrong_parameters}

-- `addr & 1 << 63` must be 0.
unfoldable pub check_addr_userspace : {S : Type 0} → ℕ → Prog S SyscallError (Unit {0})
check_addr_userspace addr = guard (addr / 2 ^ 63 % 2 == 0) wrong_parameters

-- The sum of two `usize`, where it overflows a panic.
abbrev pub checked_sum : {S E : Type 0} → ℕ → ℕ → Prog S E (Unit {0})
checked_sum a b = assert (ltb (a + b) (2 ^ 64))

-- Of the 64-bit addresses exactly those below 2 ^ 63 pass, and the others fail with
-- `wrong_parameters`.
pub check_addr_userspace_lem :
    {S : Type 0} (addr : ℕ) (s : S)
    → addr < 2 ^ 64
    → check_addr_userspace addr s ≡ (if ltb addr (2 ^ 63) then ok tt s else err wrong_parameters s)
unfolding check_addr_userspace
check_addr_userspace_lem addr s h = ground arith
