-- ===== src/Abi/RoundTrip.antt =====
-- What the numbers of syscall/src/common.rs decode to.
use idkernel.Base.{
  ℕ, ◌≡◌, ◌≢◌, ◌↔◌, refl, subst, some, arith, ◌==◌, List, [], ◌∷◌, find, Bool, true, ==_iff,
}
use idkernel.Abi.Numbers.{
  SyscallCode, SyscallError, code_number, error_number, code_from, error_from, all_codes,
  all_errors,
}

find_sound {ℓ} : {A : Type ℓ} (p : A → Bool) (xs : List A) (a : A) → find p xs ≡ some a → p a ≡ true
find_sound p [] a h = ground arith
find_sound p (x ∷ xs) a h = ground (arith, find_sound p xs a)

code_from-code_number : (c : SyscallCode) → code_from (code_number c) ≡ some c
unfolding code_from code_number
code_from-code_number SyscallCode.exit = refl
code_from-code_number _ = refl

code_number-code_from : (n : ℕ) (c : SyscallCode) → code_from n ≡ some c → code_number c ≡ n
unfolding code_from
code_number-code_from n c h = (==_iff _ _).0 (find_sound (λ d. code_number d == n) all_codes c h)

error_from-error_number : (e : SyscallError) → error_from (error_number e) ≡ some e
unfolding error_from error_number
error_from-error_number SyscallError.unknown_syscall = refl
error_from-error_number _ = refl

error_number-error_from : (n : ℕ) (e : SyscallError) → error_from n ≡ some e → error_number e ≡ n
unfolding error_from
error_number-error_from n e h =
    (==_iff _ _).0 (find_sound (λ d. error_number d == n) all_errors e h)

-- A number decodes to a system call exactly when it is that call's number.
pub code_from_iff : (n : ℕ) (c : SyscallCode) → (code_from n ≡ some c) ↔ (code_number c ≡ n)
code_from_iff n c =
    (code_number-code_from n c, λ e. subst (λ m. code_from m ≡ some c) e (code_from-code_number c))

-- A number decodes to an error exactly when it is that error's number.
pub error_from_iff : (n : ℕ) (e : SyscallError) → (error_from n ≡ some e) ↔ (error_number e ≡ n)
error_from_iff n e = (
  error_number-error_from n e,
  λ q. subst (λ m. error_from m ≡ some e) q (error_from-error_number e),
)

-- No error has the number that tells success.
pub error_number-not_zero : (e : SyscallError) → error_number e ≢ 0
unfolding error_number
error_number-not_zero SyscallError.unknown_syscall h = absurd (omega arith)
error_number-not_zero _ h = absurd (omega arith)

pub error_number-unknown_syscall : error_number SyscallError.unknown_syscall ≡ 1
unfolding error_number
error_number-unknown_syscall = refl
