-- ===== src/Capability/Syscalls/Kept.antt =====
-- The order of the handles under the bodies of the system calls of idker/src/capability/syscall.rs.
use idkernel.Base.{
  ℕ, Bool, true, false, Option, none, some, if◌then◌else◌, ◌==◌, get_elem?, Outcome, ok, err, panic,
  hang, Ends, Keeps, Ends-Keeps, bind-Keeps, pure-Keeps, get-Keeps, guard-Keeps, ok_or-Keeps,
}
use idkernel.Abi.{SyscallError, wrong_capability, wrong_capability_perms, wrong_parameters}
use idkernel.Capability.Data.{Capability, CapabilityType, cap_id, bits}
use idkernel.Capability.Storage.{Storage, lookup, write_back}
use idkernel.Capability.Storage.Laws.{IsValid}
use idkernel.Capability.Storage.Kept.{insert-Keeps, delete-Keeps, write_back-IsValid}
use idkernel.Capability.Syscalls.{
  clone_in, inspect_in, restrict_in, restrict_type, cdrop_in, share_out,
}

pub clone_in-Keeps : (reserved : Bool) (h : ℕ) → Keeps IsValid (clone_in reserved h)
unfolding clone_in
clone_in-Keeps reserved h = bind-Keeps get-Keeps λ caps.
    bind-Keeps (ok_or-Keeps (lookup h caps) wrong_capability) λ cap.
      bind-Keeps (guard-Keeps cap.perms.duplicate wrong_capability_perms)
        λ _. insert-Keeps reserved cap

pub cdrop_in-Keeps : (h : ℕ) → Keeps IsValid (cdrop_in h)
unfolding cdrop_in
cdrop_in-Keeps h = bind-Keeps (delete-Keeps h) λ _. pure-Keeps tt

pub share_out-Keeps : (h : ℕ) → Keeps IsValid (share_out h)
unfolding share_out
share_out-Keeps h = bind-Keeps get-Keeps λ caps.
    bind-Keeps (ok_or-Keeps (lookup h caps) wrong_capability)
      λ cap. bind-Keeps (guard-Keeps cap.perms.shareable wrong_capability_perms) λ _. pure-Keeps cap

module _ (caps : Storage) (v : IsValid caps) where
  abbrev Same : {A : Type 0} → Outcome Storage SyscallError A → Type 0
  Same r = Ends (λ _ t. IsValid t) IsValid r

  entry_outcome :
      (o : Option (ℕ × Capability))
      → Same {A = ℕ × ℕ}
          (elim o [ some x ↦ ok (x.0, cap_id x.1.ctype) caps | none ↦ err wrong_parameters caps ])
  entry_outcome none = v
  entry_outcome (some x) = v

  lookup_outcome :
      (o : Option Capability)
      → Same {A = ℕ × ℕ} (elim o [
        | some x ↦ ok (bits x.perms, cap_id x.ctype) caps
        | none ↦ err wrong_capability caps
      ])
  lookup_outcome none = v
  lookup_outcome (some x) = v

  if_outcome :
      {A : Type 0} (b : Bool) (r q : Outcome Storage SyscallError A)
      → Same r
      → Same q
      → Same (if b then r else q)
  if_outcome true r q h g = h
  if_outcome false r q h g = g

  restrict_outcome :
      (h : ℕ) (cap : Capability) (r : Outcome CapabilityType SyscallError (Unit {0}))
      → Same (elim r [
        | ok u t ↦ ok u (write_back h (record cap { ctype = t }) caps)
        | err e t ↦ err e (write_back h (record cap { ctype = t }) caps)
        | panic ↦ panic
        | hang ↦ hang
      ])
  restrict_outcome h cap (ok u t) = write_back-IsValid h (record cap { ctype = t }) caps v
  restrict_outcome h cap (err e t) = write_back-IsValid h (record cap { ctype = t }) caps v
  restrict_outcome h cap panic = tt
  restrict_outcome h cap hang = tt

pub inspect_in-Keeps : (what index : ℕ) → Keeps IsValid (inspect_in what index)
unfolding inspect_in
inspect_in-Keeps what index = Ends-Keeps (inspect_in what index) λ caps v.
    if_outcome caps v (what == 0) _ _ v (
      if_outcome caps v (what == 1) _ _ (entry_outcome caps v (get_elem? caps.handles index))
        (if_outcome caps v (what == 2) _ _ (lookup_outcome caps v (lookup index caps)) v))

pub restrict_in-Keeps :
    (try_new : ℕ → Option ℕ) (h a b : ℕ) → Keeps IsValid (restrict_in try_new h a b)
unfolding restrict_in
restrict_in-Keeps try_new h a b =
    Ends-Keeps (restrict_in try_new h a b) λ caps v. go caps v (lookup h caps)
  where
    go :
        (caps : Storage)
        → IsValid caps
        → (o : Option Capability)
        → Ends
            (λ _ t. IsValid t)
            IsValid
            (elim o [
              | none ↦ err wrong_capability caps
              | some cap ↦ elim (restrict_type try_new a b cap.ctype) [
                | ok u t ↦ ok u (write_back h (record cap { ctype = t }) caps)
                | err e t ↦ err e (write_back h (record cap { ctype = t }) caps)
                | panic ↦ panic
                | hang ↦ hang
              ]
            ])
    go caps v none = v
    go caps v (some cap) = restrict_outcome caps v h cap (restrict_type try_new a b cap.ctype)
