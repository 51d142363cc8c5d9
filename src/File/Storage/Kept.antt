-- ===== src/File/Storage/Kept.antt =====
-- The order of the descriptors under the operations on the file table of idker/src/file/syscall.rs.
use idkernel.Base.{
  ℕ, ◌+◌, ◌^◌, ◌≡◌, false, Option, none, some, ltb, Bool-cases, inl, inr, assoc, Outcome, ok, err,
  panic, hang, Prog, Ends, Keeps, Ends-Keeps, equal-Ends, arith,
}
use idkernel.Abi.{SyscallError, wrong_descriptor}
use idkernel.File.Handles.{FileHandle}
use idkernel.File.Handles
use idkernel.File.Storage.{Storage, push, allocate_descriptor, on_handle, seek, read, close}
use idkernel.File.Storage.Laws.{
  IsValid, push_lem, pushed-IsValid, close_lem, closed, updated, updated-IsValid, closed-IsValid,
}

push_full :
    {E : Type 0} (h : FileHandle) (s : Storage)
    → ltb (s.next_descriptor + 1) (2 ^ 64) ≡ false
    → push {E = E} h s ≡ panic
unfolding push allocate_descriptor
push_full h s e = ground (arith, e)

pub push-Keeps : {E : Type 0} (h : FileHandle) → Keeps {E = E} IsValid (push h)
push-Keeps h = Ends-Keeps (push h) λ s v. elim (Bool-cases (ltb (s.next_descriptor + 1) (2 ^ 64))) [
  | inl room ↦
      equal-Ends IsValid (push h) _ (push_lem h s (ground (arith, room))) (pushed-IsValid h s v)
  | inr full ↦ equal-Ends IsValid (push h) panic (push_full h s full) tt
]

method_outcome :
    {A : Type 0} (fd : ℕ) (s : Storage)
    → IsValid s
    → (r : Outcome FileHandle SyscallError A)
    → Ends
        (λ _ t. IsValid t)
        IsValid
        (elim r [
          | ok a h ↦ ok a (updated fd h s)
          | err e h ↦ err e (updated fd h s)
          | panic ↦ panic
          | hang ↦ hang
        ])
method_outcome fd s v (ok a h) = updated-IsValid fd h s v
method_outcome fd s v (err e h) = updated-IsValid fd h s v
method_outcome fd s v panic = tt
method_outcome fd s v hang = tt

pub on_handle-Keeps :
    {A : Type 0} (fd : ℕ) (method : Prog FileHandle SyscallError A)
    → Keeps IsValid (on_handle fd method)
unfolding on_handle
on_handle-Keeps {A} fd method = Ends-Keeps (on_handle fd method) λ s v. go s v (assoc fd s.handles)
  where
    go :
        (s : Storage)
        → IsValid s
        → (o : Option FileHandle)
        → Ends
            (λ _ t. IsValid t)
            IsValid
            (elim o [
              | none ↦ err wrong_descriptor s
              | some handle ↦ elim (method handle) [
                | ok a h ↦ ok a (updated fd h s)
                | err e h ↦ err e (updated fd h s)
                | panic ↦ panic
                | hang ↦ hang
              ]
            ])
    go s v none = v
    go s v (some handle) = method_outcome fd s v (method handle)

pub seek-Keeps : (fd index : ℕ) → Keeps IsValid (seek fd index)
unfolding seek
seek-Keeps fd index = on_handle-Keeps fd _

pub read-Keeps : (fd length : ℕ) → Keeps IsValid (read fd length)
unfolding read
read-Keeps fd length = on_handle-Keeps fd (Handles.read length)

close_outcome :
    (fd : ℕ) (s : Storage)
    → IsValid s
    → (o : Option FileHandle)
    → Ends
        (λ _ t. IsValid t)
        IsValid
        (elim o [ none ↦ err wrong_descriptor s | some _ ↦ ok tt (closed fd s) ])
close_outcome fd s v none = v
close_outcome fd s v (some h) = closed-IsValid fd s v

pub close-Keeps : (fd : ℕ) → Keeps IsValid (close fd)
close-Keeps fd = Ends-Keeps (close fd) λ s v.
    equal-Ends IsValid (close fd) _ (close_lem fd s) (close_outcome fd s v (assoc fd s.handles))
