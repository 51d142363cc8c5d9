-- ===== src/File/Storage.antt =====
-- idker/src/file/syscall.rs: `TaskFileStorage`, the root and the open files of a task. The
-- counter of descriptors is a `NonZeroUsize`.
pub mod Laws
pub mod Kept
use idkernel.Base.{
  ℕ, zero, suc, ◌+◌, ◌^◌, Bool, Option, none, some, List, [], ◌∷◌, ◌++◌, if◌then◌else◌, ◌==◌, ltb,
  position, remove_at, assoc, assoc_set, Outcome, ok, err, panic, hang, Prog, ◌>>=◌, ◌>>◌, pure,
  get, modify, ok_or, assert, map_err,
}
use idkernel.Abi.{SyscallError, wrong_descriptor}
use idkernel.File.Handles.{FileHandle}
use idkernel.File.Handles
use idkernel.File.InitFs.{InitFsFolderHandle}
use idkernel.File.Load.{from_file_handle_error}
use idkernel.File.ProcFs.{ProcRootFs}
use idkernel.File.ProcFs

pub record Storage : Type 0 where
  pub root : ProcRootFs InitFsFolderHandle
  pub handles : List (ℕ × FileHandle)
  pub next_descriptor : ℕ

unfoldable pub new : ℕ → Storage
new task = record { root = ProcFs.new task; handles = []; next_descriptor = 1 }

unfoldable pub allocate_descriptor : {E : Type 0} → Prog Storage E ℕ
allocate_descriptor = do
  s ← get
  let x = s.next_descriptor
  assert (ltb (x + 1) (2 ^ 64))
  modify (λ t. record t { next_descriptor = x + 1 })
  pure x

-- The end of `open`: a descriptor for the handle.
unfoldable pub push : {E : Type 0} → FileHandle → Prog Storage E ℕ
push handle = do
  descriptor ← allocate_descriptor
  modify (λ t. record t { handles = t.handles ++ (descriptor, handle) ∷ [] })
  pure descriptor

-- A method of the handle behind a descriptor, as `iter_mut().find(…)` reaches it.
unfoldable pub on_handle :
    {A : Type 0} → ℕ → Prog FileHandle SyscallError A → Prog Storage SyscallError A
on_handle fd method s = elim (assoc fd s.handles) [
  | none ↦ err wrong_descriptor s
  | some handle ↦ elim (method handle) [
    | ok a h ↦ ok a (record s { handles = assoc_set fd h s.handles })
    | err e h ↦ err e (record s { handles = assoc_set fd h s.handles })
    | panic ↦ panic
    | hang ↦ hang
  ]
]

unfoldable pub seek : ℕ → ℕ → Prog Storage SyscallError (Unit {0})
seek fd index = on_handle fd (map_err from_file_handle_error (Handles.seek index))

-- `read`, its buffer given by its length; the bytes are what it puts at the buffer's front.
unfoldable pub read : ℕ → ℕ → Prog Storage SyscallError (List ℕ)
read fd length = on_handle fd (Handles.read length)

unfoldable pub close : ℕ → Prog Storage SyscallError (Unit {0})
close fd = do
  s ← get
  index ← ok_or (position (λ x. x.0 == fd) s.handles) wrong_descriptor
  modify (λ t. record t { handles = remove_at index t.handles })
