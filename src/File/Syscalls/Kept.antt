-- ===== src/File/Syscalls/Kept.antt =====
-- The order of the descriptors under the part of `open` of idker/src/file/syscall.rs that holds the
-- caller's lock.
use idkernel.Base.{ℕ, Option, none, some, Str, err, hang, Ends, Keeps, Ends-Keeps}
use idkernel.Abi.{SyscallError}
use idkernel.File.InitFs.{InitFsFolderHandle}
use idkernel.File.Load.{from_path_open_error}
use idkernel.File.ProcFs.{Handle}
use idkernel.File.Storage.{Storage, push}
use idkernel.File.Storage.Laws.{IsValid}
use idkernel.File.Storage.Kept.{push-Keeps}
use idkernel.File.Syscalls.{Outside, resolve, read_handle, open_in}
use idkernel.File.System.{PathResult, opened, not_opened}

pub open_in-Keeps : (o : Outside) (path : Str) → Keeps IsValid (open_in o path)
unfolding open_in
open_in-Keeps o path = Ends-Keeps (open_in o path) λ s v. go s v (resolve o s path)
  where
    go :
        (s : Storage)
        → IsValid s
        → (r : Option (PathResult (Handle InitFsFolderHandle)))
        → Ends {E = SyscallError} {A = ℕ}
            (λ _ t. IsValid t)
            IsValid
            (elim r [
              | none ↦ hang
              | some (not_opened e) ↦ err (from_path_open_error e) s
              | some (opened h) ↦ push (read_handle o h) s
            ])
    go s v none = tt
    go s v (some (not_opened e)) = v
    go s v (some (opened h)) = ((push-Keeps (read_handle o h)).keeps s v).ends
