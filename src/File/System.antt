-- ===== src/File/System.antt =====
-- idker/src/file/system.rs: the traits `PathHandle` and `FileHandle`, and `open_path_full`. A
-- loop takes a bound on its rounds, and `none` means that the rounds ran out.
pub mod Laws
use idkernel.Base.{ℕ, zero, suc, Option, none, some, Str}

pub data FileHandleError : Type 0 where
  not_seekable seek_out_of_range : FileHandleError

pub data PathOpenError : Type 0 where
  invalid_path folder_not_found path_is_file parenting_not_supported : PathOpenError

-- `Result<PartialPathResult<Arc<dyn PathHandle>>, PathOpenError>`.
pub data PartialPathResult (H : Type 0) : Type 0 where
  done : H → PartialPathResult H
  partial : H → Str → PartialPathResult H
  failed : PathOpenError → PartialPathResult H

pub data PathType : Type 0 where
  folder file : PathType

-- `Result<Arc<dyn PathHandle>, PathOpenError>`.
pub data PathResult (H : Type 0) : Type 0 where
  opened : H → PathResult H
  not_opened : PathOpenError → PathResult H

-- The method `open_dir` of the trait `PathHandle`.
abbrev pub OpenDir : Type 0 → Type 0
OpenDir H = H → Str → Option (PartialPathResult H)

unfoldable pub open_path_full : {H : Type 0} → ℕ → OpenDir H → H → Str → Option (PathResult H)
open_path_full zero open_dir curr path = none
open_path_full (suc rounds) open_dir curr path = elim (open_dir curr path) [
  | none ↦ none
  | some (done x) ↦ some (opened x)
  | some (partial h x) ↦ open_path_full rounds open_dir h x
  | some (failed e) ↦ some (not_opened e)
]
