-- ===== src/File/ProcFs.antt =====
-- idker/src/file/procfs.rs: the root of a task's view of the files, a vector of mounts. The
-- handles that are mounted are a parameter `H`, the other implementations of `PathHandle`.
pub mod Laws
use idkernel.Base.{
  ℕ, zero, suc, ◌+◌, List, [], ◌∷◌, ◌++◌, Option, none, some, if◌then◌else◌, Str, str_eq, length,
  find, position, get_elem?, remove_at, map,
}
use idkernel.File.Navigator.{Step, current, parent, rel_ch, path_step}
use idkernel.File.System.{
  invalid_path, parenting_not_supported, PartialPathResult, done, partial, failed, OpenDir,
  PathType,
}
use idkernel.File.Handles.{FileHandle, dir_names_to_handle}

pub record ProcRootFs (H : Type 0) : Type 0 where
  pub proc : ℕ
  pub mounts : List (Str × H)

-- A path handle: the root itself, or one of another file system.
pub data Handle (H : Type 0) : Type 0 where
  root : ProcRootFs H → Handle H
  mounted : H → Handle H

module _ {H : Type 0} where
  unfoldable pub new : ℕ → ProcRootFs H
  new task = record { proc = task; mounts = [] }

  unfoldable pub mount : Str → H → ProcRootFs H → ProcRootFs H
  mount name handle fs = record fs { mounts = fs.mounts ++ (name, handle) ∷ [] }

  -- `unmount`, with what it takes out.
  unfoldable pub unmount : Str → ProcRootFs H → Option H × ProcRootFs H
  unmount name fs = elim (position (λ x. str_eq x.0 name) fs.mounts) [
    | none ↦ (none, fs)
    | some i ↦ (
      elim (get_elem? fs.mounts i) [ none ↦ none | some x ↦ some x.1 ],
      record fs { mounts = remove_at i fs.mounts },
    )
  ]

  -- What the loop of `open_dir` returns at a segment.
  unfoldable pub enter : ProcRootFs H → Str → Str → PartialPathResult (Handle H)
  enter fs rel rem = elim (find (λ x. str_eq x.0 rel) fs.mounts) [
    | some x ↦ partial (mounted x.1) rem
    | none ↦ failed invalid_path
  ]

  unfoldable pub walk : ℕ → ProcRootFs H → Str → Option (PartialPathResult (Handle H))
  walk zero fs remaining = none
  walk (suc rounds) fs [] = some (done (root fs))
  walk (suc rounds) fs (c ∷ s) = elim (path_step (c ∷ s)).0 [
    | current ↦ walk rounds fs (path_step (c ∷ s)).1
    | parent ↦ some (failed parenting_not_supported)
    | rel_ch rel ↦ some (enter fs rel (path_step (c ∷ s)).1)
  ]

  -- A result of another file system, seen as one of all.
  unfoldable pub lift : PartialPathResult H → PartialPathResult (Handle H)
  lift (done h) = done (mounted h)
  lift (partial h rest) = partial (mounted h) rest
  lift (failed e) = failed e

  -- `open_dir` of a `dyn PathHandle`.
  unfoldable pub open_dir : OpenDir H → OpenDir (Handle H)
  open_dir other (root fs) path = walk (length path + 1) fs path
  open_dir other (mounted h) path = elim (other h path) [ none ↦ none | some r ↦ some (lift r) ]

  -- `ptype` and `read` of a `dyn PathHandle`.
  unfoldable pub ptype : (H → PathType) → Handle H → PathType
  ptype other (root fs) = PathType.folder
  ptype other (mounted h) = other h

  unfoldable pub read : (List Str → Str → List Str) → (H → FileHandle) → Handle H → FileHandle
  read interleaved other (root fs) = dir_names_to_handle interleaved (map (λ x. x.0) fs.mounts)
  read interleaved other (mounted h) = other h
