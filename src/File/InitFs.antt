-- ===== src/File/InitFs.antt =====
-- include_dir/src/lib.rs (`InitDir`) and idker/src/file/initfs.rs: the read-only tree that is
-- built into the kernel, and the path handles on it.
pub mod Laws
use idkernel.Base.{
  ℕ, zero, suc, ◌+◌, List, [], ◌∷◌, ◌++◌, Option, none, some, if◌then◌else◌, Str, str_eq, length,
}
use idkernel.File.Navigator.{Step, current, parent, rel_ch, path_step}
use idkernel.File.System.{
  PathOpenError, folder_not_found, path_is_file, parenting_not_supported, PartialPathResult, done,
  partial, failed, OpenDir, PathType,
}
use idkernel.File.Handles.{FileHandle, init_file, dir_names_to_handle}

-- An `InitDir` is its entries in order, each a name and what stands there.
mutual
  pub data InitDir : Type 0 where
    nil : InitDir
    entry : Str → InitDirEntry → InitDir → InitDir

  pub data InitDirEntry : Type 0 where
    file : Str → InitDirEntry
    folder : InitDir → InitDirEntry

-- `InitDir::entry`: the first entry with the name.
unfoldable pub find_entry : Str → InitDir → Option InitDirEntry
find_entry path nil = none
find_entry path (entry name e rest) = if str_eq name path then some e else find_entry path rest

-- `folder.0.iter().map(|x| x.0)`.
unfoldable pub names : InitDir → List Str
names nil = []
names (entry name e rest) = name ∷ names rest

pub record InitFsFolderHandle : Type 0 where
  pub path : Str
  pub dir : InitDir
  pub opened_file : Option (Str × Str)

unfoldable pub from_init_dir : InitDir → Str → InitFsFolderHandle
from_init_dir root mount_path = record { path = mount_path; dir = root; opened_file = none }

-- What `rel_open` makes of the entry that it found under `x`.
unfoldable pub enter : InitFsFolderHandle → Str → InitDirEntry → InitFsFolderHandle
enter self x (file content) = record {
  path = self.path ++ x;
  dir = self.dir;
  opened_file = some (x, content);
}
enter self x (folder sub) = record { path = self.path ++ x; dir = sub; opened_file = none }

-- `rel_open`, its first test as the source has it.
unfoldable pub rel_open : InitFsFolderHandle → Str → PartialPathResult InitFsFolderHandle
rel_open self x = elim self.opened_file [
  | none ↦ failed path_is_file
  | some _ ↦ elim (find_entry x self.dir) [
    | none ↦ failed folder_not_found
    | some e ↦ done (enter self x e)
  ]
]

-- One round of the loop of `open_dir`: `done` goes on with the handle in hand.
unfoldable pub walk_step : InitFsFolderHandle → Step → PartialPathResult InitFsFolderHandle
walk_step dir current = done dir
walk_step dir parent = failed parenting_not_supported
walk_step dir (rel_ch rel) = rel_open dir rel

-- The loop of `open_dir`.
unfoldable pub walk : ℕ → InitFsFolderHandle → Str → Option (PartialPathResult InitFsFolderHandle)
walk zero dir remaining = none
walk (suc rounds) dir [] = some (done dir)
walk (suc rounds) dir (c ∷ s) = elim (walk_step dir (path_step (c ∷ s)).0) [
  | done next ↦ walk rounds next (path_step (c ∷ s)).1
  | partial h x ↦ some (partial h x)
  | failed e ↦ some (failed e)
]

unfoldable pub open_dir : OpenDir InitFsFolderHandle
open_dir dir path = walk (length path + 1) dir path

unfoldable pub ptype : InitFsFolderHandle → PathType
ptype self = elim self.opened_file [ none ↦ PathType.folder | some _ ↦ PathType.file ]

-- `PathHandle::read`: a handle on the content, or on the names of a folder.
unfoldable pub read : (List Str → Str → List Str) → InitFsFolderHandle → FileHandle
read interleaved self = elim self.opened_file [
  | none ↦ dir_names_to_handle interleaved (names self.dir)
  | some f ↦ init_file f.1 0
]
