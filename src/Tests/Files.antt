-- ===== src/Tests/Files.antt =====
-- Runs of the file code on a small built-in file system, which holds one folder with one file.
use idkernel.Base.{
  ◌≡◌, ◌≢◌, ◌⊎◌, refl, ok, err, true, some, none, ◌∷◌, [], arith, str_eq, Str, ◌++◌,
}
use idkernel.Abi.{SyscallError, invalid_path}
use idkernel.File.Navigator.{slash, rel_ch, step_of, path_step}
use idkernel.File.Navigator.Laws.{NoSlash}
use idkernel.File.System.{PathResult, done, failed, partial, open_path_full, path_is_file}
use idkernel.File.Handles.{init_file, iterator, read}
use idkernel.File.Handles.Laws.{read-init_file}
use idkernel.File.InitFs.{InitDir, nil, entry, file, folder, InitFsFolderHandle}
use idkernel.File.InitFs.Laws.{open_dir_folder}
use idkernel.File.InitFs.{open_dir}
use idkernel.File.ProcFs.{Handle, root, mounted, ProcRootFs, mount}
use idkernel.File.ProcFs
use idkernel.File.InitFs
use idkernel.File.ProcFs.Laws.{open_path_total, open_dir-mount}
use idkernel.File.Load.{read_file_to_memory}
use idkernel.File.Load.Laws.{read_file_to_memory_lem}
use idkernel.File.Storage.{Storage}
use idkernel.File.Storage.Laws.{pushed}
use idkernel.File.Syscalls.{Outside, open_in}
use idkernel.File.Syscalls.Laws.{open_in_names}

-- `init`, `bin` and `sh`.
abbrev init : Str
init = 105 ∷ 110 ∷ 105 ∷ 116 ∷ []

abbrev bin : Str
bin = 98 ∷ 105 ∷ 110 ∷ []

abbrev sh : Str
sh = 115 ∷ 104 ∷ []

abbrev init_dir : InitDir
init_dir = entry bin (folder (entry sh (file (1 ∷ 2 ∷ 3 ∷ [])) nil)) nil

abbrev init_root : InitFsFolderHandle
init_root = record { path = init; dir = init_dir; opened_file = none }

abbrev empty_root : ProcRootFs InitFsFolderHandle
empty_root = record { proc = 2; mounts = [] }

abbrev proc_root : ProcRootFs InitFsFolderHandle
proc_root = record { proc = 2; mounts = (init, init_root) ∷ [] }

abbrev files : Storage
files = record {
  root = proc_root;
  handles = (1, init_file (1 ∷ 2 ∷ 3 ∷ []) 0) ∷ [];
  next_descriptor = 2;
}

abbrev outside : Outside
outside = record { user_bytes = λ ptr len. bin; is_utf8 = λ s. true; interleaved = λ names by. [] }

init-NoSlash : NoSlash init
init-NoSlash = (ground arith, (ground arith, (ground arith, (ground arith, tt))))

init_name : step_of init ≡ rel_ch init
unfolding step_of str_eq
init_name = refl

read-init_file_example :
    read {E = SyscallError} 2 (init_file (1 ∷ 2 ∷ 3 ∷ []) 0)
    ≡ ok (1 ∷ 2 ∷ []) (init_file (1 ∷ 2 ∷ 3 ∷ []) 0)
read-init_file_example = read-init_file {E = SyscallError} 2 0 (1 ∷ 2 ∷ 3 ∷ []) (omega arith)

read_file_to_memory_lem_example :
    read_file_to_memory 5 (λ n. true) 4096 (init_file (1 ∷ 2 ∷ 3 ∷ []) 0)
    ≡ ok [] (init_file (1 ∷ 2 ∷ 3 ∷ []) 0)
read_file_to_memory_lem_example =
    read_file_to_memory_lem 4 4096 (λ n. true) (init_file (1 ∷ 2 ∷ 3 ∷ []) 0) (omega arith)
      (omega arith)

open_dir_folder_example :
    ((g : InitFsFolderHandle) → InitFs.open_dir init_root bin ≡ some (done g) → g ≡ init_root)
    × ((x rest : Str)
        → bin ≢ []
        → path_step bin ≡ (rel_ch x, rest)
        → InitFs.open_dir init_root bin ≡ some (failed path_is_file))
open_dir_folder_example = open_dir_folder init_root bin refl

open_dir-mount_example :
    ProcFs.open_dir InitFs.open_dir (root (mount init init_root empty_root)) (init ++ slash ∷ bin)
    ≡ some (partial (mounted init_root) bin)
open_dir-mount_example =
    open_dir-mount InitFs.open_dir empty_root init bin init_root init-NoSlash init_name refl

open_path_total_example :
    (r : PathResult (Handle InitFsFolderHandle)) × (open_path_full 9
        (ProcFs.open_dir InitFs.open_dir)
        (root proc_root)
        (init ++ slash ∷ bin)
      ≡ some r)
open_path_total_example =
    open_path_total InitFs.open_dir (root proc_root) (init ++ slash ∷ bin)
      InitFs.Laws.open_dir-MakesProgress

open_in_names_example :
    (open_in outside (init ++ slash ∷ bin) files ≡ err invalid_path files)
    ⊎ ((names : Str) × (open_in outside (init ++ slash ∷ bin) files
          ≡ ok 2 (pushed (iterator names) files)))
open_in_names_example = open_in_names outside files (init ++ slash ∷ bin) (refl, tt) (omega arith)
