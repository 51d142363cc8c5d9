-- ===== src/File/Syscalls/Laws.antt =====
-- What can be opened through idker/src/file/syscall.rs.
use idkernel.Base.{
  ℕ, zero, suc, ◌+◌, ◌<◌, ◌^◌, ◌≡◌, refl, Option, none, some, List, [], ◌∷◌, Str, str_eq, length,
  find, All, ok, err, arith, subst, sym, Option-cases, inl, inr, ◌⊎◌,
}
use mathlib.Core.List.{flatten}
use idkernel.Abi.{invalid_path}
use idkernel.File.Handles.{iterator, dir_names_to_handle}
use idkernel.File.InitFs.{InitFsFolderHandle}
use idkernel.File.InitFs
use idkernel.File.InitFs.Laws.{open_dir_folder, open_dir-MakesProgress, open_dir_keeps}
use idkernel.File.Load.{from_path_open_error}
use idkernel.File.Navigator.{path_step, Step, current, parent, rel_ch}
use idkernel.File.ProcFs.{Handle, root, mounted, ProcRootFs, walk, enter, lift}
use idkernel.File.ProcFs
use idkernel.File.ProcFs.Laws.{open_path_total}
use idkernel.File.Storage.{Storage}
use idkernel.File.Storage.Laws.{pushed, push_lem}
use idkernel.File.Syscalls.{Outside, resolve, read_handle, open_in}
use idkernel.File.System.{
  PartialPathResult, done, partial, failed, open_path_full, PathResult, opened, not_opened,
}

-- A handle from which only folders can be reached.
abbrev pub IsFolder : InitFsFolderHandle → Type 0
IsFolder h = h.opened_file ≡ none

abbrev pub OnFolders : Handle InitFsFolderHandle → Type 0
OnFolders (root fs) = All (λ m. IsFolder m.1) fs.mounts
OnFolders (mounted h) = IsFolder h

find-IsFolder :
    (name : Str) (mounts : List (Str × InitFsFolderHandle)) (x : Str × InitFsFolderHandle)
    → All (λ m. IsFolder m.1) mounts
    → find (λ m. str_eq m.0 name) mounts ≡ some x
    → IsFolder x.1
find-IsFolder name [] x a e = ground arith
find-IsFolder name (m ∷ mounts) x a e = ground (arith, find-IsFolder name mounts x a.1)

-- What a result leads on to.
abbrev Leads : PartialPathResult (Handle InitFsFolderHandle) → Type 0
Leads (done g) = OnFolders g
Leads (partial g rest) = OnFolders g
Leads (failed e) = Unit {0}

abbrev AnswerLeads : Option (PartialPathResult (Handle InitFsFolderHandle)) → Type 0
AnswerLeads none = Unit {0}
AnswerLeads (some r) = Leads r

enter-Leads :
    (fs : ProcRootFs InitFsFolderHandle) (rel rem : Str)
    → OnFolders (root fs)
    → Leads (enter fs rel rem)
unfolding enter
enter-Leads fs rel rem a = elim (Option-cases (find (λ x. str_eq x.0 rel) fs.mounts)) [
  | inl missing ↦ rw (missing, enter) tt
  | inr (x, found) ↦ rw (found, enter) (find-IsFolder rel fs.mounts x a found)
]

walk-Leads :
    (rounds : ℕ) (fs : ProcRootFs InitFsFolderHandle) (path : Str)
    → OnFolders (root fs)
    → AnswerLeads (walk rounds fs path)
unfolding walk
walk-Leads zero fs path a = tt
walk-Leads (suc rounds) fs [] a = a
walk-Leads (suc rounds) fs (c ∷ s) a =
    go (path_step (c ∷ s)).0 refl (walk-Leads rounds fs (path_step (c ∷ s)).1 a)
  where
    go :
        (st : Step)
        → (path_step (c ∷ s)).0 ≡ st
        → AnswerLeads (walk rounds fs (path_step (c ∷ s)).1)
        → AnswerLeads (walk (suc rounds) fs (c ∷ s))
    go current e ih = rw (e, walk) ih
    go parent e ih = rw (e, walk) tt
    go (rel_ch x) e ih = rw (e, walk) (enter-Leads fs x (path_step (c ∷ s)).1 a)

-- A built-in folder leads to itself only.
folder_Leads :
    (dir : InitFsFolderHandle) (path : Str)
    → IsFolder dir
    → AnswerLeads (ProcFs.open_dir InitFs.open_dir (mounted dir) path)
unfolding ProcFs.open_dir lift
folder_Leads dir path a = go (InitFs.open_dir dir path) refl
  where
    go :
        (r : Option (PartialPathResult InitFsFolderHandle))
        → InitFs.open_dir dir path ≡ r
        → AnswerLeads (ProcFs.open_dir InitFs.open_dir (mounted dir) path)
    go none e = rw (e, ProcFs.open_dir) tt
    go (some (done g)) e =
        rw (e, ProcFs.open_dir) (subst IsFolder (sym ((open_dir_folder dir path a).0 g e)) a)
    go (some (partial g rest)) e = absurd (open_dir_keeps dir g path rest e)
    go (some (failed x)) e = rw (e, ProcFs.open_dir) tt

any_Leads :
    (h : Handle InitFsFolderHandle) (path : Str)
    → OnFolders h
    → AnswerLeads (ProcFs.open_dir InitFs.open_dir h path)
unfolding ProcFs.open_dir
any_Leads (root fs) path a = walk-Leads (length path + 1) fs path a
any_Leads (mounted dir) path a = folder_Leads dir path a

-- What a path leads to.
abbrev ResultLeads : Option (PathResult (Handle InitFsFolderHandle)) → Type 0
ResultLeads none = Unit {0}
ResultLeads (some (opened h)) = OnFolders h
ResultLeads (some (not_opened e)) = Unit {0}

open_path_Leads :
    (rounds : ℕ) (h : Handle InitFsFolderHandle) (path : Str)
    → OnFolders h
    → ResultLeads (open_path_full rounds (ProcFs.open_dir InitFs.open_dir) h path)
unfolding open_path_full
open_path_Leads zero h path a = tt
open_path_Leads (suc rounds) h path a =
    go (ProcFs.open_dir InitFs.open_dir h path) refl (any_Leads h path a)
      (λ g rest b. open_path_Leads rounds g rest b)
  where
    go :
        (r : Option (PartialPathResult (Handle InitFsFolderHandle)))
        → ProcFs.open_dir InitFs.open_dir h path ≡ r
        → AnswerLeads (ProcFs.open_dir InitFs.open_dir h path)
        → ((g : Handle InitFsFolderHandle) (rest : Str)
            → OnFolders g
            → ResultLeads (open_path_full rounds (ProcFs.open_dir InitFs.open_dir) g rest))
        → ResultLeads (open_path_full (suc rounds) (ProcFs.open_dir InitFs.open_dir) h path)
    go none e l ih = rw (e, open_path_full) tt
    go (some (done g)) e l ih = rw (e, open_path_full) (subst AnswerLeads e l)
    go (some (partial g rest)) e l ih = rw (e, open_path_full) (ih g rest (subst AnswerLeads e l))
    go (some (failed x)) e l ih = rw (e, open_path_full) tt

read_OnFolders :
    (o : Outside) (h : Handle InitFsFolderHandle)
    → OnFolders h
    → (names : Str) × (read_handle o h ≡ iterator names)
unfolding read_handle ProcFs.read InitFs.read dir_names_to_handle
read_OnFolders o (root fs) a = (_, refl)
read_OnFolders o (mounted dir) a =
    (flatten (o.interleaved (InitFs.names dir.dir) (10 ∷ [])), rw (a, InitFs.read))

-- Let the root of a task have only folders of the built-in file system mounted, and its descriptors
-- not run out. Then opening any path either fails with `invalid_path` and changes nothing, or puts
-- a handle on names under the next descriptor: no path opens a file.
pub open_in_names :
    (o : Outside) (s : Storage) (path : Str)
    → OnFolders (root s.root)
    → s.next_descriptor + 1 < 2 ^ 64
    → (open_in o path s ≡ err invalid_path s)
      ⊎ ((names : Str) × (open_in o path s ≡ ok s.next_descriptor (pushed (iterator names) s)))
unfolding open_in resolve from_path_open_error
open_in_names o s path a room =
    let (r, e) = open_path_total InitFs.open_dir (root s.root) path open_dir-MakesProgress in
    go r e (open_path_Leads (length path + 1) (root s.root) path a)
  where
    found : Option (PathResult (Handle InitFsFolderHandle))
    found = open_path_full (length path + 1) (ProcFs.open_dir InitFs.open_dir) (root s.root) path

    go :
        (r : PathResult (Handle InitFsFolderHandle))
        → found ≡ some r
        → ResultLeads found
        → (open_in o path s ≡ err invalid_path s)
          ⊎ ((names : Str) × (open_in o path s ≡ ok s.next_descriptor (pushed (iterator names) s)))
    go (not_opened x) e l = inl (rw (e, open_in))
    go (opened h) e l =
        let (names, q) = read_OnFolders o h (subst ResultLeads e l) in
        inr (names, rw (e, open_in) (rw q (push_lem (iterator names) s room)))
