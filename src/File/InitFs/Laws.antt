-- ===== src/File/InitFs/Laws.antt =====
-- Opening paths in the built-in file system of idker/src/file/initfs.rs.
use idkernel.Base.{ℕ, zero, suc, ◌+◌, ◌<◌, ◌≡◌, ◌≢◌, refl, [], ◌∷◌, none, some, Str, length, arith}
use native.Mathlib.Numerals.{add-one}
use idkernel.File.Navigator.{Step, current, parent, rel_ch, path_step}
use idkernel.File.Navigator.Laws.{path_step-lt}
use idkernel.File.System.{path_is_file, PartialPathResult, done, partial, failed}
use idkernel.File.System.Laws.{MakesProgress}
use idkernel.File.InitFs.{InitFsFolderHandle, rel_open, walk_step, walk, open_dir}

walk_total :
    (rounds : ℕ) (dir : InitFsFolderHandle) (path : Str)
    → length path < rounds
    → (r : PartialPathResult InitFsFolderHandle) × (walk rounds dir path ≡ some r)
unfolding walk
walk_total zero dir path h = absurd (omega arith)
walk_total (suc rounds) dir [] h = (done dir, refl)
walk_total (suc rounds) dir (c ∷ s) h = go (walk_step dir (path_step (c ∷ s)).0) refl (λ next.
    walk_total rounds next (path_step (c ∷ s)).1 (omega (arith, path_step-lt (c ∷ s) (λ e. cc))))
  where
    go :
        (r : PartialPathResult InitFsFolderHandle)
        → walk_step dir (path_step (c ∷ s)).0 ≡ r
        → ((next : InitFsFolderHandle)
            → (q : PartialPathResult InitFsFolderHandle) × (walk rounds next (path_step (c ∷ s)).1
                ≡ some q))
        → (q : PartialPathResult InitFsFolderHandle) × (walk (suc rounds) dir (c ∷ s) ≡ some q)
    go (done next) e ih = let (q, eq) = ih next in (q, rw (e, walk) eq)
    go (partial g x) e ih = (partial g x, rw (e, walk))
    go (failed x) e ih = (failed x, rw (e, walk))

walk_step_keeps :
    (dir g : InitFsFolderHandle) (step : Step) (rest : Str) → walk_step dir step ≢ partial g rest
unfolding walk_step rel_open
walk_step_keeps dir g current rest h = cc
walk_step_keeps dir g parent rest h = cc
walk_step_keeps dir g (rel_ch x) rest h = ground arith

-- A walk never hands on to another file system.
walk_keeps :
    (rounds : ℕ) (dir g : InitFsFolderHandle) (path rest : Str)
    → walk rounds dir path ≢ some (partial g rest)
unfolding walk
walk_keeps zero dir g path rest h = cc
walk_keeps (suc rounds) dir g [] rest h = cc
walk_keeps (suc rounds) dir g (c ∷ s) rest h =
    go (walk_step dir (path_step (c ∷ s)).0) refl
      (λ next. walk_keeps rounds next g (path_step (c ∷ s)).1 rest)
  where
    go :
        (r : PartialPathResult InitFsFolderHandle)
        → walk_step dir (path_step (c ∷ s)).0 ≡ r
        → ((next : InitFsFolderHandle)
            → walk rounds next (path_step (c ∷ s)).1 ≢ some (partial g rest))
        → ⊥
    go (done next) e ih = ih next (rw (e, walk) at h)
    go (partial k x) e ih = walk_step_keeps dir k (path_step (c ∷ s)).0 x e
    go (failed x) e ih = let q = rw (e, walk) at h in cc

pub open_dir_keeps :
    (dir g : InitFsFolderHandle) (path rest : Str) → open_dir dir path ≢ some (partial g rest)
unfolding open_dir
open_dir_keeps dir g path rest = walk_keeps (length path + 1) dir g path rest

pub open_dir-MakesProgress : MakesProgress open_dir
unfolding open_dir
open_dir-MakesProgress = record {
  answers = λ h path. walk_total (length path + 1) h path (omega arith);
  shorter = λ h g path rest e. absurd (open_dir_keeps h g path rest e);
}

-- Whatever a walk from a folder returns is that folder itself.
walk_folder :
    (rounds : ℕ) (dir g : InitFsFolderHandle) (path : Str)
    → dir.opened_file ≡ none
    → walk rounds dir path ≡ some (done g)
    → g ≡ dir
unfolding walk walk_step rel_open
walk_folder zero dir g path e h = cc
walk_folder (suc rounds) dir g [] e h = cc
walk_folder (suc rounds) dir g (c ∷ s) e h =
    ground (arith, walk_folder rounds dir g (path_step (c ∷ s)).1 e)

-- From a folder of the built-in file system a path that resolves resolves to that folder itself,
-- and a path that is not empty and begins with a name fails with `path_is_file`.
pub open_dir_folder :
    (dir : InitFsFolderHandle) (path : Str)
    → dir.opened_file ≡ none
    → ((g : InitFsFolderHandle) → open_dir dir path ≡ some (done g) → g ≡ dir)
      × ((x rest : Str)
          → path ≢ []
          → path_step path ≡ (rel_ch x, rest)
          → open_dir dir path ≡ some (failed path_is_file))
unfolding open_dir walk walk_step rel_open
open_dir_folder dir path e =
    (λ g h. walk_folder (length path + 1) dir g path e h, λ x rest n s. first path x rest n s)
  where
    first :
        (path x rest : Str)
        → path ≢ []
        → path_step path ≡ (rel_ch x, rest)
        → walk (length path + 1) dir path ≡ some (failed path_is_file)
    first [] x rest n s = absurd (n refl)
    first (c ∷ p) x rest n s = rw (add-one, walk, s, walk_step, rel_open, e)
