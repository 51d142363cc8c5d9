-- ===== src/File/ProcFs/Laws.antt =====
-- Path resolution from the root of idker/src/file/procfs.rs, and its mounts.
use idkernel.Base.{
  ℕ, zero, suc, ◌+◌, ◌<◌, ◌≡◌, refl, ap, List, [], ◌∷◌, ◌++◌, none, some, Str, str_eq, str_eq_refl,
  length, find, arith,
}
use native.Mathlib.Numerals.{add-one}
use idkernel.File.Navigator.{Step, current, parent, rel_ch, path_step, slash, step_of}
use idkernel.File.Navigator.Laws.{path_step-lt, NoSlash, path_step-join}
use idkernel.File.System.{
  parenting_not_supported, PartialPathResult, done, partial, failed, OpenDir, open_path_full,
  PathResult,
}
use idkernel.File.System.Laws.{MakesProgress, open_path_full_total}
use idkernel.File.ProcFs.{ProcRootFs, Handle, root, mounted, mount, enter, walk, lift, open_dir}

step_of-nil : step_of [] ≡ current
unfolding step_of str_eq
step_of-nil = refl

module _ {H : Type 0} where
  walk_total :
      (rounds : ℕ) (fs : ProcRootFs H) (path : Str)
      → length path < rounds
      → (r : PartialPathResult (Handle H)) × (walk rounds fs path ≡ some r)
        × ((g : Handle H) (rest : Str) → r ≡ partial g rest → length rest < length path)
  unfolding walk enter
  walk_total zero fs path h = absurd (omega arith)
  walk_total (suc rounds) fs [] h = (done (root fs), refl, λ g rest e. cc)
  walk_total (suc rounds) fs (c ∷ s) h =
      go (path_step (c ∷ s)).0 refl shorter
        (walk_total rounds fs (path_step (c ∷ s)).1 (omega (arith, shorter)))
    where
      shorter : length (path_step (c ∷ s)).1 < length (c ∷ s)
      shorter = path_step-lt (c ∷ s) (λ e. cc)

      go :
          (st : Step)
          → (path_step (c ∷ s)).0 ≡ st
          → length (path_step (c ∷ s)).1 < length (c ∷ s)
          → ((r : PartialPathResult (Handle H)) × (walk rounds fs (path_step (c ∷ s)).1 ≡ some r)
              × ((g : Handle H) (rest : Str)
                  → r ≡ partial g rest
                  → length rest < length (path_step (c ∷ s)).1))
          → (r : PartialPathResult (Handle H)) × (walk (suc rounds) fs (c ∷ s) ≡ some r)
            × ((g : Handle H) (rest : Str) → r ≡ partial g rest → length rest < length (c ∷ s))
      go current e lt (r, q, k) = (r, rw (e, walk) q, λ g rest eq. omega (arith, k g rest eq))
      go parent e lt ih = (failed parenting_not_supported, rw (e, walk), λ g rest eq. cc)
      go (rel_ch x) e lt ih =
          (enter fs x (path_step (c ∷ s)).1, rw (e, walk), λ g rest eq. ground arith)

  lift-partial :
      (r : PartialPathResult H) (g : Handle H) (rest : Str)
      → lift r ≡ partial g rest
      → (h : H) × (r ≡ partial h rest)
  unfolding lift
  lift-partial (done h) g rest e = cc
  lift-partial (partial h x) g rest e = (h, ground arith)
  lift-partial (failed x) g rest e = cc

  -- The root makes progress if what is mounted does.
  pub open_dir-MakesProgress :
      (other : OpenDir H) → MakesProgress other → MakesProgress (open_dir other)
  unfolding open_dir
  open_dir-MakesProgress other p = record { answers = answers; shorter = shorter }
    where
      answers :
          (h : Handle H) (path : Str)
          → (r : PartialPathResult (Handle H)) × (open_dir other h path ≡ some r)
      answers (root fs) path =
          let (r, e, k) = walk_total (length path + 1) fs path (omega arith) in (r, e)
      answers (mounted h) path = let (r, e) = p.answers h path in (lift r, rw (e, open_dir))

      shorter :
          (h g : Handle H) (path rest : Str)
          → open_dir other h path ≡ some (partial g rest)
          → length rest < length path
      shorter (root fs) g path rest e =
          let (r, q, k) = walk_total (length path + 1) fs path (omega arith) in
          k g rest (ground arith)
      shorter (mounted h) g path rest e =
          let (r, q) = p.answers h path in
          let (x, eq) = lift-partial r g rest (ground arith) in
          p.shorter h x path rest (ground arith)

  -- If the handles of a mounted file system always answer, and leave less of the path whenever they
  -- leave some, then resolving any path from a handle of the process file system ends within one
  -- round more than the path has bytes.
  pub open_path_total :
      (other : OpenDir H) (h : Handle H) (path : Str)
      → MakesProgress other
      → (r : PathResult (Handle H)) × (open_path_full (length path + 1) (open_dir other) h path
          ≡ some r)
  open_path_total other h path p =
      open_path_full_total (open_dir other) (length path + 1) h path
        (open_dir-MakesProgress other p) (omega arith)

  find-append :
      (name : Str) (h : H) (l : List (Str × H))
      → find (λ x. str_eq x.0 name) l ≡ none
      → find (λ x. str_eq x.0 name) (l ++ (name, h) ∷ []) ≡ some (name, h)
  find-append name h [] e = ground (arith, str_eq_refl name)
  find-append name h (x ∷ l) e = ground (arith, find-append name h l)

  -- For a name without a slash that is no special segment and is not mounted yet, the path of the
  -- name, a slash and a rest leads, right after mounting a handle under the name, to that handle
  -- with the rest still to resolve.
  pub open_dir-mount :
      (other : OpenDir H) (fs : ProcRootFs H) (name rest : Str) (h : H)
      → NoSlash name
      → step_of name ≡ rel_ch name
      → find (λ x. str_eq x.0 name) fs.mounts ≡ none
      → open_dir other (root (mount name h fs)) (name ++ slash ∷ rest)
        ≡ some (partial (mounted h) rest)
  unfolding open_dir mount walk enter
  open_dir-mount other fs [] rest h n s free = ground (arith, step_of-nil)
  open_dir-mount other fs (c ∷ name) rest h n s free =
      rw
        (
          add-one,
          walk,
          (path_step-join (c ∷ name) rest n).0,
          s,
          enter,
          find-append (c ∷ name) h fs.mounts free,
        )
        (ap (λ (q : Step × Str). some (partial (mounted h) q.1))
          (path_step-join (c ∷ name) rest n).0)
