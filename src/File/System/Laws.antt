-- ===== src/File/System/Laws.antt =====
-- The rounds of `open_path_full` of idker/src/file/system.rs.
use idkernel.Base.{ℕ, zero, suc, ◌<◌, ◌≡◌, some, Str, length, arith}
use idkernel.File.System.{
  PartialPathResult, done, partial, failed, PathResult, opened, not_opened, OpenDir, open_path_full,
}

-- A file system answers every request, and what it hands on is shorter than the path it was given.
pub record MakesProgress {H : Type 0} (open_dir : OpenDir H) : Type 0 where
  pub answers : (h : H) (path : Str) → (r : PartialPathResult H) × (open_dir h path ≡ some r)
  pub shorter :
      (h g : H) (path rest : Str)
      → open_dir h path ≡ some (partial g rest)
      → length rest < length path

-- One round more than the path has bytes is enough.
pub open_path_full_total :
    {H : Type 0} (open_dir : OpenDir H) (rounds : ℕ) (h : H) (path : Str)
    → MakesProgress open_dir
    → length path < rounds
    → (r : PathResult H) × (open_path_full rounds open_dir h path ≡ some r)
unfolding open_path_full
open_path_full_total open_dir zero h path progress enough = absurd (omega arith)
open_path_full_total {H} open_dir (suc rounds) h path progress enough =
    let (r, e) = progress.answers h path in
    go r e (λ g rest eq.
      open_path_full_total open_dir rounds g rest progress
        (omega (arith, progress.shorter h g path rest eq)))
  where
    go :
        (r : PartialPathResult H)
        → open_dir h path ≡ some r
        → ((g : H) (rest : Str)
            → open_dir h path ≡ some (partial g rest)
            → (q : PathResult H) × (open_path_full rounds open_dir g rest ≡ some q))
        → (q : PathResult H) × (open_path_full (suc rounds) open_dir h path ≡ some q)
    go (done x) e ih = (opened x, rw (e, open_path_full))
    go (failed x) e ih = (not_opened x, rw (e, open_path_full))
    go (partial g rest) e ih = let (q, eq) = ih g rest e in (q, rw (e, open_path_full) eq)
