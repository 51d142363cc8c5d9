-- ===== src/File/Navigator.antt =====
-- idker/src/file/system.rs: `PathNavigator::path_step`, which splits the first segment off a path.
pub mod Laws
use idkernel.Base.{
  ℕ, Bool, true, false, List, [], ◌∷◌, Option, none, some, if◌then◌else◌, ◌==◌, ◌||◌, Str, str_eq,
}

-- `'/'`, `"."` and `".."`.
abbrev pub slash : ℕ
slash = b'/'

abbrev pub dot : Str
dot = b'.' ∷ []

abbrev pub dot_dot : Str
dot_dot = b'.' ∷ b'.' ∷ []

pub data Step : Type 0 where
  current parent : Step
  rel_ch : Str → Step

-- `s.split_once('/')`.
unfoldable pub split_once : Str → Option (Str × Str)
split_once [] = none
split_once (c ∷ s) =
    let rest = split_once s in
    if c == slash then some ([], s) else elim rest [ none ↦ none | some (a, b) ↦ some (c ∷ a, b) ]

-- The `match curr` of `path_step`.
unfoldable pub step_of : Str → Step
step_of curr =
    if str_eq curr [] || str_eq curr dot
    then current
    else if str_eq curr dot_dot
    then parent
    else rel_ch curr

unfoldable pub path_step : Str → Step × Str
path_step path = elim (split_once path) [ none ↦ (step_of path, []) | some (a, b) ↦ (step_of a, b) ]
