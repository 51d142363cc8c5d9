-- ===== src/File/Navigator/Laws.antt =====
-- `path_step` of idker/src/file/system.rs on segments and rests.
use idkernel.Base.{
  ◌<◌, ◌≡◌, ◌≢◌, refl, inl, inr, [], ◌∷◌, ◌++◌, none, some, Str, length, arith, Option-cases, All,
}
use idkernel.File.Navigator.{split_once, step_of, path_step, slash}

split_once-lt : (s a b : Str) → split_once s ≡ some (a, b) → length b < length s
unfolding split_once
split_once-lt [] a b h = ground arith
split_once-lt (c ∷ s) a b h = elim (Option-cases (split_once s)) [
  | inl e ↦ ground arith
  | inr (p, e) ↦ ground (arith, split_once-lt s p.0 p.1)
]

-- Each step of a walk leaves a shorter path.
pub path_step-lt : (path : Str) → path ≢ [] → length (path_step path).1 < length path
unfolding path_step
path_step-lt [] h = absurd (h refl)
path_step-lt (c ∷ s) h = elim (Option-cases (split_once (c ∷ s))) [
  | inl e ↦ ground arith
  | inr (p, e) ↦ rw (e, path_step) (split_once-lt (c ∷ s) p.0 p.1 e)
]

abbrev pub NoSlash : Str → Type 0
NoSlash = All (λ c. c ≢ slash)

-- Splitting a segment, a slash and a rest gives back the two.
split_once-join : (a b : Str) → NoSlash a → split_once (a ++ slash ∷ b) ≡ some (a, b)
unfolding split_once
split_once-join [] b h = refl
split_once-join (c ∷ a) b h = ground (arith, split_once-join a b h.1)

split_once-NoSlash : (a : Str) → NoSlash a → split_once a ≡ none
unfolding split_once
split_once-NoSlash [] h = refl
split_once-NoSlash (c ∷ a) h = ground (arith, split_once-NoSlash a h.1)

-- For a segment without a slash, the first step of the segment, a slash and a rest is that of the
-- segment and leaves the rest, and the first step of the segment alone is the same and leaves
-- nothing.
pub path_step-join :
    (a b : Str)
    → NoSlash a
    → (path_step (a ++ slash ∷ b) ≡ (step_of a, b)) × (path_step a ≡ (step_of a, []))
unfolding path_step
path_step-join a b h =
    (rw (split_once-join a b h, path_step), rw (split_once-NoSlash a h, path_step))
