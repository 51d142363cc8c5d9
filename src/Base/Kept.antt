-- ===== src/Base/Kept.antt =====
-- What a piece of kernel code keeps, however it ends with a result or an error.
use mathlib.Core.Bool.{Bool, true, false}
use mathlib.Core.Option.{Option}
use mathlib.Core.Path.{◌≡◌, subst, sym}
use idkernel.Base.Tests.{if◌then◌else◌}
use idkernel.Base.Effects.{
  Outcome, ok, err, panic, hang, Prog, ◌>>=◌, pure, fail, get, modify, unwrap, ok_or, guard, assert,
  fail_if, zoom, map_err, spin_until,
}
use idkernel.Base.Guarantees.{
  Ends, Ensures, bind-Ensures, pure-Ensures, unwrap-Ensures, ok_or-Ensures, guard-Ensures,
  fail_if-Ensures, assert-Ensures, modify-Ensures, get-Ensures, zoom-Ensures, map-Ensures,
  map_err-Ensures,
}

-- From `I` to `I` where it returns, to `Q` where it fails.
pub record Steps {S E A : Type 0} (I Q : S → Type 0) (m : Prog S E A) : Type 0 where
  pub keeps : (s : S) → I s → Ensures (λ _ t. I t) Q s m

abbrev pub Keeps : {S E A : Type 0} → (S → Type 0) → Prog S E A → Type 0
Keeps I m = Steps I I m

module _ {S E A : Type 0} {I Q : S → Type 0} where
  pub bind-Keeps :
      {B : Type 0} {m : Prog S E B} {f : B → Prog S E A}
      → Steps I Q m
      → ((b : B) → Steps I Q (f b))
      → Steps I Q (m >>= f)
  bind-Keeps h g = record { keeps = λ s i. bind-Ensures (h.keeps s i) λ b t j. (g b).keeps t j }

  pub pure-Keeps : (a : A) → Steps {E = E} I Q (pure a)
  pure-Keeps a = record { keeps = λ s i. pure-Ensures a i }

  pub unwrap-Keeps : (o : Option A) → Steps {E = E} I Q (unwrap o)
  unwrap-Keeps o = record { keeps = λ s i. unwrap-Ensures o (λ _ _. i) }

  pub if-Keeps :
      (b : Bool) {m n : Prog S E A} → Steps I Q m → Steps I Q n → Steps I Q (if b then m else n)
  if-Keeps true h g = h
  if-Keeps false h g = g

  -- From the outcome at each state.
  pub Ends-Keeps : (m : Prog S E A) → ((s : S) → I s → Ends (λ _ t. I t) Q (m s)) → Steps I Q m
  Ends-Keeps m h = record { keeps = λ s i. record { ends = h s i } }

  -- A part of the state, by code that never fails.
  pub zoom-Steps :
      {T : Type 0} {J : T → Type 0} (part : S → T) (put : T → S → S) {m : Prog T E A}
      → Steps J (λ _. ⊥) m
      → ((s : S) → I s → J (part s))
      → ((s : S) (t : T) → I s → J t → I (put t s))
      → Steps I Q (zoom part put m)
  zoom-Steps part put h into back = record {
    keeps = λ s i.
        zoom-Ensures part put
          (map-Ensures (h.keeps (part s) (into s i)) (λ _ t j. back s t i j) (λ t j. absurd j));
  }

module _ {S E : Type 0} {I Q : S → Type 0} where
  pub assert-Keeps : (b : Bool) → Steps {E = E} I Q (assert b)
  assert-Keeps b = record { keeps = λ s i. assert-Ensures b (λ _. i) }

  pub modify-Keeps : (f : S → S) → ((s : S) → I s → I (f s)) → Steps {E = E} I Q (modify f)
  modify-Keeps f h = record { keeps = λ s i. modify-Ensures f (h s i) }

  pub get-Keeps : Steps {E = E} I Q get
  get-Keeps = record { keeps = λ s i. get-Ensures i }

  pub spin_until-Keeps : (b : Bool) → Steps {E = E} I Q (spin_until b)
  spin_until-Keeps true = record { keeps = λ s i. record { ends = i } }
  spin_until-Keeps false = record { keeps = λ s i. record { ends = tt } }

module _ {S E A : Type 0} {I : S → Type 0} where
  pub fail-Keeps : (e : E) → Keeps {A = A} I (fail e)
  fail-Keeps e = record { keeps = λ s i. record { ends = i } }

  pub ok_or-Keeps : (o : Option A) (e : E) → Keeps I (ok_or o e)
  ok_or-Keeps o e = record { keeps = λ s i. ok_or-Ensures o e (λ _ _. i) i }

  -- A part of the state.
  pub zoom-Keeps :
      {T : Type 0} {J : T → Type 0} (part : S → T) (put : T → S → S) {m : Prog T E A}
      → Keeps J m
      → ((s : S) → I s → J (part s))
      → ((s : S) (t : T) → I s → J t → I (put t s))
      → Keeps I (zoom part put m)
  zoom-Keeps part put h into back = record {
    keeps = λ s i.
        zoom-Ensures part put
          (map-Ensures (h.keeps (part s) (into s i)) (λ _ t j. back s t i j) (λ t j. back s t i j));
  }

module _ {S E : Type 0} {I : S → Type 0} where
  pub guard-Keeps : (b : Bool) (e : E) → Keeps I (guard b e)
  guard-Keeps b e = record { keeps = λ s i. guard-Ensures b e (λ _. i) i }

  pub fail_if-Keeps : (b : Bool) (e : E) → Keeps I (fail_if b e)
  fail_if-Keeps b e = record { keeps = λ s i. fail_if-Ensures b e (λ _. i) i }

pub map_err-Keeps :
    {S E F A : Type 0} {I : S → Type 0} (f : E → F) {m : Prog S E A}
    → Keeps I m
    → Keeps I (map_err f m)
map_err-Keeps f h = record { keeps = λ s i. map_err-Ensures f (h.keeps s i) }

-- From an equation for the outcome.
pub equal-Ends :
    {S E A : Type 0} (I : S → Type 0) {s : S} (m : Prog S E A) (r : Outcome S E A)
    → m s ≡ r
    → Ends (λ _ t. I t) I r
    → Ends (λ _ t. I t) I (m s)
equal-Ends I m r e h = subst (Ends (λ _ t. I t) I) (sym e) h

-- Of a state of which nothing is asked.
pub any-Keeps : {S E A : Type 0} (m : Prog S E A) → Keeps (λ _. Unit {0}) m
any-Keeps {S} {E} {A} m = Ends-Keeps m λ s _. go (m s)
  where
    go : (r : Outcome S E A) → Ends (λ _ _. Unit {0}) (λ _. Unit {0}) r
    go (ok a t) = tt
    go (err e t) = tt
    go panic = tt
    go hang = tt
