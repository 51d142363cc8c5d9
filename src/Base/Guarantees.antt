-- ===== src/Base/Guarantees.antt =====
-- What a piece of kernel code guarantees of its end: `P` of a result and the state with it, `Q` of
-- the state that it leaves with an error, and nothing of a panic or of a wait for ever.
use mathlib.Core.Bool.{Bool, true, false}
use mathlib.Core.Option.{Option, none, some}
use mathlib.Core.Path.{◌≡◌, refl}
use idkernel.Base.Effects.{
  Outcome, ok, err, panic, hang, Prog, ◌>>=◌, pure, get, modify, unwrap, ok_or, guard, assert,
  fail_if, zoom, map_err, must,
}

abbrev pub Ends : {S E A : Type 0} → (A → S → Type 0) → (S → Type 0) → Outcome S E A → Type 0
Ends P Q (ok a t) = P a t
Ends P Q (err e t) = Q t
Ends P Q panic = Unit {0}
Ends P Q hang = Unit {0}

pub record Ensures {S E A : Type 0} (P : A → S → Type 0) (Q : S → Type 0) (s : S) (m : Prog S E A)
    : Type 0 where
  pub ends : Ends P Q (m s)

module _ {S E A : Type 0} (P : A → S → Type 0) (Q : S → Type 0) where
  Ends-map :
      (P' : A → S → Type 0) (Q' : S → Type 0) (r : Outcome S E A)
      → Ends P' Q' r
      → ((a : A) (t : S) → P' a t → P a t)
      → ((t : S) → Q' t → Q t)
      → Ends P Q r
  Ends-map P' Q' (ok a t) h f g = f a t h
  Ends-map P' Q' (err e t) h f g = g t h
  Ends-map P' Q' panic h f g = tt
  Ends-map P' Q' hang h f g = tt

  Ends-bind :
      {B : Type 0} (P' : B → S → Type 0) (r : Outcome S E B) (f : B → Prog S E A)
      → Ends P' Q r
      → ((b : B) (t : S) → P' b t → Ends P Q (f b t))
      → Ends P Q (elim r [ ok a s' ↦ f a s' | err e s' ↦ err e s' | panic ↦ panic | hang ↦ hang ])
  Ends-bind P' (ok b t) f h g = g b t h
  Ends-bind P' (err e t) f h g = h
  Ends-bind P' panic f h g = tt
  Ends-bind P' hang f h g = tt

module _ {S E A : Type 0} {P : A → S → Type 0} {Q : S → Type 0} where
  pub map-Ensures :
      {P' : A → S → Type 0} {Q' : S → Type 0} {s : S} {m : Prog S E A}
      → Ensures P' Q' s m
      → ((a : A) (t : S) → P' a t → P a t)
      → ((t : S) → Q' t → Q t)
      → Ensures P Q s m
  map-Ensures {P'} {Q'} {s} {m} h f g = record { ends = Ends-map P Q P' Q' (m s) h.ends f g }

  pub bind-Ensures :
      {B : Type 0} {P' : B → S → Type 0} {s : S} {m : Prog S E B} {f : B → Prog S E A}
      → Ensures P' Q s m
      → ((b : B) (t : S) → P' b t → Ensures P Q t (f b))
      → Ensures P Q s (m >>= f)
  bind-Ensures {B} {P'} {s} {m} {f} h g = record {
    ends = Ends-bind P Q P' (m s) f h.ends (λ b t p. (g b t p).ends);
  }

  pub pure-Ensures : {s : S} (a : A) → P a s → Ensures {E = E} P Q s (pure a)
  pure-Ensures a p = record { ends = p }

  pub unwrap-Ensures :
      {s : S} (o : Option A) → ((a : A) → o ≡ some a → P a s) → Ensures {E = E} P Q s (unwrap o)
  unwrap-Ensures none h = record { ends = tt }
  unwrap-Ensures (some a) h = record { ends = h a refl }

  pub ok_or-Ensures :
      {s : S} (o : Option A) (e : E)
      → ((a : A) → o ≡ some a → P a s)
      → Q s
      → Ensures P Q s (ok_or o e)
  ok_or-Ensures none e h q = record { ends = q }
  ok_or-Ensures (some a) e h q = record { ends = h a refl }

  pub must-Ensures :
      {F : Type 0} {s : S} {m : Prog S F A} {Q' : S → Type 0}
      → Ensures P Q' s m
      → Ensures {E = E} P Q s (must m)
  must-Ensures {F} {s} {m} {Q'} h = record { ends = go (m s) h.ends }
    where
      go :
          (r : Outcome S F A)
          → Ends P Q' r
          → Ends {E = E} P Q
              (elim r [ ok a s' ↦ ok a s' | err e s' ↦ panic | panic ↦ panic | hang ↦ hang ])
      go (ok a t) p = p
      go (err e t) p = tt
      go panic p = tt
      go hang p = tt

  -- A part of the state: what holds of it there and of the rest.
  pub zoom-Ensures :
      {T : Type 0} (part : S → T) (put : T → S → S) {s : S} {m : Prog T E A}
      → Ensures (λ a t. P a (put t s)) (λ t. Q (put t s)) (part s) m
      → Ensures P Q s (zoom part put m)
  zoom-Ensures {T} part put {s} {m} h = record { ends = go (m (part s)) h.ends }
    where
      go :
          (r : Outcome T E A)
          → Ends (λ a t. P a (put t s)) (λ t. Q (put t s)) r
          → Ends P Q (elim r [
            | ok a t ↦ ok a (put t s)
            | err e t ↦ err e (put t s)
            | panic ↦ panic
            | hang ↦ hang
          ])
      go (ok a t) p = p
      go (err e t) p = p
      go panic p = tt
      go hang p = tt

module _ {S E : Type 0} {P : Unit {0} → S → Type 0} {Q : S → Type 0} {s : S} where
  pub guard-Ensures : (b : Bool) (e : E) → (b ≡ true → P tt s) → Q s → Ensures P Q s (guard b e)
  guard-Ensures true e p q = record { ends = p refl }
  guard-Ensures false e p q = record { ends = q }

  pub fail_if-Ensures :
      (b : Bool) (e : E) → (b ≡ false → P tt s) → Q s → Ensures P Q s (fail_if b e)
  fail_if-Ensures false e p q = record { ends = p refl }
  fail_if-Ensures true e p q = record { ends = q }

  pub assert-Ensures : (b : Bool) → (b ≡ true → P tt s) → Ensures {E = E} P Q s (assert b)
  assert-Ensures true p = record { ends = p refl }
  assert-Ensures false p = record { ends = tt }

  pub modify-Ensures : (f : S → S) → P tt (f s) → Ensures {E = E} P Q s (modify f)
  modify-Ensures f p = record { ends = p }

pub get-Ensures :
    {S E : Type 0} {P : S → S → Type 0} {Q : S → Type 0} {s : S} → P s s → Ensures {E = E} P Q s get
get-Ensures p = record { ends = p }

pub map_err-Ensures :
    {S E F A : Type 0} {P : A → S → Type 0} {Q : S → Type 0} {s : S} (f : E → F) {m : Prog S E A}
    → Ensures P Q s m
    → Ensures P Q s (map_err f m)
map_err-Ensures {S} {E} {F} {A} {P} {Q} {s} f {m} h = record { ends = go (m s) h.ends }
  where
    go :
        (r : Outcome S E A)
        → Ends P Q r
        → Ends P Q
            (elim r [ ok a s' ↦ ok a s' | err e s' ↦ err (f e) s' | panic ↦ panic | hang ↦ hang ])
    go (ok a t) p = p
    go (err e t) p = p
    go panic p = tt
    go hang p = tt

-- From the equations of the two ends.
module _ {S E A : Type 0} {P : A → S → Type 0} {Q : S → Type 0} where
  pub ends-Ensures :
      (s : S) (m : Prog S E A)
      → ((a : A) (t : S) → m s ≡ ok a t → P a t)
      → ((e : E) (t : S) → m s ≡ err e t → Q t)
      → Ensures P Q s m
  ends-Ensures s m f g = record { ends = go (m s) refl }
    where
      go : (r : Outcome S E A) → m s ≡ r → Ends P Q r
      go (ok a t) e = f a t e
      go (err x t) e = g x t e
      go panic e = tt
      go hang e = tt
