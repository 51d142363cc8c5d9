-- ===== src/Base/Completion.antt =====
-- What a piece of kernel code does for sure: it ends with a result, of which `P` holds with the
-- state after it.
use mathlib.Core.Bool.{Bool, true}
use mathlib.Core.Option.{Option, some}
use mathlib.Core.Path.{◌≡◌, refl, sym, subst, ◌∙◌}
use native.Mathlib.Omega.{arith}
use idkernel.Base.Effects.{ok, Prog, ◌>>=◌, >>=-ok, pure, get, modify, unwrap, assert, zoom}

pub record Completes {S E A : Type 0} (P : A → S → Type 0) (s : S) (m : Prog S E A) : Type 0 where
  pub result : A
  pub after : S
  pub ends : m s ≡ ok result after
  pub holds : P result after

module _ {S E A : Type 0} {P : A → S → Type 0} where
  pub bind-Completes :
      {B : Type 0} {P' : B → S → Type 0} {s : S} {m : Prog S E B} {f : B → Prog S E A}
      → Completes P' s m
      → ((b : B) (t : S) → P' b t → Completes P t (f b))
      → Completes P s (m >>= f)
  bind-Completes {B} {P'} {s} {m} {f} h g =
      let next : Completes P h.after (f h.result) = g h.result h.after h.holds in
      record {
        result = next.result;
        after = next.after;
        ends = >>=-ok m f s h.ends ∙ next.ends;
        holds = next.holds;
      }

  pub pure-Completes : {s : S} (a : A) → P a s → Completes {E = E} P s (pure a)
  pure-Completes {s} a p = record { result = a; after = s; ends = refl; holds = p }

  pub unwrap-Completes :
      {s : S} (o : Option A) (a : A) → o ≡ some a → P a s → Completes {E = E} P s (unwrap o)
  unwrap-Completes {s} o a e p = record {
    result = a;
    after = s;
    ends = ground (arith, e);
    holds = p;
  }

  pub map-Completes :
      {P' : A → S → Type 0} {s : S} {m : Prog S E A}
      → Completes P' s m
      → ((a : A) (t : S) → P' a t → P a t)
      → Completes P s m
  map-Completes h f = record {
    result = h.result;
    after = h.after;
    ends = h.ends;
    holds = f h.result h.after h.holds;
  }

  pub zoom-Completes :
      {T : Type 0} (part : S → T) (put : T → S → S) {s : S} {m : Prog T E A}
      → Completes (λ a t. P a (put t s)) (part s) m
      → Completes P s (zoom part put m)
  zoom-Completes {T} part put {s} {m} h = record {
    result = h.result;
    after = put h.after s;
    ends = ground (arith, h.ends);
    holds = h.holds;
  }

  -- The first part has one end, and leaves the state.
  pub step-Completes :
      {B : Type 0} {b : B} {s : S} {m : Prog S E B} {f : B → Prog S E A}
      → Completes (λ c t. (c ≡ b) × (t ≡ s)) s m
      → ((c : B) → c ≡ b → Completes P s (f c))
      → Completes P s (m >>= f)
  step-Completes {B} {b} {s} {m} {f} e h =
      bind-Completes {m = m} e λ c t q. subst (λ u. Completes P u (f c)) (sym q.1) (h c q.0)

  pub modify_bind-Completes :
      {s : S} (f : S → S) {m : Unit {0} → Prog S E A}
      → ((u : Unit {0}) → Completes P (f s) (m u))
      → Completes P s (modify f >>= m)
  modify_bind-Completes f h = record {
    result = (h tt).result;
    after = (h tt).after;
    ends = (h tt).ends;
    holds = (h tt).holds;
  }

module _ {S E : Type 0} {P : Unit {0} → S → Type 0} {s : S} where
  pub assert-Completes : (b : Bool) → b ≡ true → P tt s → Completes {E = E} P s (assert b)
  assert-Completes b e p = record { result = tt; after = s; ends = ground (arith, e); holds = p }

  pub modify-Completes : (f : S → S) → P tt (f s) → Completes {E = E} P s (modify f)
  modify-Completes f p = record { result = tt; after = f s; ends = refl; holds = p }

pub get-Completes : {S E : Type 0} {s : S} → Completes {E = E} (λ c t. (c ≡ s) × (t ≡ s)) s get
get-Completes {s = s} = record { result = s; after = s; ends = refl; holds = (refl, refl) }
