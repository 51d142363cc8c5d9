-- ===== src/Base/Effects.antt =====
-- How a piece of kernel code ends, over the state that it changes: with a result, with an error
-- code (what it did to the state before stays done), in the panic handler, or spinning for ever on
-- a lock that Nobody will release.
use mathlib.Core.Path.{◌≡◌}
use native.Mathlib.Omega.{arith}
use mathlib.Core.Option.{Option, none, some}
use mathlib.Core.Bool.{Bool, true, false}

pub data Outcome (S E A : Type 0) : Type 0 where
  ok : A → S → Outcome S E A
  err : E → S → Outcome S E A
  panic : Outcome S E A
  hang : Outcome S E A

abbrev pub Prog : Type 0 → Type 0 → Type 0 → Type 0
Prog S E A = S → Outcome S E A

infixl 5 ◌>>=◌ ◌>>◌
abbrev pub ◌>>=◌ : {S E A B : Type 0} → Prog S E A → (A → Prog S E B) → Prog S E B
◌>>=◌ m f s = elim (m s) [ ok a s' ↦ f a s' | err e s' ↦ err e s' | panic ↦ panic | hang ↦ hang ]

abbrev pub ◌>>◌ : {S E B : Type 0} → Prog S E (Unit {0}) → Prog S E B → Prog S E B
m >> k = m >>= λ _. k

abbrev pub pure : {S E A : Type 0} → A → Prog S E A
pure a s = ok a s

abbrev pub fail : {S E A : Type 0} → E → Prog S E A
fail e s = err e s

abbrev pub get : {S E : Type 0} → Prog S E S
get s = ok s s

abbrev pub modify : {S E : Type 0} → (S → S) → Prog S E (Unit {0})
modify f s = ok tt (f s)

-- `Option::unwrap` and `expect`.
abbrev pub unwrap : {S E A : Type 0} → Option A → Prog S E A
unwrap none s = panic
unwrap (some a) s = ok a s

-- `Option::ok_or(e)?`.
abbrev pub ok_or : {S E A : Type 0} → Option A → E → Prog S E A
ok_or none e s = err e s
ok_or (some a) e s = ok a s

-- `if !b { return Err(e) }`.
abbrev pub guard : {S E : Type 0} → Bool → E → Prog S E (Unit {0})
guard true e s = ok tt s
guard false e s = err e s

-- `assert!`.
abbrev pub assert : {S E : Type 0} → Bool → Prog S E (Unit {0})
assert true s = ok tt s
assert false s = panic

-- `if b { return Err(e) }`.
abbrev pub fail_if : {S E : Type 0} → Bool → E → Prog S E (Unit {0})
fail_if true e s = err e s
fail_if false e s = ok tt s

-- A method of a part of the state, run on the whole.
abbrev pub zoom : {S T E A : Type 0} → (S → T) → (T → S → S) → Prog T E A → Prog S E A
zoom part put m s = elim (m (part s)) [
  | ok a t ↦ ok a (put t s)
  | err e t ↦ err e (put t s)
  | panic ↦ panic
  | hang ↦ hang
]

-- `map_err`.
abbrev pub map_err : {S E F A : Type 0} → (E → F) → Prog S E A → Prog S F A
map_err f m s = elim (m s) [
  | ok a s' ↦ ok a s'
  | err e s' ↦ err (f e) s'
  | panic ↦ panic
  | hang ↦ hang
]

-- `Result::unwrap` and `expect`.
abbrev pub must : {S E F A : Type 0} → Prog S E A → Prog S F A
must m s = elim (m s) [ ok a s' ↦ ok a s' | err e s' ↦ panic | panic ↦ panic | hang ↦ hang ]

-- Spinning on a lock: on one processor, for ever unless it is granted at once.
abbrev pub spin_until : {S E : Type 0} → Bool → Prog S E (Unit {0})
spin_until true s = ok tt s
spin_until false s = hang

-- How a bind goes on from the outcome of its first part.
pub >>=-ok :
    {S E A B : Type 0} (m : Prog S E A) (f : A → Prog S E B) (s : S) {a : A} {s' : S}
    → m s ≡ ok a s'
    → (m >>= f) s ≡ f a s'
>>=-ok m f s h = ground arith

pub >>=-err :
    {S E A B : Type 0} (m : Prog S E A) (f : A → Prog S E B) (s : S) {e : E} {s' : S}
    → m s ≡ err e s'
    → (m >>= f) s ≡ err e s'
>>=-err m f s h = ground arith

pub >>=-hang :
    {S E A B : Type 0} (m : Prog S E A) (f : A → Prog S E B) (s : S)
    → m s ≡ hang
    → (m >>= f) s ≡ hang
>>=-hang m f s h = ground arith

pub zoom-ok :
    {S T E A : Type 0} (part : S → T) (put : T → S → S) (m : Prog T E A) (s : S) {a : A} {t : T}
    → m (part s) ≡ ok a t
    → zoom part put m s ≡ ok a (put t s)
zoom-ok part put m s h = ground arith
