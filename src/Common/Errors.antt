-- ===== src/Common/Errors.antt =====
-- Go's `error` values: `none` where the source returns nil.
use Prim.Native.Nat.{ℕ}
use Prim.Native.String.{String}
use mathlib.Core.Path.{◌≡◌, refl}
use mathlib.Core.Logic.{◌⊎◌, inl, inr}

pub data Error : Type 0 where
  -- an error that the operating system or a library returned
  external : ℕ → Error
  -- `errors.New(s)`
  message : String → Error
  -- `fmt.Errorf("s: %w", err)`
  because : String → Error → Error
  -- `fmt.Errorf("s: %w (output: %s)", err, output)`
  with_output : String → Error → String → Error

pub data Result {ℓ} (A : Type ℓ) : Type ℓ where
  ok : A → Result A
  err : Error → Result A

pub Result-cases {ℓ} :
    {A : Type ℓ} (r : Result A) → ((a : A) × (r ≡ ok a)) ⊎ ((e : Error) × (r ≡ err e))
Result-cases (ok a) = inl (a, refl)
Result-cases (err e) = inr (e, refl)

-- What a call comes to: it returns, it panics, or it waits for ever.
pub data Outcome {ℓ} (A : Type ℓ) : Type ℓ where
  returned : A → Outcome A
  panicked : Outcome A
  blocked : Outcome A

infixl 5 ◌>>=◌
abbrev pub ◌>>=◌ {ℓ κ} : {A : Type ℓ} {B : Type κ} → Outcome A → (A → Outcome B) → Outcome B
returned a >>= f = f a
panicked >>= f = panicked
blocked >>= f = blocked

-- The call returns, and the predicate holds of what it returns.
abbrev pub Returns {ℓ} : {A : Type ℓ} → (A → Type 0) → Outcome A → Type 0
Returns P (returned x) = P x
Returns P panicked = ⊥
Returns P blocked = ⊥

pub Returns-map {ℓ} :
    {A : Type ℓ} (P Q : A → Type 0) (o : Outcome A)
    → Returns P o
    → ((x : A) → P x → Q x)
    → Returns Q o
Returns-map P Q (returned x) h k = k x h
Returns-map P Q panicked h k = absurd h
Returns-map P Q blocked h k = absurd h

pub Returns-bind {ℓ κ} :
    {A : Type ℓ} {B : Type κ} (P : A → Type 0) (Q : B → Type 0) (o : Outcome A) (f : A → Outcome B)
    → Returns P o
    → ((x : A) → P x → Returns Q (f x))
    → Returns Q (o >>= f)
Returns-bind P Q (returned x) f h k = k x h
Returns-bind P Q panicked f h k = absurd h
Returns-bind P Q blocked f h k = absurd h

-- A call that returns gives a result.
pub Returns-cases {ℓ} :
    {A : Type ℓ} (P : A → Type 0) (o : Outcome A) → Returns P o → (x : A) × (o ≡ returned x) × P x
Returns-cases P (returned x) h = (x, refl, h)
Returns-cases P panicked h = absurd h
Returns-cases P blocked h = absurd h

-- The predicate holds of what the call returns; `bad` holds if it does not return.
abbrev pub Ends {ℓ} : {A : Type ℓ} → Type 0 → (A → Type 0) → Outcome A → Type 0
Ends bad P (returned x) = P x
Ends bad P panicked = bad
Ends bad P blocked = bad

pub Ends-bind {ℓ κ} :
    {A : Type ℓ} {B : Type κ} (bad : Type 0) (P : A → Type 0) (Q : B → Type 0) (o : Outcome A)
    (f : A → Outcome B)
    → Ends bad P o
    → ((x : A) → P x → Ends bad Q (f x))
    → Ends bad Q (o >>= f)
Ends-bind bad P Q (returned x) f h k = k x h
Ends-bind bad P Q panicked f h k = h
Ends-bind bad P Q blocked f h k = h

pub Returns-Ends {ℓ} :
    {A : Type ℓ} (bad : Type 0) (P : A → Type 0) (o : Outcome A) → Returns P o → Ends bad P o
Returns-Ends bad P (returned x) h = h
Returns-Ends bad P panicked h = absurd h
Returns-Ends bad P blocked h = absurd h

pub Ends-Returns {ℓ} : {A : Type ℓ} (P : A → Type 0) (o : Outcome A) → Ends ⊥ P o → Returns P o
Ends-Returns P (returned x) h = h
Ends-Returns P panicked h = h
Ends-Returns P blocked h = h

pub Ends-eq {ℓ} :
    {A : Type ℓ} (bad : Type 0) (P : A → Type 0) (o : Outcome A) (x : A)
    → o ≡ returned x
    → Ends bad P o
    → P x
Ends-eq bad P o x e h = rw e at h

pub Ends-map {ℓ} :
    {A : Type ℓ} (bad : Type 0) (P Q : A → Type 0) (o : Outcome A)
    → Ends bad P o
    → ((x : A) → P x → Q x)
    → Ends bad Q o
Ends-map bad P Q (returned x) h k = k x h
Ends-map bad P Q panicked h k = h
Ends-map bad P Q blocked h k = h

-- what holds of every result that the call can have
pub Ends-if {ℓ} :
    {A : Type ℓ} (P : A → Type 0) (o : Outcome A)
    → ((x : A) → o ≡ returned x → P x)
    → Ends (Unit {0}) P o
Ends-if P (returned x) h = h x refl
Ends-if P panicked h = tt
Ends-if P blocked h = tt
