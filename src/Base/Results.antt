-- ===== src/Base/Results.antt =====
-- What a Go function of type `(T, error)` gives: a value, an error with its message, or a panic.
use Prim.Native.String.{String}
use mathlib.Core.Path.{◌≡◌, refl}
use tmctl.Base.Strings.{◌<>◌}

pub data Result {ℓ} (A : Type ℓ) : Type ℓ where
  ok : A → Result A
  err : String → Result A
  panic : Result A

infixl 5 ◌>>=◌ ◌>>◌
abbrev pub ◌>>=◌ {ℓ κ} : {A : Type ℓ} {B : Type κ} → Result A → (A → Result B) → Result B
ok a >>= f = f a
err e >>= f = err e
panic >>= f = panic

abbrev pub ◌>>◌ {ℓ κ} : {A : Type ℓ} {B : Type κ} → Result A → Result B → Result B
m >> k = m >>= λ _. k

-- `fmt.Errorf("…: %w", err)`
abbrev pub wrap {ℓ} : {A : Type ℓ} → String → Result A → Result A
wrap context (ok a) = ok a
wrap context (err e) = err (context <> ": " <> e)
wrap context panic = panic

-- A chain that gives a value has a value at each of its steps.
pub >>=-ok {ℓ κ} :
    {A : Type ℓ} {B : Type κ} {b : B} (step : Result A) (next : A → Result B)
    → (step >>= next) ≡ ok b
    → (a : A) × (next a ≡ ok b) × (step ≡ ok a)
>>=-ok (ok a) next h = (a, h, refl)
>>=-ok (err e) next h = cc
>>=-ok panic next h = cc

pub wrap-ok {ℓ} :
    {A : Type ℓ} {a : A} (context : String) (r : Result A) → wrap context r ≡ ok a → r ≡ ok a
wrap-ok context (ok a) h = h
wrap-ok context (err e) h = cc
wrap-ok context panic h = cc
