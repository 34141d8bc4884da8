-- ===== src/Common/Errors.antt =====
-- Go's error values: what `fmt.Errorf` is given, the errors of other packages by their text, and the
-- pairs `(value, error)` that a call returns.
use Prim.Native.Nat.{ℕ}
use Prim.Native.String.{String}
use mathlib.Core.Path.{◌≡◌, refl, ap}
use mathlib.Core.Bool.{Bool, true, false, ◌||◌}
use mathlib.Core.Option.{Option}
use native.Mathlib.Omega.{arith}

-- `foreign` is an error of a package outside the repository, `not_found` the API server's.
mutual
  pub data Error : Type 0 where
    foreign : String → Error
    not_found : String → Error
    errorf : String → Args → Error

  pub data Args : Type 0 where
    end : Args
    str : String → Args → Args
    num : ℕ → Args → Args
    cause : Error → Args → Args

-- `apierrors.IsNotFound`, which looks through the errors that a message wraps.
mutual
  is_not_found_error : Error → Bool
  is_not_found_error (foreign s) = false
  is_not_found_error (not_found s) = true
  is_not_found_error (errorf f args) = is_not_found_args args

  is_not_found_args : Args → Bool
  is_not_found_args end = false
  is_not_found_args (str s r) = is_not_found_args r
  is_not_found_args (num n r) = is_not_found_args r
  is_not_found_args (cause e r) = is_not_found_error e || is_not_found_args r

unfoldable pub is_not_found : Error → Bool
unfolding is_not_found_error is_not_found_args
is_not_found e = is_not_found_error e

-- `err.Error()`, over `fmt.Sprintf`.
abbrev pub error_text : (String → Args → String) → Error → String
error_text sprintf (foreign s) = s
error_text sprintf (not_found s) = s
error_text sprintf (errorf f args) = sprintf f args

pub data Result {ℓ} (A : Type ℓ) : Type ℓ where
  ok : A → Result A
  err : Error → Result A

-- A call that may change the world and that returns a value or an error.
abbrev pub Call : Type 0 → Type 0 → Type 0
Call W A = W → Result A × W

-- A call whose value is read beside its error.
abbrev pub CallBoth : Type 0 → Type 0 → Type 0
CallBoth W A = W → (A × Option Error) × W

abbrev pub continue {ℓ} :
    {W : Type 0} {A : Type 0} {B : Type ℓ} → Result A × W → (A → W → B) → (Error → W → B) → B
continue (ok a, w) good bad = good a w
continue (err e, w) good bad = bad e w

infixl 10 ◌>>=◌ ◌>>◌
abbrev pub ◌>>=◌ : {W A B : Type 0} → Call W A → (A → Call W B) → Call W B
◌>>=◌ m f w = continue (m w) f (λ e w'. (err e, w'))

abbrev pub ◌>>◌ : {W A B : Type 0} → Call W A → Call W B → Call W B
m >> n = m >>= λ _. n

abbrev pub pure : {W A : Type 0} → A → Call W A
pure a w = (ok a, w)

abbrev pub raise : {W A : Type 0} → Error → Call W A
raise e w = (err e, w)

-- `if err != nil { return …, fmt.Errorf("…: %w", …, err) }`.
abbrev pub wrap_err : {W A : Type 0} → (Error → Error) → Call W A → Call W A
wrap_err f m w = continue (m w) (λ a w'. (ok a, w')) (λ e w'. (err (f e), w'))

-- A chain of calls succeeds only where its first call does.
pub bind-ok :
    {W A B : Type 0} (r : Result A × W) (f : A → Call W B) (b : B) (w' : W)
    → continue r f (λ e w. (err e, w)) ≡ (ok b, w')
    → (a : A) × (w : W) × (r ≡ (ok a, w)) × (f a w ≡ (ok b, w'))
bind-ok (ok a, w) f b w' e = (a, w, refl, e)
bind-ok (err x, w) f b w' e = ground arith

-- The same of a call whose error is given a message.
pub wrap_err-ok :
    {W A : Type 0} (g : Error → Error) (r : Result A × W) (a : A) (w : W)
    → continue {B = Result A × W} r (λ a w. (ok a, w)) (λ e w. (err (g e), w)) ≡ (ok a, w)
    → r ≡ (ok a, w)
wrap_err-ok g (ok a', w') a w e = e
wrap_err-ok g (err x, w') a w e = ground arith

-- Chains whose continuations agree agree.
pub continue_same :
    {W A B : Type 0} (r : Result A × W) (f f' : A → W → B) (g : Error → W → B)
    → ((a : A) (w : W) → f a w ≡ f' a w)
    → continue r f g ≡ continue r f' g
continue_same (ok a, w) f f' g h = h a w
continue_same (err e, w) f f' g h = refl

-- The answer that is given in place of an error.
abbrev or_else {ℓ} : {A : Type ℓ} → A → Result A → A
or_else a (ok b) = b
or_else a (err e) = a

pub ok_injective :
    {W A : Type 0} (a a' : A) (w w' : W)
    → ◌≡◌ {A = Result A × W} (ok a, w) (ok a', w')
    → (a ≡ a') × (w ≡ w')
ok_injective a a' w w' h = (ap (λ r. or_else a r.0) h, ap (λ r. r.1) h)
