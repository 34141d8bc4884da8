-- ===== src/Common/Ensures.antt =====
-- What holds of the value of a call that succeeds.
use mathlib.Core.Path.{◌≡◌, refl, subst}
use native.Mathlib.Omega.{arith}
use mathlib.Core.Bool.{Bool, true, false}
use k8s_ts_mcp.Common.Tests.{if◌then◌else◌}
use k8s_ts_mcp.Common.Errors.{
  Error, Result, ok, err, Call, ◌>>=◌, pure, raise, wrap_err, bind-ok, wrap_err-ok, ok_injective,
}

-- Whenever the call succeeds, its value has the property.
pub record Ensures {W A : Type 0} (m : Call W A) (P : A → Type 0) : Type 0 where
  pub holds : (w : W) (a : A) (w' : W) → m w ≡ (ok a, w') → P a

raise_fails :
    {W A : Type 0} (x : Error) (w : W) (b : A) (w' : W)
    → ◌≡◌ {A = Result A × W} (err x, w) (ok b, w')
    → ⊥
raise_fails x w b w' e = ground arith

module _ {W A : Type 0} where
  pub Ensures-pure : (P : A → Type 0) (a : A) → P a → Ensures {W = W} {A = A} (pure a) P
  Ensures-pure P a h = record { holds = λ w b w' e. subst P (ok_injective a b w w' e).0 h }

  pub Ensures-raise : (P : A → Type 0) (x : Error) → Ensures {W = W} {A = A} (raise x) P
  Ensures-raise P x = record { holds = λ w b w' e. absurd (raise_fails x w b w' e) }

  pub Ensures-wrap_err :
      (P : A → Type 0) (g : Error → Error) (m : Call W A) → Ensures m P → Ensures (wrap_err g m) P
  Ensures-wrap_err P g m h = record {
    holds = λ w a w' e. h.holds w a w' (wrap_err-ok g (m w) a w' e);
  }

  pub Ensures-if :
      (P : A → Type 0) (b : Bool) (m n : Call W A)
      → (b ≡ true → Ensures m P)
      → (b ≡ false → Ensures n P)
      → Ensures (if b then m else n) P
  Ensures-if P true m n h g = h refl
  Ensures-if P false m n h g = g refl

-- The call gives the value in some world.
abbrev pub Gives : {W A : Type 0} → Call W A → A → Type 0
Gives {W} m a = (w : W) × (w' : W) × (m w ≡ (ok a, w'))

pub Ensures-Gives : {W A : Type 0} (m : Call W A) → Ensures m (Gives m)
Ensures-Gives m = record { holds = λ w a w' e. (w, w', e) }

module _ {W A B : Type 0} where
  pub Ensures-bind :
      (m : Call W A) (f : A → Call W B) (P : A → Type 0) (Q : B → Type 0)
      → Ensures m P
      → ((a : A) → P a → Ensures (f a) Q)
      → Ensures (m >>= f) Q
  Ensures-bind m f P Q hm hf = record {
    holds = λ w b w'' e.
        let (a, w', first, rest) = bind-ok (m w) f b w'' e in
        (hf a (hm.holds w a w' first)).holds w' b w'' rest;
  }

  pub Ensures-after :
      (m : Call W A) (f : A → Call W B) (Q : B → Type 0)
      → ((a : A) → Ensures (f a) Q)
      → Ensures (m >>= f) Q
  Ensures-after m f Q hf =
      Ensures-bind m f (λ _. Unit) Q (record { holds = λ w a w' e. tt }) (λ a _. hf a)

-- The same with the world that the call begins in and the one that it leaves.
pub record After {W A : Type 0} (m : Call W A) (w : W) (Q : A → W → Type 0) : Type 0 where
  pub holds : (a : A) (w' : W) → m w ≡ (ok a, w') → Q a w'

pub After-pure :
    {W A : Type 0} (a : A) (w : W) (Q : A → W → Type 0) → Q a w → After {W = W} {A = A} (pure a) w Q
After-pure a w Q h = record {
  holds = λ b w' e.
      let (same, still) = ok_injective a b w w' e in
      subst (λ v. Q b v) still (subst (λ c. Q c w) same h);
}

pub After-bind :
    {W A B : Type 0} (m : Call W A) (f : A → Call W B) (w : W) (Q : B → W → Type 0)
    → ((a : A) (w' : W) → m w ≡ (ok a, w') → After (f a) w' Q)
    → After (m >>= f) w Q
After-bind m f w Q h = record {
  holds = λ b w'' e.
      let (a, w', first, rest) = bind-ok (m w) f b w'' e in (h a w' first).holds b w'' rest;
}
