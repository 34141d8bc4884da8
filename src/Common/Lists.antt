-- ===== src/Common/Lists.antt =====
-- Lists measured by native numbers, and the searches that the code writes as loops.
use Prim.Native.Nat.{ℕ, suc, ◌+◌}
use Prim.Native.String.{String}
use mathlib.Core.Path.{◌≡◌}
use mathlib.Core.Bool.{Bool, true, false, ◌||◌}
use mathlib.Core.Option.{Option, none, some}
use mathlib.Core.List.{List, [], ◌∷◌, ◌++◌}
use native.Mathlib.Omega.{arith}
use text.Mathlib.Text.{◌==◌}
use mathlib.Core.Logic.{inl, inr}
use k8s_ts_mcp.Common.Tests.{if◌then◌else◌, Bool-cases}

module _ {ℓ} {A : Type ℓ} where
  abbrev pub length : List A → ℕ
  length [] = 0
  length (x ∷ xs) = suc (length xs)

  -- Every element has the property.
  abbrev pub All {κ} : (A → Type κ) → List A → Type κ
  All P [] = Unit
  All P (x ∷ xs) = P x × All P xs

  -- The loop `for _, x := range xs { if p(x) { return x, true } }`.
  unfoldable pub find : (A → Bool) → List A → Option A
  find p [] = none
  find p (x ∷ xs) = if p x then some x else find p xs

  -- The loop `for _, x := range xs { if p(x) { out = append(out, x) } }`.
  unfoldable pub select : (A → Bool) → List A → List A
  select p [] = []
  select p (x ∷ xs) = let rest = select p xs in if p x then x ∷ rest else rest

  unfoldable pub any : (A → Bool) → List A → Bool
  any p [] = false
  any p (x ∷ xs) = p x || any p xs

  pub length-append : (xs ys : List A) → length (xs ++ ys) ≡ length xs + length ys
  length-append [] ys = omega arith
  length-append (x ∷ xs) ys = omega (arith, length-append xs ys)

module _ {ℓ κ} {A : Type ℓ} (P : A → Type κ) (test : A → Bool) where
  -- What a search finds has what all the elements have.
  pub find-All : (xs : List A) (x : A) → All P xs → find test xs ≡ some x → P x
  unfolding find
  find-All [] x h e = cc
  find-All (y ∷ ys) x (h, hs) e = elim (Bool-cases (test y)) [
    | inl hit ↦ let p : y ≡ x = ground arith in rw p at h
    | inr miss ↦ find-All ys x hs (ground arith)
  ]

module _ {ℓ} {A : Type ℓ} (test : A → Bool) where
  -- What a search finds passes the test.
  pub find-test : (xs : List A) (x : A) → find test xs ≡ some x → test x ≡ true
  unfolding find
  find-test [] x e = cc
  find-test (y ∷ ys) x e = elim (Bool-cases (test y)) [
    | inl hit ↦ let p : y ≡ x = ground arith in rw p at hit
    | inr miss ↦ find-test ys x (ground arith)
  ]

unfoldable pub contains : String → List String → Bool
contains s [] = false
contains s (x ∷ xs) = x == s || contains s xs
