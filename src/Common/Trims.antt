-- ===== src/Common/Trims.antt =====
-- Laws of `strings.TrimSpace` and `strings.TrimSuffix`.
use Prim.Native.Char.{Char}
use Prim.Native.Nat.{◌+◌}
use Prim.Native.String.{String}
use mathlib.Core.Path.{◌≡◌, refl, ap, ◌∙◌}
use mathlib.Core.Logic.{inl, inr}
use mathlib.Core.Bool.{Bool, true, false, not}
use native.Mathlib.Omega.{arith}
use text.Mathlib.Text.{◌==◌}
use text.Mathlib.TextEquality.{eq_iff}
use text.Mathlib.TextPositions.{eq_refl}
use k8s_ts_mcp.Common.Tests.{Bool-cases}
use k8s_ts_mcp.Common.Texts.{
  cat, size, is_space, trim_left, trim_right, trim_space, trim_suffix, is_nil,
}

-- The first character is no space.
abbrev starts_solid : String → Bool
starts_solid String.[] = true
starts_solid (String.◌∷◌ c s) = not (is_space c)

-- There is no space at either end.
abbrev pub IsTrimmed : String → Type 0
IsTrimmed s = (starts_solid s ≡ true) × (trim_right s ≡ s)

trim_left-solid : (s : String) → starts_solid s ≡ true → trim_left s ≡ s
trim_left-solid String.[] h = refl
trim_left-solid (String.◌∷◌ c s) h = ground arith

pub trim_space-IsTrimmed : (s : String) → IsTrimmed s → trim_space s ≡ s
unfolding trim_space
trim_space-IsTrimmed s (l, r) = ap trim_right (trim_left-solid s l) ∙ r

is_nil-cat : (a s : String) → is_nil s ≡ false → is_nil (cat a s) ≡ false
is_nil-cat String.[] s h = h
is_nil-cat (String.◌∷◌ c a) s h = refl

pub trim_right-cat :
    (a s : String) → is_nil (trim_right s) ≡ false → trim_right (cat a s) ≡ cat a (trim_right s)
trim_right-cat String.[] s h = refl
trim_right-cat (String.◌∷◌ c a) s h =
    let e = trim_right-cat a s h in
    let solid = is_nil-cat a (trim_right s) h in rw e (ground (arith, solid))

pub trim_left-cat : (a b : String) → IsTrimmed a → is_nil a ≡ false → trim_left (cat a b) ≡ cat a b
trim_left-cat String.[] b h given = absurd (cc)
trim_left-cat (String.◌∷◌ c a) b h given = trim_left-solid (String.◌∷◌ c (cat a b)) h.0

pub trim_right-cat_spaces : (a s : String) → trim_right s ≡ "" → trim_right (cat a s) ≡ trim_right a
trim_right-cat_spaces String.[] s h = h
trim_right-cat_spaces (String.◌∷◌ c a) s h = rw (trim_right-cat_spaces a s h) refl

pub trim_space-padded : (k : String) → IsTrimmed k → trim_space (cat " " k) ≡ k
unfolding trim_space is_space
trim_space-padded k h = trim_space-IsTrimmed k h

pub trim_right-padded :
    (k : String) → IsTrimmed k → is_nil k ≡ false → trim_right (cat " " k) ≡ cat " " k
trim_right-padded k (l, r) given = trim_right-cat " " k (ap is_nil r ∙ given) ∙ ap (cat " ") r

pub trim_space-value : (k : String) → IsTrimmed k → trim_space (trim_right (cat " " k)) ≡ k
unfolding trim_space is_space
trim_space-value String.[] h = refl
trim_space-value (String.◌∷◌ c s) h =
    ap trim_space (trim_right-padded (String.◌∷◌ c s) h refl) ∙ trim_space-padded (String.◌∷◌ c s) h

size-cat : (a b : String) → size (cat a b) ≡ size a + size b
size-cat String.[] b = omega arith
size-cat (String.◌∷◌ c a) b = ground (arith, size-cat a b)

longer : (c : Char) (a p : String) → (String.◌∷◌ c (cat a p) == p) ≡ false
longer c a p = elim (Bool-cases (String.◌∷◌ c (cat a p) == p)) [
  | inl same ↦
      let e = ap size ((eq_iff (String.◌∷◌ c (cat a p)) p).0 same) in
      absurd (omega (arith, e, size-cat a p))
  | inr other ↦ other
]

pub trim_suffix-cat : (a p : String) → is_nil p ≡ false → trim_suffix p (cat a p) ≡ a
unfolding trim_suffix
trim_suffix-cat String.[] String.[] h = refl
trim_suffix-cat String.[] (String.◌∷◌ c p) h = rw (eq_refl (String.◌∷◌ c p)) refl
trim_suffix-cat (String.◌∷◌ c a) p h = rw (longer c a p) (ap (String.◌∷◌ c) (trim_suffix-cat a p h))
