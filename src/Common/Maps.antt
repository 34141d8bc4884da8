-- ===== src/Common/Maps.antt =====
-- Go maps with text keys, as association lists: a write replaces, a delete removes every copy.
use Prim.Native.String.{String}
use mathlib.Core.Path.{◌≡◌, refl}
use mathlib.Core.Option.{Option, none, some}
use mathlib.Core.List.{List, [], ◌∷◌}
use native.Mathlib.Omega.{arith}
use text.Mathlib.Text.{◌==◌}
use text.Mathlib.TextEquality.{eq_iff}
use k8s_ts_mcp.Common.Tests.{if◌then◌else◌}

abbrev pub Map {ℓ} : Type ℓ → Type ℓ
Map V = List (String × V)

module _ {ℓ} {V : Type ℓ} where
  unfoldable pub lookup : String → Map V → Option V
  lookup key [] = none
  lookup key ((at, held) ∷ entries) = if at == key then some held else lookup key entries

  unfoldable pub insert : String → V → Map V → Map V
  insert key value [] = (key, value) ∷ []
  insert key value ((at, held) ∷ entries) =
      let rest = insert key value entries in
      if at == key then (key, value) ∷ entries else (at, held) ∷ rest

  pub lookup-insert :
      (entries : Map V) (value : V) (key other : String)
      → lookup other (insert key value entries)
        ≡ (if key == other then some value else lookup other entries)
  unfolding insert lookup
  lookup-insert [] value key other = refl
  lookup-insert ((at, held) ∷ entries) value key other = ground (
    arith,
    lookup-insert entries value key other,
    eq_iff at other,
    eq_iff at key,
    eq_iff key other,
  )

  unfoldable pub delete : String → Map V → Map V
  delete key [] = []
  delete key ((at, held) ∷ entries) =
      let rest = delete key entries in if at == key then rest else (at, held) ∷ rest

  pub lookup-delete :
      (entries : Map V) (key other : String)
      → lookup other (delete key entries) ≡ (if key == other then none else lookup other entries)
  unfolding delete lookup
  lookup-delete [] key other = ground arith
  lookup-delete ((at, held) ∷ entries) key other =
      ground
        (arith, lookup-delete entries key other, eq_iff at key, eq_iff key other, eq_iff at other)

  -- The loop `for _, x := range xs { m[key(x)] = value(x) }`.
  unfoldable pub insert_all {κ} : {A : Type κ} → (A → String) → (A → V) → List A → Map V → Map V
  unfolding insert
  insert_all key value [] m = m
  insert_all key value (x ∷ xs) m = insert_all key value xs (insert (key x) (value x) m)

  -- The last element with the key, else what came before.
  abbrev pub last_with {κ} :
      {A : Type κ} → (A → String) → (A → V) → String → List A → Option V → Option V
  last_with key value k [] before = before
  last_with key value k (x ∷ xs) before =
      last_with key value k xs (if key x == k then some (value x) else before)

  pub lookup-insert_all {κ} :
      {A : Type κ} (key : A → String) (value : A → V) (k : String) (xs : List A) (m : Map V)
      → lookup k (insert_all key value xs m) ≡ last_with key value k xs (lookup k m)
  unfolding insert_all
  lookup-insert_all key value k [] m = refl
  lookup-insert_all key value k (x ∷ xs) m =
      rw
        (
          lookup-insert_all key value k xs (insert (key x) (value x) m),
          lookup-insert m (value x) (key x) k,
        )
        refl
