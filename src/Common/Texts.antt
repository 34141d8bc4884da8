-- ===== src/Common/Texts.antt =====
-- Go's packages strings and unicode, as far as the components share them, on texts that are valid
-- UTF-8.
use Prim.Native.Nat.{ℕ, zero, suc}
use Prim.Native.Char.{Char, code}
use Prim.Native.String.{String}
use mathlib.Core.Bool.{Bool, true, false, ◌&&◌, ◌||◌}
use mathlib.Core.Option.{Option, none, some}
use mathlib.Core.List.{List, [], ◌∷◌}
use text.Mathlib.Text.{◌==◌}
use k8s_ts_mcp.Common.Tests.{eqb, leb, if◌then◌else◌}

-- The tables of package unicode.
pub record Unicode : Type 0 where
  pub lower_char : Char → Char
  pub is_letter : Char → Bool
  pub is_digit : Char → Bool

abbrev pub same_char : Char → Char → Bool
same_char c d = eqb (code c) (code d)

-- `s + t`, by clauses.
abbrev pub cat : String → String → String
cat String.[] t = t
cat (String.◌∷◌ c s) t = String.◌∷◌ c (cat s t)

abbrev pub size : String → ℕ
size String.[] = 0
size (String.◌∷◌ c s) = suc (size s)

abbrev pub size_of_rest : String → ℕ
size_of_rest String.[] = 0
size_of_rest (String.◌∷◌ c s) = size s

abbrev within : ℕ → ℕ → ℕ → Bool
within low high n = leb low n && leb n high

-- `unicode.IsSpace`.
abbrev space_code : ℕ → Bool
space_code n =
    within 9 13 n
    || eqb n 32
    || eqb n 133
    || eqb n 160
    || eqb n 5760
    || within 8192 8202 n
    || within 8232 8233 n
    || eqb n 8239
    || eqb n 8287
    || eqb n 12288

unfoldable pub is_space : Char → Bool
is_space c = space_code (code c)

abbrev pub trim_left : String → String
trim_left String.[] = ""
trim_left (String.◌∷◌ c s) = let rest = trim_left s in if is_space c then rest else String.◌∷◌ c s

abbrev pub is_nil : String → Bool
is_nil String.[] = true
is_nil (String.◌∷◌ c s) = false

abbrev pub trim_right : String → String
trim_right String.[] = ""
trim_right (String.◌∷◌ c s) =
    let rest = trim_right s in if is_space c && is_nil rest then "" else String.◌∷◌ c rest

-- `strings.TrimSpace`.
unfoldable pub trim_space : String → String
trim_space s = trim_right (trim_left s)

-- `strings.CutPrefix`.
unfoldable pub cut_prefix : String → String → Option String
cut_prefix String.[] s = some s
cut_prefix (String.◌∷◌ p prefix) String.[] = none
cut_prefix (String.◌∷◌ p prefix) (String.◌∷◌ c s) =
    let rest = cut_prefix prefix s in if same_char p c then rest else none

abbrev pub has_cut : Option String → Bool
has_cut none = false
has_cut (some s) = true

abbrev pub cut_or : String → Option String → String
cut_or s none = s
cut_or s (some rest) = rest

unfoldable pub has_prefix : String → String → Bool
has_prefix prefix s = has_cut (cut_prefix prefix s)

unfoldable pub trim_prefix : String → String → String
trim_prefix prefix s = cut_or s (cut_prefix prefix s)

abbrev pub cons_unless : Bool → Char → String → String
cons_unless true c s = ""
cons_unless false c s = String.◌∷◌ c s

unfoldable pub trim_suffix : String → String → String
trim_suffix suffix String.[] = ""
trim_suffix suffix (String.◌∷◌ c s) =
    cons_unless (String.◌∷◌ c s == suffix) c (trim_suffix suffix s)

unfoldable pub text_contains : String → String → Bool
text_contains String.[] part = part == ""
text_contains (String.◌∷◌ c s) part = has_prefix part (String.◌∷◌ c s) || text_contains s part

abbrev pub cons_first : Char → List String → List String
cons_first c [] = String.◌∷◌ c "" ∷ []
cons_first c (part ∷ parts) = String.◌∷◌ c part ∷ parts

-- `split_from sep skip s`: the parts of what is left after `skip` characters of a separator.
unfoldable pub split_from : String → ℕ → String → List String
split_from sep skip String.[] = "" ∷ []
split_from sep (suc skip) (String.◌∷◌ c s) = split_from sep skip s
split_from sep zero (String.◌∷◌ c s) = elim (has_prefix sep (String.◌∷◌ c s)) [
  | true ↦ "" ∷ split_from sep (size_of_rest sep) s
  | false ↦ cons_first c (split_from sep 0 s)
]

-- `strings.Split(s, sep)`, where `sep` is not empty.
unfoldable pub split : String → String → List String
split sep s = split_from sep 0 s

abbrev pub onto : String → String → List String → String
onto sep part [] = part
onto sep part (next ∷ parts) = cat part (cat sep (onto sep next parts))

-- `strings.Join(parts, sep)`.
unfoldable pub join : String → List String → String
join sep [] = ""
join sep (part ∷ parts) = onto sep part parts

abbrev later_cut : Char → Option (String × String) → Option (String × String)
later_cut c none = none
later_cut c (some (before, after)) = some (String.◌∷◌ c before, after)

-- `strings.Cut(s, sep)`, where `sep` is not empty.
unfoldable pub cut : String → String → Option (String × String)
cut sep String.[] = none
cut sep (String.◌∷◌ c s) =
    let rest = cut sep s in
    elim (cut_prefix sep (String.◌∷◌ c s)) [
      | some after ↦ some ("", after)
      | none ↦ later_cut c rest
    ]

-- `strings.TrimRight(s, cutset)`, where the set is the one character.
unfoldable pub trim_right_of : Char → String → String
trim_right_of d String.[] = ""
trim_right_of d (String.◌∷◌ c s) =
    let rest = trim_right_of d s in if same_char d c && is_nil rest then "" else String.◌∷◌ c rest

-- The loop over the parts of a list with commas: each part without the spaces around it, if
-- anything is left.
abbrev pub trimmed_parts : List String → List String
trimmed_parts [] = []
trimmed_parts (p ∷ parts) =
    let rest = trimmed_parts parts in let q = trim_space p in if q == "" then rest else q ∷ rest

abbrev push_word : Char → Bool → List String → List String
push_word c true words = cons_first c words
push_word c false words = String.◌∷◌ c "" ∷ words

module _ (unicode : Unicode) where
  open unicode use {lower_char, is_letter, is_digit}

  -- `strings.ToLower`.
  unfoldable pub to_lower : String → String
  to_lower String.[] = ""
  to_lower (String.◌∷◌ c s) = String.◌∷◌ (lower_char c) (to_lower s)

  abbrev pub in_word : Char → Bool
  in_word c = is_letter c || is_digit c

  abbrev starts_in_word : String → Bool
  starts_in_word String.[] = false
  starts_in_word (String.◌∷◌ c s) = in_word c

  -- `strings.FieldsFunc`, of what is neither a letter nor a digit.
  unfoldable pub words : String → List String
  words String.[] = []
  words (String.◌∷◌ c s) =
      let rest = words s in if in_word c then push_word c (starts_in_word s) rest else rest
