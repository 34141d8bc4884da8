-- ===== src/Common/TextLaws.antt =====
-- Laws of the functions of package strings.
use Prim.Native.Char.{Char, code}
use Prim.Native.String.{String, ◌++◌ as append_text}
use mathlib.Core.Path.{◌≡◌, refl, ap, ◌∙◌}
use mathlib.Core.Logic.{inl, inr}
use mathlib.Core.Bool.{Bool, true, false}
use mathlib.Core.Option.{some}
use mathlib.Core.List.{List, [], ◌∷◌}
use native.Mathlib.Omega.{arith}
use text.Mathlib.TextEquality.{Char-path}
use text.Mathlib.TextLemmas.{nil-append, cons-append}
use k8s_ts_mcp.Common.Tests.{if◌then◌else◌, eqb→eq, Bool-cases}
use k8s_ts_mcp.Common.Texts.{
  same_char, cat, size, size_of_rest, has_cut, cut_or, cut_prefix, has_prefix, trim_prefix,
  cons_first, split_from, split, join,
}

pub append_text-cat : (s t : String) → append_text s t ≡ cat s t
append_text-cat String.[] t = nil-append t
append_text-cat (String.◌∷◌ c s) t = cons-append c s t ∙ ap (String.◌∷◌ c) (append_text-cat s t)

pub cat_assoc : (a b c : String) → cat (cat a b) c ≡ cat a (cat b c)
cat_assoc String.[] b c = refl
cat_assoc (String.◌∷◌ x a) b c = ap (String.◌∷◌ x) (cat_assoc a b c)

same_char_sym : (c d : Char) → same_char c d ≡ same_char d c
same_char_sym c d = ground arith

-- No character of a text is `d`.
abbrev pub Lacks : Char → String → Type 0
Lacks d String.[] = Unit
Lacks d (String.◌∷◌ c s) = (same_char c d ≡ false) × Lacks d s

abbrev pub lacks : Char → String → Bool
lacks d String.[] = true
lacks d (String.◌∷◌ c s) = if same_char c d then false else lacks d s

-- For a literal, by computing.
pub lacks-Lacks : (d : Char) (s : String) → lacks d s ≡ true → Lacks d s
lacks-Lacks d String.[] h = tt
lacks-Lacks d (String.◌∷◌ c s) h = elim (Bool-cases (same_char c d)) [
  | inl same ↦ let bad : false ≡ true = simp same at h in cc
  | inr other ↦ (other, lacks-Lacks d s (simp other at h))
]

pub Lacks-cat : (d : Char) (a b : String) → Lacks d a → Lacks d b → Lacks d (cat a b)
Lacks-cat d String.[] b _ h = h
Lacks-cat d (String.◌∷◌ c a) b (x, g) h = (x, Lacks-cat d a b g h)

-- The separator begins nowhere in a text.
abbrev pub Free : String → String → Type 0
Free sep String.[] = Unit
Free sep (String.◌∷◌ c s) = (has_prefix sep (String.◌∷◌ c s) ≡ false) × Free sep s

abbrev free : String → String → Bool
free sep String.[] = true
free sep (String.◌∷◌ c s) = if has_prefix sep (String.◌∷◌ c s) then false else free sep s

-- For a literal, by computing.
pub free-Free : (sep s : String) → free sep s ≡ true → Free sep s
free-Free sep String.[] h = tt
free-Free sep (String.◌∷◌ c s) h = elim (Bool-cases (has_prefix sep (String.◌∷◌ c s))) [
  | inl found ↦ let bad : false ≡ true = simp found at h in cc
  | inr other ↦ (other, free-Free sep s (simp other at h))
]

pub Lacks-Free : (d : Char) (p s : String) → Lacks d s → Free (String.◌∷◌ d p) s
unfolding has_prefix cut_prefix
Lacks-Free d p String.[] _ = tt
Lacks-Free d p (String.◌∷◌ c s) (x, h) = (rw (same_char_sym d c, x) refl, Lacks-Free d p s h)

pub cat-nil : (s : String) → cat s "" ≡ s
cat-nil String.[] = refl
cat-nil (String.◌∷◌ c s) = ap (String.◌∷◌ c) (cat-nil s)

cut_prefix-cat : (p s : String) → cut_prefix p (cat p s) ≡ some s
unfolding cut_prefix
cut_prefix-cat String.[] s = refl
cut_prefix-cat (String.◌∷◌ c p) s = ground (arith, cut_prefix-cat p s)

pub has_prefix-cat : (p s : String) → has_prefix p (cat p s) ≡ true
unfolding has_prefix
has_prefix-cat p s = ap has_cut (cut_prefix-cat p s)

pub trim_prefix-cat : (p s : String) → trim_prefix p (cat p s) ≡ s
unfolding trim_prefix
trim_prefix-cat p s = ap (cut_or (cat p s)) (cut_prefix-cat p s)

-- A prefix without `d` does not reach past a `d`.
has_prefix-stops :
    (d : Char) (p s t : String) → Lacks d p → has_prefix p (cat s (String.◌∷◌ d t)) ≡ has_prefix p s
unfolding has_prefix cut_prefix
has_prefix-stops d String.[] s t _ = refl
has_prefix-stops d (String.◌∷◌ x p) String.[] t (h, _) = rw h refl
has_prefix-stops d (String.◌∷◌ x p) (String.◌∷◌ c s) t (_, h) = elim (Bool-cases (same_char x c)) [
  | inl same ↦ rw same (has_prefix-stops d p s t h)
  | inr other ↦ rw other refl
]

skip : (sep p s : String) → split_from sep (size p) (cat p s) ≡ split_from sep 0 s
unfolding split_from
skip sep String.[] s = refl
skip sep (String.◌∷◌ c p) s = skip sep p s

split_from-here :
    (sep s : String) (c : Char)
    → has_prefix sep (String.◌∷◌ c s) ≡ true
    → split_from sep 0 (String.◌∷◌ c s) ≡ "" ∷ split_from sep (size_of_rest sep) s
unfolding split_from
split_from-here sep s c h = rw (h, split_from) refl

split_from-later :
    (sep s : String) (c : Char)
    → has_prefix sep (String.◌∷◌ c s) ≡ false
    → split_from sep 0 (String.◌∷◌ c s) ≡ cons_first c (split_from sep 0 s)
unfolding split_from
split_from-later sep s c h = rw (h, split_from) refl

-- A part in which a separator begins nowhere, where the separator's first character is not in the
-- rest of it, is split off whole.
module _ (d : Char) (p : String) (lacks : Lacks d p) where
  abbrev sep : String
  sep = String.◌∷◌ d p

  pub has_prefix-before :
      (c : Char) (s t : String)
      → has_prefix sep (String.◌∷◌ c (cat s (String.◌∷◌ d t))) ≡ has_prefix sep (String.◌∷◌ c s)
  unfolding has_prefix cut_prefix
  has_prefix-before c s t = elim (Bool-cases (same_char d c)) [
    | inl same ↦ rw same (has_prefix-stops d p s t lacks)
    | inr other ↦ rw other refl
  ]

  pub Free-cat :
      (s t : String) → Free sep s → Free sep (String.◌∷◌ d t) → Free sep (cat s (String.◌∷◌ d t))
  Free-cat String.[] t _ h = h
  Free-cat (String.◌∷◌ c s) t (x, g) h = (has_prefix-before c s t ∙ x, Free-cat s t g h)

  pub split-cat : (s t : String) → Free sep s → split sep (cat s (cat sep t)) ≡ s ∷ split sep t
  unfolding split
  split-cat String.[] t _ =
      split_from-here sep (cat p t) d (has_prefix-cat sep t) ∙ ap (◌∷◌ "") (skip sep p t)
  split-cat (String.◌∷◌ c s) t (x, h) =
      split_from-later sep (cat s (cat sep t)) c (has_prefix-before c s (cat p t) ∙ x)
      ∙ ap (cons_first c) (split-cat s t h)

  pub split_last : (s : String) → Free sep s → split sep s ≡ s ∷ []
  unfolding split split_from
  split_last String.[] _ = refl
  split_last (String.◌∷◌ c s) (x, h) =
      split_from-later sep s c x ∙ ap (cons_first c) (split_last s h)

-- Splitting at one character loses nothing.
module _ (d : Char) where
  abbrev char_sep : String
  char_sep = String.◌∷◌ d ""

  join-cons_first :
      (c : Char) (parts : List String)
      → join char_sep (cons_first c parts) ≡ String.◌∷◌ c (join char_sep parts)
  unfolding join
  join-cons_first c [] = refl
  join-cons_first c (part ∷ []) = refl
  join-cons_first c (part ∷ next ∷ parts) = refl

  split_from-parts :
      (s : String)
      → (part : String) × (parts : List String) × (split_from char_sep 0 s ≡ part ∷ parts)
  unfolding split_from
  split_from-parts String.[] = ("", [], refl)
  split_from-parts (String.◌∷◌ c s) = elim (Bool-cases (has_prefix char_sep (String.◌∷◌ c s))) [
    | inl found ↦ ("", split_from char_sep 0 s, split_from-here char_sep s c found)
    | inr other ↦
        let (part, parts, e) = split_from-parts s in
        (String.◌∷◌ c part, parts, split_from-later char_sep s c other ∙ ap (cons_first c) e)
  ]

  join-nil :
      (parts : List String) (part : String) (more : List String)
      → parts ≡ part ∷ more
      → join char_sep ("" ∷ parts) ≡ String.◌∷◌ d (join char_sep parts)
  unfolding join
  join-nil parts part more e = simp e

  first_is : (c : Char) (s : String) → has_prefix char_sep (String.◌∷◌ c s) ≡ true → d ≡ c
  unfolding has_prefix cut_prefix
  first_is c s h = elim (Bool-cases (same_char d c)) [
    | inl same ↦ Char-path d c (eqb→eq (code d) (code c) same)
    | inr other ↦ let bad : false ≡ true = simp other at h in cc
  ]

  pub join-split : (s : String) → join char_sep (split char_sep s) ≡ s
  unfolding join split split_from
  join-split String.[] = refl
  join-split (String.◌∷◌ c s) = elim (Bool-cases (has_prefix char_sep (String.◌∷◌ c s))) [
    | inl found ↦
        let (part, parts, e) = split_from-parts s in
        ap (join char_sep) (split_from-here char_sep s c found)
        ∙ join-nil (split_from char_sep 0 s) part parts e
        ∙ (λ i. String.◌∷◌ (first_is c s found i) (join-split s i))
    | inr other ↦
        ap (join char_sep) (split_from-later char_sep s c other)
        ∙ join-cons_first c (split_from char_sep 0 s)
        ∙ ap (String.◌∷◌ c) (join-split s)
  ]

-- The text before the first `d`.
abbrev pub up_to : Char → String → String
up_to d String.[] = ""
up_to d (String.◌∷◌ c s) = let rest = up_to d s in if same_char d c then "" else String.◌∷◌ c rest

module _ (d : Char) where
  pub split-up_to :
      (s t : String)
      → (parts : List String) × (split (String.◌∷◌ d "") (cat s (String.◌∷◌ d t))
          ≡ up_to d s ∷ parts)
  unfolding split has_prefix cut_prefix
  split-up_to String.[] t = (
    split_from (char_sep d) 0 t,
    split_from-here (char_sep d) t d (has_prefix-cat (char_sep d) t),
  )
  split-up_to (String.◌∷◌ c s) t = elim (Bool-cases (same_char d c)) [
    | inl same ↦
        let stop : has_prefix (char_sep d) (String.◌∷◌ c (cat s (String.◌∷◌ d t))) ≡ true =
          simp same in
        (
          split_from (char_sep d) 0 (cat s (String.◌∷◌ d t)),
          split_from-here (char_sep d) (cat s (String.◌∷◌ d t)) c stop ∙ simp same,
        )
    | inr other ↦
        let (parts, e) = split-up_to s t in
        let go : has_prefix (char_sep d) (String.◌∷◌ c (cat s (String.◌∷◌ d t))) ≡ false =
          simp other in
        (
          parts,
          split_from-later (char_sep d) (cat s (String.◌∷◌ d t)) c go
              ∙ ap (cons_first c) e
              ∙ simp other,
        )
  ]
