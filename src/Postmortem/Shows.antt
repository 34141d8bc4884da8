-- ===== src/Postmortem/Shows.antt =====
-- What a text that is made of parts holds.
use k8s_ts_mcp.Common.{
  String, true, ◌≡◌, refl, List, [], ◌∷◌, ◌++◌, All, cat, cut_prefix, has_prefix, text_contains,
  same_char, ◌⊎◌, inl, inr, Bool-cases, eq_iff, arith,
}
use k8s_ts_mcp.Common.TextLaws.{cat_assoc, has_prefix-cat}
use k8s_ts_mcp.Postmortem.{text_of}

pub contains-empty : (s : String) → text_contains s "" ≡ true
unfolding text_contains has_prefix cut_prefix
contains-empty String.[] = refl
contains-empty (String.◌∷◌ c s) = refl

pub contains-here : (t s : String) → text_contains (cat t s) t ≡ true
unfolding text_contains
contains-here String.[] s = contains-empty s
contains-here (String.◌∷◌ c t) s = rw (has_prefix-cat (String.◌∷◌ c t) s) refl

pub contains-later : (a s t : String) → text_contains s t ≡ true → text_contains (cat a s) t ≡ true
unfolding text_contains
contains-later String.[] s t h = h
contains-later (String.◌∷◌ c a) s t h = ground (arith, contains-later a s t h)

pub has_prefix-longer : (p s t : String) → has_prefix p s ≡ true → has_prefix p (cat s t) ≡ true
unfolding has_prefix cut_prefix
has_prefix-longer String.[] s t h = refl
has_prefix-longer (String.◌∷◌ d p) String.[] t h = ground arith
has_prefix-longer (String.◌∷◌ d p) (String.◌∷◌ c s) t h = elim (Bool-cases (same_char d c)) [
  | inl hit ↦ rw hit (has_prefix-longer p s t (rw hit at h))
  | inr miss ↦ ground (arith, miss)
]

pub contains-longer : (s t u : String) → text_contains s u ≡ true → text_contains (cat s t) u ≡ true
unfolding text_contains
contains-longer String.[] t u h = let p : u ≡ "" = (eq_iff u "").0 h in rw p (contains-empty t)
contains-longer (String.◌∷◌ c s) t u h = elim (Bool-cases (has_prefix u (String.◌∷◌ c s))) [
  | inl here ↦ ground (arith, has_prefix-longer u (String.◌∷◌ c s) t here)
  | inr miss ↦ ground (arith, contains-longer s t u (ground (arith, h, miss)))
]

pub text_of-append : (xs ys : List String) → text_of (xs ++ ys) ≡ cat (text_of xs) (text_of ys)
text_of-append [] ys = refl
text_of-append (x ∷ xs) ys = simp (text_of-append xs ys, cat_assoc) refl

abbrev pub Shows : List String → String → Type 0
Shows parts t = text_contains (text_of parts) t ≡ true

pub here : (t : String) (parts : List String) → Shows (t ∷ parts) t
here t parts = contains-here t (text_of parts)

pub later :
    (part : String) (parts : List String) (t : String) → Shows parts t → Shows (part ∷ parts) t
later part parts t h = contains-later part (text_of parts) t h

-- One of the texts that are written.
abbrev pub Within : String → List String → Type 0
Within t [] = ⊥
Within t (part ∷ parts) = (t ≡ part) ⊎ Within t parts

pub Within-Shows : (parts : List String) (t : String) → Within t parts → Shows parts t
Within-Shows [] t none_of = elim none_of [ ]
Within-Shows (part ∷ parts) t (inl e) = rw e (here part parts)
Within-Shows (part ∷ parts) t (inr w) = later part parts t (Within-Shows parts t w)

pub Shows-before : (xs ys : List String) (t : String) → Shows xs t → Shows (xs ++ ys) t
Shows-before xs ys t h = rw (text_of-append xs ys) (contains-longer (text_of xs) (text_of ys) t h)

pub Shows-after : (xs ys : List String) (t : String) → Shows ys t → Shows (xs ++ ys) t
Shows-after xs ys t h = rw (text_of-append xs ys) (contains-later (text_of xs) (text_of ys) t h)

module _ {P Q : String → Type 0} where
  pub All-map : ((t : String) → P t → Q t) → (ts : List String) → All P ts → All Q ts
  All-map f [] h = tt
  All-map f (t ∷ ts) (p, ps) = (f t p, All-map f ts ps)

pub All-append :
    (P : String → Type 0) (xs ys : List String) → All P xs → All P ys → All P (xs ++ ys)
All-append P [] ys h k = k
All-append P (x ∷ xs) ys (h, hs) k = (h, All-append P xs ys hs k)

pub All-left : (P : String → Type 0) (xs ys : List String) → All P (xs ++ ys) → All P xs
All-left P [] ys h = tt
All-left P (x ∷ xs) ys (h, hs) = (h, All-left P xs ys hs)

pub All-right : (P : String → Type 0) (xs ys : List String) → All P (xs ++ ys) → All P ys
All-right P [] ys h = h
All-right P (x ∷ xs) ys (h, hs) = All-right P xs ys hs

pub All-before : (xs ys ts : List String) → All (Shows xs) ts → All (Shows (xs ++ ys)) ts
All-before xs ys = All-map (Shows-before xs ys)

pub All-after : (xs ys ts : List String) → All (Shows ys) ts → All (Shows (xs ++ ys)) ts
All-after xs ys = All-map (Shows-after xs ys)

pub All-later :
    (part : String) (parts ts : List String) → All (Shows parts) ts → All (Shows (part ∷ parts)) ts
All-later part parts = All-map (later part parts)
