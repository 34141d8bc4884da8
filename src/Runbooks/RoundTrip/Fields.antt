-- ===== src/Runbooks/RoundTrip/Fields.antt =====
-- What one line of the metadata does to the entry that is read.
use k8s_ts_mcp.Common.{
  String, true, false, ◌≡◌, refl, ap, ◌∙◌, ◌++◌, List, [], ◌∷◌, All, inl, inr, Bool-cases, eq_iff,
  ◌==◌, cat, is_nil, is_space, trim_right, trim_space, trim_prefix, cut_prefix, has_prefix,
  trimmed_parts, split, split_from,
}
use k8s_ts_mcp.Common.TextLaws.{Lacks, Lacks-cat, Lacks-Free, Free, split-cat, split_last}
use k8s_ts_mcp.Common.Trims.{
  IsTrimmed, trim_right-cat, trim_right-padded, trim_space-padded, trim_space-value,
}
use k8s_ts_mcp.Runbooks.{Runbook, read_meta}
use k8s_ts_mcp.Runbooks.Printing.{listing, IsValue}

pub listing-Lacks : (ks : List String) → All IsValue ks → Lacks "\n" (listing ks)
listing-Lacks [] _ = tt
listing-Lacks (k ∷ []) (h, _) = (refl, h.0.0)
listing-Lacks (k ∷ next ∷ ks) (h, hs) = (
  refl,
  Lacks-cat "\n" k (cat "," (listing (next ∷ ks))) h.0.0 (refl, listing-Lacks (next ∷ ks) hs),
)

padded-Free : (k : String) → IsValue k → Free "," (cat " " k)
padded-Free k h = Lacks-Free "," "" (cat " " k) (refl, h.1)

nonempty : (k : String) → is_nil k ≡ false → (k == "") ≡ false
nonempty k h = elim (Bool-cases (k == "")) [
  | inl same ↦ let nil : is_nil k ≡ true = ap is_nil ((eq_iff k "").0 same) in cc
  | inr other ↦ other
]

-- A listing is empty or ends in no space.
trim_right-listing : (ks : List String) → All IsValue ks → trim_right (listing ks) ≡ listing ks
unfolding is_space
trim_right-listing [] _ = refl
trim_right-listing (k ∷ []) (h, _) = trim_right-padded k h.0.1 h.2
trim_right-listing (k ∷ next ∷ ks) (h, hs) =
    let e = trim_right-listing (next ∷ ks) hs in
    trim_right-cat (cat " " k) (cat "," (listing (next ∷ ks))) refl
    ∙ ap (λ t. cat (cat " " k) (cat "," t)) e

values :
    (k : String) (parts : List String)
    → IsValue k
    → trimmed_parts (cat " " k ∷ parts) ≡ k ∷ trimmed_parts parts
values k parts h = rw (trim_space-padded k h.0.1, nonempty k h.2) refl

trimmed_parts-listing :
    (ks : List String) → All IsValue ks → trimmed_parts (split "," (listing ks)) ≡ ks
unfolding split split_from trim_space is_space
trimmed_parts-listing [] _ = refl
trimmed_parts-listing (k ∷ []) (h, _) =
    ap trimmed_parts (split_last "," "" tt (cat " " k) (padded-Free k h)) ∙ values k [] h
trimmed_parts-listing (k ∷ next ∷ ks) (h, hs) =
    ap trimmed_parts (split-cat "," "" tt (cat " " k) (listing (next ∷ ks)) (padded-Free k h))
    ∙ values k (split "," (listing (next ∷ ks))) h
    ∙ ap (◌∷◌ k) (trimmed_parts-listing (next ∷ ks) hs)

pub trimmed_parts-line :
    (ks : List String) → All IsValue ks → trimmed_parts (split "," (trim_right (listing ks))) ≡ ks
trimmed_parts-line ks h =
    ap (λ t. trimmed_parts (split "," t)) (trim_right-listing ks h) ∙ trimmed_parts-listing ks h

module _ (e : Runbook) (lines : List String) where
  pub read_kind :
      (k : String)
      → IsTrimmed k
      → read_meta e (cat "kind: " k ∷ lines) ≡ read_meta (record e { kind = k }) lines
  unfolding read_meta trim_space is_space has_prefix trim_prefix cut_prefix
  read_kind k h = ap (λ v. read_meta (record e { kind = v }) lines) (trim_space-value k h)

  pub read_source :
      (k : String)
      → IsTrimmed k
      → read_meta e (cat "log_source: " k ∷ lines) ≡ read_meta (record e { log_source = k }) lines
  unfolding read_meta trim_space is_space has_prefix trim_prefix cut_prefix
  read_source k h = ap (λ v. read_meta (record e { log_source = v }) lines) (trim_space-value k h)

  pub read_keywords :
      (ks : List String)
      → All IsValue ks
      → read_meta e (cat "keywords:" (listing ks) ∷ lines)
        ≡ read_meta (record e { keywords = e.keywords ++ ks }) lines
  unfolding read_meta trim_space is_space has_prefix trim_prefix cut_prefix
  read_keywords ks h =
      ap (λ v. read_meta (record e { keywords = e.keywords ++ v }) lines) (trimmed_parts-line ks h)

  pub read_signatures :
      (ks : List String)
      → All IsValue ks
      → read_meta e (cat "log_signatures:" (listing ks) ∷ lines)
        ≡ read_meta (record e { log_signatures = e.log_signatures ++ ks }) lines
  unfolding read_meta trim_space is_space has_prefix trim_prefix cut_prefix
  read_signatures ks h =
      ap (λ v. read_meta (record e { log_signatures = e.log_signatures ++ v }) lines)
        (trimmed_parts-line ks h)

  pub read_blank : read_meta e ("" ∷ lines) ≡ read_meta e lines
  unfolding read_meta trim_space is_space has_prefix cut_prefix
  read_blank = refl
