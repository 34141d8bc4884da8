-- ===== src/Runbooks/RoundTrip/Blocks.antt =====
-- The block of one entry: its lines, and what is read of them.
use k8s_ts_mcp.Common.{
  String, false, none, ◌≡◌, refl, sym, ap, ◌∙◌, List, ◌∷◌, cat, is_nil, is_space, trim_right,
  trim_space, trim_suffix, cut_prefix, has_prefix, split,
}
use k8s_ts_mcp.Common.TextLaws.{
  Lacks, free-Free, lacks-Lacks, Lacks-cat, Lacks-Free, Free, Free-cat, cat_assoc, split-cat,
  split-up_to, up_to, join-split,
}
use k8s_ts_mcp.Common.Trims.{
  trim_left-cat, trim_right-cat, trim_right-cat_spaces, trim_space-IsTrimmed, trim_suffix-cat,
}
use k8s_ts_mcp.Runbooks.{
  Runbook, no_runbook, meta_line, read_meta, body_of, with_body, entry_of, parse_entry,
}
use k8s_ts_mcp.Runbooks.Printing.{
  listing, IsPrintable, heading, ending, body_lines, source_line, signature_line, keyword_line,
  kind_line, block,
}
use k8s_ts_mcp.Runbooks.RoundTrip.Fields.{
  listing-Lacks, read_kind, read_source, read_keywords, read_signatures, read_blank,
}

-- A heading has no second newline.
pub one_newline : Lacks "\n" "## "
one_newline = lacks-Lacks "\n" "## " refl

-- A line before a line that is no heading.
line_Free :
    (s t : String) → Lacks "\n" s → Free heading (cat "\n" t) → Free heading (cat s (cat "\n" t))
line_Free s t h free = Free-cat "\n" "## " one_newline s t (Lacks-Free "\n" "## " s h) free

ending-Free : Free heading ending
unfolding has_prefix cut_prefix
ending-Free = free-Free heading ending refl

not_meta-given :
    (body : String) → meta_line (trim_space (up_to "\n" body)) ≡ none → is_nil body ≡ false
unfolding trim_space has_prefix cut_prefix
not_meta-given String.[] h = absurd (cc)
not_meta-given (String.◌∷◌ c s) h = refl

read_stops :
    (acc : Runbook) (line : String) (lines : List String)
    → meta_line (trim_space line) ≡ none
    → read_meta acc (line ∷ lines) ≡ (acc, line ∷ lines)
unfolding read_meta
read_stops acc line lines h = rw (h, read_meta) refl

module _ (e : Runbook) (h : IsPrintable e) where
  kind_Lacks : Lacks "\n" (kind_line e)
  kind_Lacks = Lacks-cat "\n" "kind: " e.kind (lacks-Lacks "\n" "kind: " refl) h.kind_is_line.0

  keyword_Lacks : Lacks "\n" (keyword_line e)
  keyword_Lacks =
      Lacks-cat "\n" "keywords:" (listing e.keywords) (lacks-Lacks "\n" "keywords:" refl)
        (listing-Lacks e.keywords h.keywords_are_values)

  signature_Lacks : Lacks "\n" (signature_line e)
  signature_Lacks =
      Lacks-cat "\n" "log_signatures:" (listing e.log_signatures)
        (lacks-Lacks "\n" "log_signatures:" refl)
        (listing-Lacks e.log_signatures h.signatures_are_values)

  source_Lacks : Lacks "\n" (source_line e)
  source_Lacks =
      Lacks-cat "\n" "log_source: " e.log_source (lacks-Lacks "\n" "log_source: " refl)
        h.source_is_line.0

  body_Free : Free heading (cat "\n" (body_lines e))
  body_Free =
      Free-cat "\n" "## " one_newline (cat "\n" e.body) "\n---\n" h.body_one_block ending-Free

  pub block-Free : Free heading (block e)
  unfolding has_prefix cut_prefix
  block-Free = line_Free e.title _ h.title_line.0 (
    refl,
    line_Free (kind_line e) _ kind_Lacks (
      refl,
      line_Free (keyword_line e) _ keyword_Lacks (
        refl,
        line_Free (signature_line e) _ signature_Lacks
            (refl, line_Free (source_line e) _ source_Lacks (refl, body_Free)),
      ),
    ),
  )

  line : (s t : String) → Lacks "\n" s → split "\n" (cat s (cat "\n" t)) ≡ s ∷ split "\n" t
  line s t lacks = split-cat "\n" "" tt s t (Lacks-Free "\n" "" s lacks)

  -- The lines of a block.
  lines_of_block :
      split "\n" (block e)
      ≡ e.title
        ∷ kind_line e
        ∷ keyword_line e
        ∷ signature_line e
        ∷ source_line e
        ∷ ""
        ∷ split "\n" (body_lines e)
  lines_of_block =
      line e.title _ h.title_line.0
      ∙ ap (◌∷◌ e.title) (
          line (kind_line e) _ kind_Lacks
          ∙ ap (◌∷◌ (kind_line e)) (
              line (keyword_line e) _ keyword_Lacks
              ∙ ap (◌∷◌ (keyword_line e)) (
                  line (signature_line e) _ signature_Lacks
                  ∙ ap (◌∷◌ (signature_line e)) (
                      line (source_line e) _ source_Lacks
                      ∙ ap (◌∷◌ (source_line e)) (line "" _ tt)))))

  body_given : is_nil e.body ≡ false
  body_given = not_meta-given e.body h.body_not_meta

  -- The metadata is over where the body begins.
  read_body :
      (acc : Runbook) → read_meta acc (split "\n" (body_lines e)) ≡ (acc, split "\n" (body_lines e))
  unfolding read_meta
  read_body acc =
      let (parts, first) = split-up_to "\n" e.body "\n---\n" in
      rw first (read_stops acc (up_to "\n" e.body) parts h.body_not_meta)

  trimmed_lines : trim_space (body_lines e) ≡ cat e.body "\n\n---"
  unfolding trim_space is_space
  trimmed_lines =
      ap trim_right (trim_left-cat e.body ending h.body_trimmed body_given)
      ∙ trim_right-cat e.body ending refl

  body_of-block : body_of (split "\n" (body_lines e)) ≡ e.body
  unfolding trim_space is_space
  body_of-block =
      ap (λ t. trim_space (trim_suffix "---" (trim_space t))) (join-split "\n" (body_lines e))
      ∙ ap (λ t. trim_space (trim_suffix "---" t)) trimmed_lines
      ∙ ap (λ t. trim_space (trim_suffix "---" t)) (sym (cat_assoc e.body "\n\n" "---"))
      ∙ ap trim_space (trim_suffix-cat (cat e.body "\n\n") "---" refl)
      ∙ ap trim_right (trim_left-cat e.body "\n\n" h.body_trimmed body_given)
      ∙ trim_right-cat_spaces e.body "\n\n" refl
      ∙ h.body_trimmed.1

  pub parse_entry-block : parse_entry (block e) ≡ e
  unfolding parse_entry
  parse_entry-block =
      let titled : Runbook = record no_runbook { title = trim_space e.title } in
      let known : Runbook = record titled { kind = e.kind; keywords = e.keywords } in
      let signed : Runbook = record known { log_signatures = e.log_signatures } in
      let whole : Runbook = record signed { log_source = e.log_source } in
      ap entry_of lines_of_block
      ∙ ap with_body (
          read_kind titled _ e.kind h.kind_is_line.1
          ∙ read_keywords (record titled { kind = e.kind }) _ e.keywords h.keywords_are_values
          ∙ read_signatures known _ e.log_signatures h.signatures_are_values
          ∙ read_source signed _ e.log_source h.source_is_line.1
          ∙ read_blank whole (split "\n" (body_lines e))
          ∙ read_body whole)
      ∙ (λ i. record e {
        title = trim_space-IsTrimmed e.title h.title_line.1 i;
        body = body_of-block i;
      })
