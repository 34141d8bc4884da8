-- ===== src/Runbooks/Printing.antt =====
-- The format of docs/runbooks/kubernetes-errors.md, section "Formato", as a printer of runbooks.
use Prim.Native.String.{String}
use k8s_ts_mcp.Common.{false, ◌≡◌, none, List, [], ◌∷◌, All, cat, trim_space, is_nil}
use k8s_ts_mcp.Common.TextLaws.{Lacks, Free, up_to}
use k8s_ts_mcp.Common.Trims.{IsTrimmed}
use k8s_ts_mcp.Runbooks.{Runbook, Entries, meta_line, is_reference_only}

-- The values of a field, with a comma between two.
abbrev pub listing : List String → String
listing [] = ""
listing (k ∷ []) = cat " " k
listing (k ∷ next ∷ ks) = cat (cat " " k) (cat "," (listing (next ∷ ks)))

abbrev pub ending : String
ending = "\n\n---\n"

abbrev pub body_lines : Runbook → String
body_lines e = cat e.body ending

abbrev pub source_line : Runbook → String
source_line e = cat "log_source: " e.log_source

abbrev pub signature_line : Runbook → String
signature_line e = cat "log_signatures:" (listing e.log_signatures)

abbrev pub keyword_line : Runbook → String
keyword_line e = cat "keywords:" (listing e.keywords)

abbrev pub kind_line : Runbook → String
kind_line e = cat "kind: " e.kind

abbrev pub block : Runbook → String
block e = cat e.title (
    cat "\n" (
      cat (kind_line e) (
        cat "\n" (
          cat (keyword_line e) (
            cat "\n" (
              cat (signature_line e)
                (cat "\n" (cat (source_line e) (cat "\n" (cat "\n" (body_lines e)))))))))))

abbrev pub heading : String
heading = "\n## "

abbrev pub print : Entries → String
print [] = ""
print (e ∷ es) = cat heading (cat (block e) (print es))

abbrev pub IsLine : String → Type 0
IsLine s = Lacks "\n" s × IsTrimmed s

-- A value between commas.
abbrev pub IsValue : String → Type 0
IsValue s = IsLine s × Lacks "," s × (is_nil s ≡ false)

-- The body does not begin as a line of the metadata or a heading does, and has no heading inside.
pub record IsPrintable (e : Runbook) : Type 0 where
  pub title_line : IsLine e.title
  pub kind_is_line : IsLine e.kind
  pub keywords_are_values : All IsValue e.keywords
  pub signatures_are_values : All IsValue e.log_signatures
  pub source_is_line : IsLine e.log_source
  pub body_trimmed : IsTrimmed e.body
  pub body_not_meta : meta_line (trim_space (up_to "\n" e.body)) ≡ none
  pub body_one_block : Free heading (cat "\n" e.body)
  pub listed : is_reference_only e ≡ false
