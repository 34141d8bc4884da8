-- ===== src/Runbooks/RoundTrip.antt =====
-- Reading back a printed catalogue: `parse` of internal/runbooks/runbooks.go.
mod Fields
mod Blocks
use Prim.Native.String.{String}
use k8s_ts_mcp.Common.{
  String, append_text, ◌≡◌, refl, ap, ◌∙◌, List, [], ◌∷◌, All, map, cat, split, if◌then◌else◌,
}
use k8s_ts_mcp.Common.TextLaws.{append_text-cat, Free, cat-nil, split-cat, split_last}
use k8s_ts_mcp.Runbooks.{Entries, parse_entry, parse_blocks, parse, is_reference_only}
use k8s_ts_mcp.Runbooks.Printing.{IsPrintable, block, heading, print}
use k8s_ts_mcp.Runbooks.RoundTrip.Blocks.{one_newline, block-Free, parse_entry-block}

split-print :
    (part : String) (es : Entries)
    → Free heading part
    → All IsPrintable es
    → split heading (cat part (print es)) ≡ part ∷ map block es
split-print part [] free _ = rw (cat-nil part) (split_last "\n" "## " one_newline part free)
split-print part (e ∷ es) free (h, hs) =
    split-cat "\n" "## " one_newline part (cat (block e) (print es)) free
    ∙ ap (◌∷◌ part) (split-print (block e) es (block-Free e h) hs)

parse_blocks-block : (es : Entries) → All IsPrintable es → parse_blocks (map block es) ≡ es
unfolding parse_blocks
parse_blocks-block [] _ = refl
parse_blocks-block (e ∷ es) (h, hs) =
    rw (parse_entry-block e h, h.listed) (ap (◌∷◌ e) (parse_blocks-block es hs))

-- A file in the documented format is read as the runbooks that it was printed from, whatever stands
-- before the first heading, where each field is printable: lines without spaces at their ends,
-- values without commas, and a body that does not begin like metadata and holds no heading.
pub parse-print :
    (intro : String) (es : Entries)
    → Free heading (cat "\n" intro)
    → All IsPrintable es
    → parse (cat intro (print es)) ≡ es
unfolding parse
parse-print intro es free h =
    rw (append_text-cat "\n" (cat intro (print es)), split-print (cat "\n" intro) es free h)
      (parse_blocks-block es h)
