-- ===== src/Runbooks.antt =====
-- internal/runbooks/runbooks.go: the catalogue of runbooks, which is read from a markdown file.
pub mod Similarity
pub mod Lookup
pub mod Reloading
pub mod Ranking
pub mod Printing
pub mod RoundTrip
use k8s_ts_mcp.Common.{
  ℕ, zero, suc, String, append_text, Bool, true, false, not, ◌&&◌, Option, none, some, List, [],
  ◌∷◌, ◌++◌, ◌==◌, if◌then◌else◌, any, length, Error, errorf, end, str, cause, Result, ok, err,
  Call, Unicode, trimmed_parts, split, join, trim_space, has_prefix, trim_prefix, trim_suffix,
  to_lower, text_contains,
}

-- `Entry`.
pub record Runbook : Type 0 where
  pub title : String
  pub kind : String
  pub keywords : List String
  pub body : String
  pub log_signatures : List String
  pub log_source : String

abbrev pub no_runbook : Runbook
no_runbook = record {
  title = "";
  kind = "";
  keywords = [];
  body = "";
  log_signatures = [];
  log_source = "";
}

abbrev is_empty : List String → Bool
is_empty [] = true
is_empty (s ∷ rest) = false

unfoldable pub matches_logs : Unicode → Runbook → String → Bool
unfolding any
matches_logs unicode e logs =
    not (is_empty e.log_signatures)
    && any (λ sig. text_contains (to_lower unicode logs) (to_lower unicode sig)) e.log_signatures

-- A line of the metadata: what it does to the entry, or `none` where the metadata is over.
abbrev pub meta_line : String → Option (Runbook → Runbook)
meta_line t =
    if has_prefix "kind:" t
    then some (λ e. record e { kind = trim_space (trim_prefix "kind:" t) })
    else if has_prefix "keywords:" t
    then some (λ e. record e {
      keywords = e.keywords ++ trimmed_parts (split "," (trim_prefix "keywords:" t));
    })
    else if has_prefix "log_signatures:" t
    then some (λ e. record e {
      log_signatures =
          e.log_signatures ++ trimmed_parts (split "," (trim_prefix "log_signatures:" t));
    })
    else if has_prefix "log_source:" t
    then some (λ e. record e { log_source = trim_space (trim_prefix "log_source:" t) })
    else if t == ""
    then some (λ e. e)
    else none

-- `metaLoop`: the entry so far and the lines that are left.
unfoldable pub read_meta : Runbook → List String → Runbook × List String
read_meta e [] = (e, [])
read_meta e (line ∷ lines) = elim (meta_line (trim_space line)) [
  | none ↦ (e, line ∷ lines)
  | some change ↦ read_meta (change e) lines
]

abbrev pub body_of : List String → String
body_of lines = trim_space (trim_suffix "---" (trim_space (join "\n" lines)))

abbrev pub with_body : Runbook × List String → Runbook
with_body (e, lines) = record e { body = body_of lines }

abbrev pub entry_of : List String → Runbook
entry_of [] = no_runbook
entry_of (title ∷ lines) =
    with_body (read_meta (record no_runbook { title = trim_space title }) lines)

unfoldable pub parse_entry : String → Runbook
unfolding read_meta
parse_entry block = entry_of (split "\n" block)

abbrev pub is_reference_only : Runbook → Bool
is_reference_only e = e.kind == "" && is_empty e.keywords

unfoldable pub parse_blocks : List String → List Runbook
unfolding parse_entry
parse_blocks [] = []
parse_blocks (block ∷ blocks) =
    let e = parse_entry block in
    let rest = parse_blocks blocks in if is_reference_only e then rest else e ∷ rest

-- `[1:]`; `strings.Split` with a separator gives one part at least.
abbrev after_first : List String → List String
after_first [] = []
after_first (s ∷ rest) = rest

unfoldable pub parse : String → List Runbook
unfolding parse_blocks
parse text = parse_blocks (after_first (split "\n## " (append_text "\n" text)))

-- `Store`: its entries, and the rest of the world, where `read` is `os.ReadFile`.
abbrev pub Entries : Type 0
Entries = List Runbook

unfoldable pub len : Entries → ℕ
len entries = length entries

module _ {W : Type 0} (path : String) (read : String → Call W String) where
  abbrev pub reloaded : Entries → Result String × W → Result (Unit {0}) × (Entries × W)
  reloaded entries (err e, w) =
      (err (errorf "reading runbooks file %s: %w" (str path (cause e end))), (entries, w))
  reloaded entries (ok text, w) = (ok tt, (parse text, w))

  unfoldable pub reload : Call (Entries × W) (Unit {0})
  unfolding parse
  reload (entries, w) = reloaded entries (read path w)

  abbrev pub only_entries : Result (Unit {0}) × (Entries × W) → Result Entries × W
  only_entries (ok _, (entries, w)) = (ok entries, w)
  only_entries (err e, (entries, w)) = (err e, w)

  unfoldable pub new_store : Call W Entries
  unfolding reload
  new_store w = only_entries (reload ([], w))

  abbrev noted : List Error → Result (Unit {0}) → List Error
  noted reported (ok _) = reported
  noted reported (err e) = reported ++ (e ∷ [])

  -- `WatchAndReload`, for a number of ticks: the errors that were reported, and the store. Between
  -- ticks the rest of the world moves on.
  unfoldable pub watch_and_reload :
      (W → W) → ℕ → List Error → Entries × W → List Error × (Entries × W)
  unfolding reload
  watch_and_reload elapse zero reported s = (reported, s)
  watch_and_reload elapse (suc ticks) reported (entries, w) =
      let (r, s) = reload (entries, elapse w) in watch_and_reload elapse ticks (noted reported r) s
