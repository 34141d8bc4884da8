-- ===== src/Runbooks/Lookup.antt =====
-- internal/runbooks/runbooks.go, `Store.Find`: by kind first, then by similarity.
use k8s_ts_mcp.Common.{Unicode, trim_space, String, Option, none, some, ◌==◌, if◌then◌else◌, find}
use k8s_ts_mcp.Runbooks.{Runbook, Entries}
use k8s_ts_mcp.Runbooks.Similarity.{Floats, score}

module _ {F : Type 0} (floats : Floats F) (unicode : Unicode) where
  -- `minMatchScore`.
  abbrev pub min_match_score : F
  min_match_score = floats.one_tenth

  abbrev pub good_enough : Option (Runbook × F) → Option Runbook
  good_enough none = none
  good_enough (some (e, s)) = if floats.below s min_match_score then none else some e

  abbrev pub by_query : Entries → String → Option Runbook
  by_query entries query =
      if trim_space query == "" then none else good_enough (score floats unicode entries query)

  abbrev pub or_by_query : Entries → String → Option Runbook → Option Runbook
  or_by_query entries query none = by_query entries query
  or_by_query entries query (some e) = some e

  abbrev pub by_kind : Entries → String → Option Runbook
  by_kind entries kind = if kind == "" then none else find (λ e. e.kind == kind) entries

  -- `Find`.
  unfoldable pub find_entry : Entries → String → String → Option Runbook
  unfolding find score
  find_entry entries kind query = or_by_query entries query (by_kind entries kind)
