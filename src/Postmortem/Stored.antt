-- ===== src/Postmortem/Stored.antt =====
-- The text of an incident that was stored and read again: internal/postmortem.
use k8s_ts_mcp.Common.{
  length, ap, map, Map, ℕ, suc, String, ◌≡◌, refl, Option, none, some, List, [], ◌∷◌, ◌++◌,
}
use k8s_ts_mcp.ExecEngine.{AttemptResult, RunResult}
use k8s_ts_mcp.Audit.{
  Entry, SignalRecord, ProposedActionRecord, stored_attempt, stored_result, as_stored,
}
use k8s_ts_mcp.Postmortem.{
  Formats, attempt_parts, attempts_parts, result_section, middle_parts, template_parts, render,
  status_of, status_of_result,
}

length-map : {A B : Type 0} (f : A → B) (xs : List A) → length (map f xs) ≡ length xs
length-map f [] = refl
length-map f (x ∷ xs) = ap suc (length-map f xs)

module _ (formats : Formats) where
  attempts_parts-stored :
      (i : ℕ) (attempts : List AttemptResult)
      → attempts_parts formats i (map stored_attempt attempts) ≡ attempts_parts formats i attempts
  unfolding attempt_parts
  attempts_parts-stored i [] = refl
  attempts_parts-stored i (a ∷ attempts) =
      ap (λ parts. attempt_parts formats i a ++ parts) (attempts_parts-stored (suc i) attempts)

  result_section-stored :
      (r : Option RunResult) → result_section formats (stored_result r) ≡ result_section formats r
  unfolding result_section
  result_section-stored none = refl
  result_section-stored (some r) =
      rw (attempts_parts-stored 0 r.attempts, length-map stored_attempt r.attempts) refl

  status_of_result-stored :
      (r : Option RunResult) → status_of_result (stored_result r) ≡ status_of_result r
  status_of_result-stored none = refl
  status_of_result-stored (some r) = refl

  status_of-stored :
      (e : Entry) (sig : SignalRecord) (meta : Map String) (actions : List ProposedActionRecord)
      → status_of (record (as_stored e) { signal = sig; meta = meta; proposed_actions = actions })
        ≡ status_of e
  unfolding status_of
  status_of-stored e sig meta actions = rw (status_of_result-stored e.result) refl

  -- A text made of what is stored of an entry, whatever its signal, metadata and proposed actions are,
  -- is that of the entry.
  pub render-stored :
      (e : Entry) (sig : SignalRecord) (meta : Map String) (actions : List ProposedActionRecord)
      → render formats
          (record (as_stored e) { signal = sig; meta = meta; proposed_actions = actions })
        ≡ render formats e
  unfolding render template_parts middle_parts
  render-stored e sig meta actions =
      rw (status_of-stored e sig meta actions, result_section-stored e.result) refl
