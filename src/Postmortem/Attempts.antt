-- ===== src/Postmortem/Attempts.antt =====
-- What the text of an incident shows of its attempts: internal/postmortem.
use k8s_ts_mcp.Common.{
  ℕ, suc, String, Bool, true, false, not, ◌≡◌, refl, List, [], ◌∷◌, ◌++◌, ◌==◌, All, inl, inr,
  Bool-cases, eq_iff,
}
use k8s_ts_mcp.ExecEngine.{AttemptResult}
use k8s_ts_mcp.Postmortem.{
  Formats, text_of, when, given, outcome_parts, bool_text, output_text, attempt_parts,
  attempts_parts,
}
use k8s_ts_mcp.Postmortem.Shows.{
  contains-empty, here, later, Within-Shows, All-append, All-before, All-after, Shows,
}

-- Whatever is written holds an empty text.
pub Shows-blank : (parts : List String) (s : String) → (s == "") ≡ true → Shows parts s
Shows-blank parts s empty =
    let e : s ≡ "" = (eq_iff s "").0 empty in rw e (contains-empty (text_of parts))

-- A text that is only written where it is not empty.
pub Shows-given :
    (label s : String) (rest : List String) → Shows (given s (label ∷ s ∷ []) ++ rest) s
Shows-given label s rest = elim (Bool-cases (s == "")) [
  | inl empty ↦ Shows-blank (given s (label ∷ s ∷ []) ++ rest) s empty
  | inr full ↦ rw full (later label (s ∷ rest) s (here s rest))
]

-- An empty output is replaced by a text of its own.
pub Shows-output : (s : String) (rest : List String) → Shows (output_text s ∷ rest) s
Shows-output s rest = elim (Bool-cases (s == "")) [
  | inl empty ↦ Shows-blank (output_text s ∷ rest) s empty
  | inr full ↦ rw full (here s rest)
]

pub output-All :
    (skipped : Bool) (a : AttemptResult) (rest : List String)
    → All
        (Shows (when (not skipped) (outcome_parts a) ++ rest))
        (when (not skipped) (a.output ∷ []))
output-All true a rest = tt
output-All false a rest =
    let validated : List String = "\n   - Validado: " ∷ bool_text a.validated ∷ rest in
    (
      later "\n   - Resultado: " (output_text a.output ∷ validated) a.output
          (Shows-output a.output validated),
      tt,
    )

abbrev pub not_executed : String
not_executed = " — NÃO EXECUTADA (requer aprovação manual)"

abbrev pub undone : String
undone = "\n   - Revertido: sim"

-- A mark that is there only where a test holds.
pub marks-All : (b : Bool) (mark : String) → All (Shows (when b (mark ∷ []))) (when b (mark ∷ []))
marks-All true mark = (here mark [], tt)
marks-All false mark = tt

-- What the text shows of an attempt: a skipped one is marked and has no output, and one that was
-- rolled back is marked.
abbrev failure_texts : AttemptResult → List String
failure_texts a = a.error ∷ when a.rolled_back (undone ∷ [])

abbrev outcome_texts : AttemptResult → List String
outcome_texts a = when (not a.skipped) (a.output ∷ []) ++ failure_texts a

abbrev pub attempt_texts : AttemptResult → List String
attempt_texts a =
    a.action ∷ a.risk ∷ (when a.skipped (not_executed ∷ []) ++ (a.description ∷ outcome_texts a))

abbrev pub attempts_texts : List AttemptResult → List String
attempts_texts [] = []
attempts_texts (a ∷ attempts) = attempt_texts a ++ attempts_texts attempts

abbrev failure_parts : AttemptResult → List String
failure_parts a =
    given a.error ("\n   - Erro: " ∷ a.error ∷ [])
    ++ (when a.rolled_back (undone ∷ []) ++ ("\n" ∷ []))

abbrev ending_parts : AttemptResult → List String
ending_parts a = when (not a.skipped) (outcome_parts a) ++ failure_parts a

abbrev command_shown : AttemptResult → List String
command_shown a = given a.description ("\n   - Comando: " ∷ a.description ∷ []) ++ ending_parts a

failure-All : (a : AttemptResult) → All (Shows (failure_parts a)) (failure_texts a)
failure-All a =
    let undoings = when a.rolled_back (undone ∷ []) in
    let back = undoings ++ ("\n" ∷ []) in
    (
      Shows-given "\n   - Erro: " a.error back,
      All-after (given a.error ("\n   - Erro: " ∷ a.error ∷ [])) back undoings
          (All-before undoings ("\n" ∷ []) undoings (marks-All a.rolled_back undone)),
    )

ending-All : (a : AttemptResult) → All (Shows (ending_parts a)) (outcome_texts a)
ending-All a =
    All-append (Shows (ending_parts a)) (when (not a.skipped) (a.output ∷ [])) (failure_texts a)
      (output-All a.skipped a (failure_parts a))
      (All-after (when (not a.skipped) (outcome_parts a)) (failure_parts a) (failure_texts a)
        (failure-All a))

command-All : (a : AttemptResult) → All (Shows (command_shown a)) (a.description ∷ outcome_texts a)
command-All a = (
  Shows-given "\n   - Comando: " a.description (ending_parts a),
  All-after (given a.description ("\n   - Comando: " ∷ a.description ∷ [])) (ending_parts a)
      (outcome_texts a) (ending-All a),
)

module _ (formats : Formats) where
  attempt-All :
      (i : ℕ) (a : AttemptResult) → All (Shows (attempt_parts formats i a)) (attempt_texts a)
  unfolding attempt_parts
  attempt-All i a =
      let mark = when a.skipped (not_executed ∷ []) in
      let marked = mark ++ command_shown a in
      let start : List String =
        "\n" ∷ formats.decimal (suc i) ∷ ". **" ∷ a.action ∷ "** (risco: " ∷ a.risk ∷ ")" ∷ [] in
      let texts : List String = a.description ∷ outcome_texts a in
      (
        Within-Shows (start ++ marked) a.action (inr (inr (inr (inl refl)))),
        (
          Within-Shows (start ++ marked) a.risk (inr (inr (inr (inr (inr (inl refl)))))),
          All-after start marked (mark ++ texts) (
              All-append (Shows marked) mark texts
                (All-before mark (command_shown a) mark (marks-All a.skipped not_executed))
                (All-after mark (command_shown a) texts (command-All a))),
        ),
      )

  pub attempts-All :
      (i : ℕ) (attempts : List AttemptResult)
      → All (Shows (attempts_parts formats i attempts)) (attempts_texts attempts)
  attempts-All i [] = tt
  attempts-All i (a ∷ attempts) =
      let this = attempt_parts formats i a in
      let rest = attempts_parts formats (suc i) attempts in
      All-append (Shows (this ++ rest)) (attempt_texts a) (attempts_texts attempts)
        (All-before this rest (attempt_texts a) (attempt-All i a))
        (All-after this rest (attempts_texts attempts) (attempts-All (suc i) attempts))
