-- ===== src/Postmortem.antt =====
-- internal/postmortem: postmortem.go and its template postmortem.md.tmpl, as the list of the texts
-- that its execution writes. The template reads only fields that an entry has, so its execution does
-- not fail. Package time's layout of a time and the decimals of a number are parameters.
pub mod Shows
pub mod Attempts
pub mod Stored
pub mod Complete
use k8s_ts_mcp.Common.{
  ℕ, suc, String, Bool, true, false, not, Option, none, some, List, [], ◌∷◌, ◌++◌, ◌==◌,
  if◌then◌else◌, cat, length,
}
use k8s_ts_mcp.ExecEngine.{AttemptResult, RunResult}
use k8s_ts_mcp.Audit.{Entry}

pub record Formats : Type 0 where
  pub format_time : ℕ → String
  pub decimal : ℕ → String

abbrev status_of_result : Option RunResult → String
status_of_result none = "Execução não solicitada ou negada pela política"
status_of_result (some r) =
    if r.resolved
    then "Resolvido"
    else "Não resolvido após a escada de ações — necessária intervenção manual"

unfoldable pub status_of : Entry → String
status_of e =
    if e.decision.dry_run
    then "Não executado (dry-run) — comandos retornados ao usuário"
    else status_of_result e.result

abbrev pub text_of : List String → String
text_of [] = ""
text_of (part ∷ parts) = cat part (text_of parts)

-- `{{if b}}…{{end}}`.
abbrev pub when : Bool → List String → List String
when b parts = if b then parts else []

-- A text that is not empty counts as true.
abbrev pub given : String → List String → List String
given s parts = when (not (s == "")) parts

abbrev pub bool_text : Bool → String
bool_text true = "true"
bool_text false = "false"

abbrev is_empty : {A : Type 0} → List A → Bool
is_empty [] = true
is_empty (x ∷ xs) = false

abbrev later_groups : List String → List String
later_groups [] = []
later_groups (g ∷ groups) = ", " ∷ g ∷ later_groups groups

abbrev pub group_parts : List String → List String
group_parts [] = []
group_parts (g ∷ groups) = g ∷ later_groups groups

abbrev pub command_parts : List String → List String
command_parts [] = []
command_parts (c ∷ commands) = "\n- " ∷ c ∷ command_parts commands

-- The section of the proposed commands.
abbrev pub commands_section : List String → List String
commands_section commands =
    when (not (is_empty commands))
      ("\n## Comandos propostos (não executados)\n" ∷ (command_parts commands ++ ("\n" ∷ [])))

abbrev output_text : String → String
output_text s = if s == "" then "(sem saída)" else s

abbrev pub outcome_parts : AttemptResult → List String
outcome_parts a =
    "\n   - Resultado: " ∷ output_text a.output ∷ "\n   - Validado: " ∷ bool_text a.validated ∷ []

module _ (formats : Formats) where
  open formats use {format_time, decimal}

  -- What the range writes for the attempt of an index.
  unfoldable pub attempt_parts : ℕ → AttemptResult → List String
  attempt_parts i a =
      "\n"
      ∷ decimal (suc i)
      ∷ ". **"
      ∷ a.action
      ∷ "** (risco: "
      ∷ a.risk
      ∷ ")"
      ∷ (when a.skipped (" — NÃO EXECUTADA (requer aprovação manual)" ∷ [])
          ++ (given a.description ("\n   - Comando: " ∷ a.description ∷ [])
              ++ (when (not a.skipped) (outcome_parts a)
                  ++ (given a.error ("\n   - Erro: " ∷ a.error ∷ [])
                      ++ (when a.rolled_back ("\n   - Revertido: sim" ∷ []) ++ ("\n" ∷ []))))))

  abbrev pub attempts_parts : ℕ → List AttemptResult → List String
  attempts_parts i [] = []
  attempts_parts i (a ∷ attempts) = attempt_parts i a ++ attempts_parts (suc i) attempts

  abbrev resolution : RunResult → List String
  resolution r =
      if r.resolved
      then "Incidente resolvido pela ação acima marcada como validada." ∷ []
      else "Nenhuma das "
        ∷ decimal (length r.attempts)
        ∷ " ações da escada resolveu o incidente. Intervenção manual necessária — ver comandos e erros acima."
        ∷ []

  -- The sections of a run.
  unfoldable pub result_section : Option RunResult → List String
  unfolding attempt_parts
  result_section none = []
  result_section (some r) =
      "\n## Linha do tempo de ações executadas\n"
      ∷ (attempts_parts 0 r.attempts ++ ("\n## Resolução\n\n" ∷ (resolution r ++ ("\n" ∷ []))))

  abbrev pub head_parts : Entry → List String
  head_parts e =
      "# Post-mortem: "
      ∷ e.playbook_id
      ∷ "\n\n- **ID do incidente:** "
      ∷ e.id
      ∷ "\n- **Cluster:** "
      ∷ e.cluster_id
      ∷ "\n- **Data/hora:** "
      ∷ format_time e.time
      ∷ "\n- **Solicitado por (grupos):** "
      ∷ group_parts e.groups

  unfoldable pub middle_parts : Entry → List String
  unfolding status_of
  middle_parts e =
      "\n- **Status:** "
      ∷ status_of e
      ∷ "\n\n## Causa\n\n"
      ∷ e.summary
      ∷ "\n\n## Decisão de política\n\n- Permitido: "
      ∷ bool_text e.decision.allow
      ∷ "\n- Dry-run: "
      ∷ bool_text e.decision.dry_run
      ∷ "\n- Motivo: "
      ∷ e.decision.reason
      ∷ "\n"
      ∷ []

  unfoldable pub template_parts : Entry → List String
  unfolding result_section middle_parts
  template_parts e =
      head_parts e
      ++ (middle_parts e
          ++ (commands_section e.proposed_commands
              ++ ("\n" ∷ (result_section e.result ++ ("\n" ∷ [])))))

  -- `Render`.
  unfoldable pub render : Entry → String
  unfolding template_parts
  render e = text_of (template_parts e)
