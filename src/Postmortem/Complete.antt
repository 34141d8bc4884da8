-- ===== src/Postmortem/Complete.antt =====
-- What the text of an incident shows: internal/postmortem.
use k8s_ts_mcp.Common.{
  Map, String, true, ◌≡◌, refl, Option, none, some, List, [], ◌∷◌, ◌++◌, All, text_contains, inl,
  inr,
}
use k8s_ts_mcp.ExecEngine.{RunResult}
use k8s_ts_mcp.Audit.{Entry, SignalRecord, ProposedActionRecord, as_stored}
use k8s_ts_mcp.Postmortem.{
  Formats, group_parts, later_groups, command_parts, commands_section, attempts_parts, resolution,
  result_section, head_parts, middle_parts, template_parts, render, status_of,
}
use k8s_ts_mcp.Postmortem.Shows.{
  here, Within-Shows, All-append, All-before, All-after, All-later, Shows,
}
use k8s_ts_mcp.Postmortem.Attempts.{attempts_texts, attempts-All}
use k8s_ts_mcp.Postmortem.Stored.{render-stored}

later_groups-All : (groups : List String) → All (Shows (later_groups groups)) groups
later_groups-All [] = tt
later_groups-All (g ∷ groups) = All-later ", " (g ∷ later_groups groups) (g ∷ groups) (
  here g (later_groups groups),
  All-later g (later_groups groups) groups (later_groups-All groups),
)

group_parts-All : (groups : List String) → All (Shows (group_parts groups)) groups
group_parts-All [] = tt
group_parts-All (g ∷ groups) = (
  here g (later_groups groups),
  All-later g (later_groups groups) groups (later_groups-All groups),
)

command_parts-All : (commands : List String) → All (Shows (command_parts commands)) commands
command_parts-All [] = tt
command_parts-All (c ∷ commands) = All-later "\n- " (c ∷ command_parts commands) (c ∷ commands) (
  here c (command_parts commands),
  All-later c (command_parts commands) commands (command_parts-All commands),
)

commands_section-All : (commands : List String) → All (Shows (commands_section commands)) commands
commands_section-All [] = tt
commands_section-All (c ∷ commands) =
    All-later "\n## Comandos propostos (não executados)\n"
      (command_parts (c ∷ commands) ++ ("\n" ∷ [])) (c ∷ commands)
      (All-before (command_parts (c ∷ commands)) ("\n" ∷ []) (c ∷ commands)
        (command_parts-All (c ∷ commands)))

abbrev pub result_texts : Option RunResult → List String
result_texts none = []
result_texts (some r) = attempts_texts r.attempts

abbrev pub explained : Entry → List String
explained e = status_of e ∷ e.summary ∷ e.decision.reason ∷ []

abbrev pub listed : Entry → List String
listed e = e.proposed_commands ++ result_texts e.result

-- What the text shows of an incident, in its head, in its middle and in its sections.
abbrev pub named : Formats → Entry → List String
named formats e = e.playbook_id ∷ e.id ∷ e.cluster_id ∷ formats.format_time e.time ∷ e.groups

abbrev pub shown : Formats → Entry → List String
shown formats e = named formats e ++ (explained e ++ listed e)

module _ (formats : Formats) where
  result-All : (r : Option RunResult) → All (Shows (result_section formats r)) (result_texts r)
  unfolding result_section
  result-All none = tt
  result-All (some r) =
      let runs = attempts_parts formats 0 r.attempts in
      let end = "\n## Resolução\n\n" ∷ (resolution formats r ++ ("\n" ∷ [])) in
      All-later "\n## Linha do tempo de ações executadas\n" (runs ++ end)
        (attempts_texts r.attempts)
        (All-before runs end (attempts_texts r.attempts) (attempts-All formats 0 r.attempts))

  head-All : (e : Entry) → All (Shows (head_parts formats e)) (named formats e)
  head-All e =
      let head = head_parts formats e in
      let heading : List String =
        "# Post-mortem: "
        ∷ e.playbook_id
        ∷ "\n\n- **ID do incidente:** "
        ∷ e.id
        ∷ "\n- **Cluster:** "
        ∷ e.cluster_id
        ∷ "\n- **Data/hora:** "
        ∷ formats.format_time e.time
        ∷ "\n- **Solicitado por (grupos):** "
        ∷ [] in
      (
        Within-Shows head e.playbook_id (inr (inl refl)),
        (
          Within-Shows head e.id (inr (inr (inr (inl refl)))),
          (
            Within-Shows head e.cluster_id (inr (inr (inr (inr (inr (inl refl)))))),
            (
              Within-Shows head (formats.format_time e.time)
                  (inr (inr (inr (inr (inr (inr (inr (inl refl)))))))),
              All-after heading (group_parts e.groups) e.groups (group_parts-All e.groups),
            ),
          ),
        ),
      )

  middle-All : (e : Entry) → All (Shows (middle_parts formats e)) (explained e)
  unfolding middle_parts
  middle-All e =
      let middle = middle_parts formats e in
      (
        Within-Shows middle (status_of e) (inr (inl refl)),
        (
          Within-Shows middle e.summary (inr (inr (inr (inl refl)))),
          (
            Within-Shows middle e.decision.reason
                (inr (inr (inr (inr (inr (inr (inr (inr (inr (inl refl)))))))))),
            tt,
          ),
        ),
      )

  sections-All :
      (e : Entry)
      → All
          (Shows (
            commands_section e.proposed_commands
            ++ ("\n" ∷ (result_section formats e.result ++ ("\n" ∷ [])))))
          (listed e)
  sections-All e =
      let commands = commands_section e.proposed_commands in
      let result = result_section formats e.result in
      let runs : List String = "\n" ∷ (result ++ ("\n" ∷ [])) in
      let texts = result_texts e.result in
      All-append (Shows (commands ++ runs)) e.proposed_commands texts
        (All-before commands runs e.proposed_commands (commands_section-All e.proposed_commands))
        (All-after commands runs texts (
          All-later "\n" (result ++ ("\n" ∷ [])) texts
            (All-before result ("\n" ∷ []) texts (result-All e.result))))

  shown-All : (e : Entry) → All (λ t. text_contains (render formats e) t ≡ true) (shown formats e)
  unfolding render template_parts
  shown-All e =
      let head = head_parts formats e in
      let middle = middle_parts formats e in
      let sections : List String =
        commands_section e.proposed_commands
        ++ ("\n" ∷ (result_section formats e.result ++ ("\n" ∷ []))) in
      let rest = middle ++ sections in
      All-append (Shows (head ++ rest)) (named formats e) (explained e ++ listed e)
        (All-before head rest (named formats e) (head-All e))
        (All-after head rest (explained e ++ listed e) (
          All-append (Shows rest) (explained e) (listed e)
            (All-before middle sections (explained e) (middle-All e))
            (All-after middle sections (listed e) (sections-All e))))

  -- The text of an incident holds the playbook, the ids, the time, the caller's groups, the status,
  -- the summary, the policy's reason, each of the proposed commands, and of each attempt the action,
  -- its risk, its command and its error, its output unless it was skipped, a mark where it was skipped
  -- and one where it was rolled back. It does not depend on the signal, the metadata, the proposed
  -- actions nor the tier of the decision.
  pub render_shows :
      (e : Entry) (sig : SignalRecord) (meta : Map String) (actions : List ProposedActionRecord)
      → All (λ t. text_contains (render formats e) t ≡ true) (shown formats e)
        × (render formats
              (record (as_stored e) { signal = sig; meta = meta; proposed_actions = actions })
            ≡ render formats e)
  render_shows e sig meta actions = (shown-All e, render-stored formats e sig meta actions)
