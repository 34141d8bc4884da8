-- ===== src/McpTools/Postmortem.antt =====
-- What get_postmortem and approve_action read of the file store: internal/mcptools/mcptools.go over
-- internal/audit/filestore.go.
use mathlib.Core.Option.{map as map_option}
use k8s_ts_mcp.Common.{
  ℕ, String, none, some, List, [], ◌==◌, ◌≡◌, ◌∙◌, refl, ap, Option, All, find, ok, err, Result,
  Call,
}
use k8s_ts_mcp.Policy.{Tier}
use k8s_ts_mcp.Audit.{Entry, as_stored}
use k8s_ts_mcp.Audit.FileStore.{Os, Json, file_store}
use k8s_ts_mcp.Audit.Lines.{IsFile, IsJson, IsShort}
use k8s_ts_mcp.Audit.Logging.{append_all, appended_are_found}
use k8s_ts_mcp.Postmortem.{render}
use k8s_ts_mcp.Postmortem.Stored.{render-stored}
use k8s_ts_mcp.McpTools.{Server}
use k8s_ts_mcp.McpTools.Approve.{
  ApproveActionIn, no_incident, with_entry, authorise, get_postmortem,
}

module _ {W : Type 0} (s : Server W) where
  -- The text of the incident, as it was recorded.
  abbrev pub text_of_incident : String → Option Entry → Result String
  text_of_incident id none = err (no_incident id)
  text_of_incident id (some e) = ok (render s.system.formats e)

  -- What an approval goes on with: the incident as it is stored.
  abbrev pub resumed : ApproveActionIn → Option Entry → Call W (Entry × Tier)
  resumed y none w = (err (no_incident y.incident_id), w)
  resumed y (some e) w = with_entry s y (as_stored e) w

  rendered_incident :
      (id : String) (o : Option Entry) (w w' : W)
      → s.audit.get id w ≡ (ok (map_option as_stored o), w')
      → get_postmortem s id w ≡ (text_of_incident id o, w')
  unfolding get_postmortem
  rendered_incident id none w w' h = rw h refl
  rendered_incident id (some e) w w' h =
      rw h
        (ap (λ t. (ok t, w')) (render-stored s.system.formats e e.signal e.meta e.proposed_actions))

  resumed_incident :
      (y : ApproveActionIn) (o : Option Entry) (w w' : W)
      → s.audit.get y.incident_id w ≡ (ok (map_option as_stored o), w')
      → authorise s y w ≡ resumed y o w'
  resumed_incident y none w w' h = rw h refl
  resumed_incident y (some e) w w' h = rw h refl

module _ {W : Type 0} (s : Server W) (os : Os W) (json : Json) (path : String)
    (content : W → List ℕ) (is_file : IsFile os content) where
  -- On a hub whose audit store is the file store, after incidents that encode to JSON were appended to
  -- an empty file, each with a line shorter than the scanner's buffer, and where the file can be read,
  -- get_postmortem gives the text of the first incident that was appended with the id, as it was
  -- before it was stored, and an error where there is none; approve_action goes on with the checks of
  -- that incident as it is stored, or fails with the same error.
  pub appended_are_rendered :
      (entries : List Entry) (y : ApproveActionIn) (w w1 w2 : W) (bytes : List ℕ)
      → s.audit ≡ file_store os json path
      → content w ≡ []
      → All (IsJson json) entries
      → append_all os json path entries w ≡ (ok tt, w1)
      → os.read w1 ≡ (ok (bytes, none), w2)
      → All (IsShort json) entries
      → let first : Option Entry = find (λ e. e.id == y.incident_id) entries in
        (get_postmortem s y.incident_id w1 ≡ (text_of_incident s y.incident_id first, w2))
        × (authorise s y w1 ≡ resumed s y first w2)
  appended_are_rendered entries y w w1 w2 bytes stored fresh js written read short =
      let (listed, found) =
        appended_are_found os json path content is_file entries "" y.incident_id w w1 w2 bytes fresh
          js written read short in
      let first : Option Entry = find (λ e. e.id == y.incident_id) entries in
      let got : s.audit.get y.incident_id w1 ≡ (ok (map_option as_stored first), w2) =
        ap (λ store. store.get y.incident_id w1) stored ∙ found in
      (rendered_incident s y.incident_id first w1 w2 got, resumed_incident s y first w1 w2 got)
