-- ===== src/Audit/Logging.antt =====
-- The file store as a log of entries: internal/audit/filestore.go, over a file that is only appended
-- to.
use k8s_ts_mcp.Common.{
  ℕ, String, ◌≡◌, ◌∙◌, refl, sym, ap, subst, inl, inr, none, List, [], ◌∷◌, ◌++◌, map, ◌==◌, All,
  find, select, Bool-cases, Error, Result, ok, err, Call, ◌>>=◌, pure, bind-ok, wrap_err-ok,
}
use mathlib.Core.List.{Memᴰ, append_assoc, append-nil}
use mathlib.Core.Option.{map as map_option}
use k8s_ts_mcp.Audit.{Entry, as_stored}
use k8s_ts_mcp.Audit.FileStore.{Os, Json, newline, marshalled, append, all, list_by_cluster, get}
use k8s_ts_mcp.Audit.Lines.{
  IsFile, IsJson, Log, nothing, Log-append, IsShort, IsLong, read-Log, read_Log-IsFailed,
}

-- The searches of the store read fields that JSON keeps.
select-stored :
    (cluster : String) (entries : List Entry)
    → select (λ (e : Entry). e.cluster_id == cluster) (map as_stored entries)
      ≡ map as_stored (select (λ (e : Entry). e.cluster_id == cluster) entries)
unfolding select
select-stored cluster [] = refl
select-stored cluster (e ∷ entries) = elim (Bool-cases (e.cluster_id == cluster)) [
  | inl hit ↦ rw hit (ap (λ es. as_stored e ∷ es) (select-stored cluster entries))
  | inr miss ↦ rw miss (select-stored cluster entries)
]

find-stored :
    (id : String) (entries : List Entry)
    → find (λ (e : Entry). e.id == id) (map as_stored entries)
      ≡ map_option as_stored (find (λ (e : Entry). e.id == id) entries)
unfolding find
find-stored id [] = refl
find-stored id (e ∷ entries) = elim (Bool-cases (e.id == id)) [
  | inl hit ↦ rw hit refl
  | inr miss ↦ rw miss (find-stored id entries)
]

-- Entries that are appended one after the other.
abbrev pub append_all : {W : Type 0} → Os W → Json → String → List Entry → Call W (Unit {0})
append_all os json path [] = pure tt
append_all os json path (e ∷ entries) = do
  _ ← append os json path e
  append_all os json path entries

module _ {W : Type 0} (os : Os W) (json : Json) (path : String) (content : W → List ℕ)
    (is_file : IsFile os content) where
  marshalled-ok :
      (r : Result (List ℕ)) (line : List ℕ) (w w' : W)
      → marshalled os json path r w ≡ (ok line, w')
      → (r ≡ ok line) × (w ≡ w')
  marshalled-ok (err e) line w w' h = absurd (cc)
  marshalled-ok (ok l) line w w' h = (cc, cc)

  append-adds :
      (e : Entry) (w w' : W)
      → append os json path e w ≡ (ok tt, w')
      → (line : List ℕ) × (json.marshal e ≡ ok line)
        × (content w' ≡ content w ++ (line ++ (newline ∷ [])))
  unfolding append
  append-adds e w w' h =
      let (_, w1, opened, h1) = bind-ok _ _ tt w' h in
      let (line, w2, encoded, h2) =
        bind-ok (marshalled os json path (json.marshal e) w1) _ tt w' h1 in
      let (m, same) = marshalled-ok (json.marshal e) line w1 w2 encoded in
      let put = is_file.writes (line ++ (newline ∷ [])) w2 w' (wrap_err-ok _ _ tt w' h2) in
      let kept = is_file.opens w w1 (wrap_err-ok _ _ tt w1 opened) in
      (line, m, put ∙ ap (λ c. c ++ (line ++ (newline ∷ []))) (ap content (sym same) ∙ kept))

  append_all-Log :
      (entries before : List Entry) (w w' : W)
      → Log json (content w) before
      → All (IsJson json) entries
      → append_all os json path entries w ≡ (ok tt, w')
      → Log json (content w') (before ++ entries)
  append_all-Log [] before w w' log js h =
      subst (λ es. Log json (content w') es) (sym (append-nil before))
        (subst (λ v. Log json (content v) before) (ap (λ r. r.1) h) log)
  append_all-Log (e ∷ entries) before w w' log (j, js) h =
      let (_, w1, now, later) = bind-ok (append os json path e w) _ tt w' h in
      let (line, m, put) = append-adds e w w1 now in
      let longer : Log json (content w1) (before ++ (e ∷ [])) =
        subst (λ c. Log json c (before ++ (e ∷ []))) (sym put) (Log-append json e line j m log) in
      subst (λ es. Log json (content w') es) (append_assoc before (e ∷ []) entries)
        (append_all-Log entries (before ++ (e ∷ [])) w1 w' longer js later)

  all-Log :
      (entries : List Entry) (w w1 w2 : W) (bytes : List ℕ)
      → content w ≡ []
      → All (IsJson json) entries
      → append_all os json path entries w ≡ (ok tt, w1)
      → os.read w1 ≡ (ok (bytes, none), w2)
      → Log json bytes entries
  all-Log entries w w1 w2 bytes fresh js written read =
      subst (λ c. Log json c entries) (sym (is_file.reads bytes w1 w2 read))
        (append_all-Log entries [] w w1 (subst (λ c. Log json c []) (sym fresh) nothing) js written)

  -- After entries that encode to JSON were appended to an empty file, each with a line shorter than the
  -- scanner's buffer, and where the file can be read, a cluster's entries are those that were
  -- appended for it, in their order, and an id gives the first entry that was appended with it; each
  -- as JSON stores it, without the tier of its decision and without empty snapshots.
  pub appended_are_found :
      (entries : List Entry) (cluster id : String) (w w1 w2 : W) (bytes : List ℕ)
      → content w ≡ []
      → All (IsJson json) entries
      → append_all os json path entries w ≡ (ok tt, w1)
      → os.read w1 ≡ (ok (bytes, none), w2)
      → All (IsShort json) entries
      → (list_by_cluster os json path cluster w1
          ≡ (ok (map as_stored (select (λ (e : Entry). e.cluster_id == cluster) entries)), w2))
        × (get os json path id w1
            ≡ (ok (map_option as_stored (find (λ (e : Entry). e.id == id) entries)), w2))
  unfolding list_by_cluster get all
  appended_are_found entries cluster id w w1 w2 bytes fresh js written read short =
      let log = all-Log entries w w1 w2 bytes fresh js written read in
      let whole = read-Log os json path log short in
      (
        rw (read, whole, select-stored cluster entries) refl,
        rw (read, whole, find-stored id entries) refl,
      )

  -- Where entries that encode to JSON were appended to an empty file, one of them with a line that is
  -- as long as the scanner's buffer or longer, and the file can be read, each lookup of a cluster or of
  -- an id fails.
  pub long_line_blocks_reads :
      (entries : List Entry) (e : Entry) (id : String) (w w1 w2 : W) (bytes : List ℕ)
      → content w ≡ []
      → All (IsJson json) entries
      → append_all os json path entries w ≡ (ok tt, w1)
      → os.read w1 ≡ (ok (bytes, none), w2)
      → Memᴰ e entries
      → IsLong json e
      → (x : Error) × (list_by_cluster os json path id w1 ≡ (err x, w2))
        × (get os json path id w1 ≡ (err x, w2))
  unfolding list_by_cluster get all
  long_line_blocks_reads entries e id w w1 w2 bytes fresh js written read there long =
      let log = all-Log entries w w1 w2 bytes fresh js written read in
      let (x, failed) = read_Log-IsFailed os json path e log there long in
      (x, rw (read, failed) refl, rw (read, failed) refl)
