-- ===== src/Audit/Lines.antt =====
-- The lines of the audit file, written and read: internal/audit/filestore.go.
use k8s_ts_mcp.Common.{
  ℕ, String, true, false, ◌≡◌, ◌∙◌, refl, sym, ap, subst, ◌≢◌, inl, inr, none, List, [], ◌∷◌, ◌++◌,
  map, eqb, leb, length, All, Bool-cases, Error, Result, ok, err,
}
use mathlib.Core.List.{Memᴰ, append_assoc, append-nil}
use k8s_ts_mcp.Audit.{Entry, as_stored}
use k8s_ts_mcp.Audit.FileStore.{
  Os, Json, newline, max_line, lines_from, drop_cr, and_then, decoded, read_lines,
}

-- A file, whose bytes are `content`.
pub record IsFile {W : Type 0} (os : Os W) (content : W → List ℕ) : Type 0 where
  pub opens : (w w' : W) → os.open_append w ≡ (ok tt, w') → content w' ≡ content w
  pub writes :
      (bytes : List ℕ) (w w' : W) → os.write bytes w ≡ (ok tt, w') → content w' ≡ content w ++ bytes
  pub reads : (bytes : List ℕ) (w w' : W) → os.read w ≡ (ok (bytes, none), w') → bytes ≡ content w

-- What the encoding of an entry is: one line that is not empty and does not end in a carriage return,
-- from which what is stored of the entry is decoded. A map is read back in the order of its keys, so
-- this is of entries whose maps are listed in that order.
pub record IsJson (json : Json) (e : Entry) : Type 0 where
  pub one_line : (line : List ℕ) → json.marshal e ≡ ok line → All (λ b. eqb b newline ≡ false) line
  pub closed : (line : List ℕ) → json.marshal e ≡ ok line → drop_cr line ≡ line
  pub not_empty : json.marshal e ≢ ok []
  pub inverse : (line : List ℕ) → json.marshal e ≡ ok line → json.unmarshal line ≡ ok (as_stored e)

lines_from-line :
    (line seen bytes : List ℕ)
    → All (λ b. eqb b newline ≡ false) line
    → lines_from seen (line ++ (newline ∷ bytes)) ≡ (seen ++ line) ∷ lines_from [] bytes
unfolding lines_from
lines_from-line [] seen bytes h = ap (λ l. l ∷ lines_from [] bytes) (sym (append-nil seen))
lines_from-line (b ∷ line) seen bytes (other, h) =
    rw (other, lines_from)
      (lines_from-line line (seen ++ (b ∷ [])) bytes h
        ∙ ap (λ l. l ∷ lines_from [] bytes) (append_assoc seen (b ∷ []) line))

module _ (json : Json) where
  -- The bytes of a file in which the entries were written.
  pub data Log : List ℕ → List Entry → Type 0 where
    nothing : Log [] []
    line_of :
        (e : Entry) (line : List ℕ) {bytes : List ℕ} {entries : List Entry}
        → IsJson json e
        → json.marshal e ≡ ok line
        → Log bytes entries
        → Log (line ++ (newline ∷ bytes)) (e ∷ entries)

  pub Log-append :
      (e : Entry) (line : List ℕ) {bytes : List ℕ} {entries : List Entry}
      → IsJson json e
      → json.marshal e ≡ ok line
      → Log bytes entries
      → Log (bytes ++ (line ++ (newline ∷ []))) (entries ++ (e ∷ []))
  Log-append e line j m nothing = line_of e line j m nothing
  Log-append e line j m (line_of d before {bytes = bytes} {entries = entries} dj dm log) =
      subst (λ b. Log b (d ∷ (entries ++ (e ∷ []))))
        (sym (append_assoc before (newline ∷ bytes) (line ++ (newline ∷ []))))
        (line_of d before dj dm (Log-append e line j m log))

  -- The line of the entry fits in the scanner's buffer, or does not.
  abbrev pub IsShort : Entry → Type 0
  IsShort e = (line : List ℕ) → json.marshal e ≡ ok line → leb max_line (length line) ≡ false

  abbrev pub IsLong : Entry → Type 0
  IsLong e = (line : List ℕ) × (json.marshal e ≡ ok line) × (leb max_line (length line) ≡ true)

module _ {W : Type 0} (os : Os W) (json : Json) (path : String) where
  decoded-line :
      (e : Entry) (line : List ℕ) (rest : Result (List Entry))
      → IsJson json e
      → json.marshal e ≡ ok line
      → decoded os json path (drop_cr line) rest ≡ and_then os json path (ok (as_stored e)) rest
  decoded-line e [] rest j m = absurd (j.not_empty m)
  decoded-line e (b ∷ line) rest j m = rw (j.closed (b ∷ line) m, j.inverse (b ∷ line) m) refl

  lines-Log :
      (e : Entry) (line bytes : List ℕ)
      → IsJson json e
      → json.marshal e ≡ ok line
      → lines_from [] (line ++ (newline ∷ bytes)) ≡ line ∷ lines_from [] bytes
  lines-Log e line bytes j m = lines_from-line line [] bytes (j.one_line line m)

  pub read-Log :
      {bytes : List ℕ} {entries : List Entry}
      → Log json bytes entries
      → All (IsShort json) entries
      → read_lines os json path none (lines_from [] bytes) ≡ ok (map as_stored entries)
  unfolding read_lines lines_from
  read-Log nothing h = refl
  read-Log (line_of e line {bytes = bytes} {entries = entries} j m log) (short, h) =
      rw (lines-Log e line bytes j m, short line m, read_lines)
        (decoded-line e line (read_lines os json path none (lines_from [] bytes)) j m
          ∙ ap (and_then os json path (ok (as_stored e))) (read-Log log h))

  abbrev pub IsFailed : Result (List Entry) → Type 0
  IsFailed r = (x : Error) × (r ≡ err x)

  read_line-IsFailed :
      (e : Entry) (line bytes : List ℕ)
      → IsJson json e
      → json.marshal e ≡ ok line
      → IsFailed (read_lines os json path none (lines_from [] bytes))
      → IsFailed (read_lines os json path none (line ∷ lines_from [] bytes))
  unfolding read_lines
  read_line-IsFailed e line bytes j m (x, failed) = elim (Bool-cases (leb max_line (length line))) [
    | inl long ↦ rw long (_, refl)
    | inr short ↦ rw short (
      x,
      decoded-line e line (read_lines os json path none (lines_from [] bytes)) j m
          ∙ ap (and_then os json path (ok (as_stored e))) failed,
    )
  ]

  pub read_Log-IsFailed :
      {bytes : List ℕ} {entries : List Entry} (e : Entry)
      → Log json bytes entries
      → Memᴰ e entries
      → IsLong json e
      → IsFailed (read_lines os json path none (lines_from [] bytes))
  unfolding read_lines
  read_Log-IsFailed e nothing never long = elim never [ ]
  read_Log-IsFailed e (line_of d line {bytes = bytes} j m log) (Memᴰ.head same)
        (long_line, lm, long) =
      let one : ok line ≡ ok long_line = sym m ∙ (ap json.marshal (sym same) ∙ lm) in
      let eq : line ≡ long_line = cc in rw (lines-Log d line bytes j m, eq, long) (_, refl)
  read_Log-IsFailed e (line_of d line {bytes = bytes} j m log) (Memᴰ.tail later) long =
      subst (λ ls. IsFailed (read_lines os json path none ls)) (sym (lines-Log d line bytes j m))
        (read_line-IsFailed d line bytes j m (read_Log-IsFailed e log later long))
