-- ===== src/Audit/FileStore.antt =====
-- internal/audit/filestore.go: a store in a file with a line of JSON for each entry. A file is the
-- list of its bytes; `bufio.Scanner` is modelled, package os and the encoding of JSON are parameters.
use k8s_ts_mcp.Common.{
  ℕ, ◌*◌, String, Bool, true, false, Option, none, some, List, [], ◌∷◌, ◌++◌, ◌==◌, if◌then◌else◌,
  eqb, leb, length, find, select, Error, errorf, end, str, cause, Result, ok, err, Call, ◌>>=◌,
  pure, raise, wrap_err,
}
use k8s_ts_mcp.Audit.{Entry, Store}

-- `read` gives what can be read of the file, and the error that stopped it, if any.
pub record Os (W : Type 0) : Type 0 where
  pub has_dir : Bool
  pub mkdir_all : Call W (Unit {0})
  pub open_append : Call W (Unit {0})
  pub write : List ℕ → Call W (Unit {0})
  pub read : Call W (List ℕ × Option Error)

-- `json.Marshal` and `json.Unmarshal` of an entry.
pub record Json : Type 0 where
  pub marshal : Entry → Result (List ℕ)
  pub unmarshal : List ℕ → Result Entry

abbrev pub newline : ℕ
newline = 10

abbrev carriage_return : ℕ
carriage_return = 13

-- A line, its end not counted, has to be shorter than the scanner's buffer.
abbrev pub max_line : ℕ
max_line = 8 * (1024 * 1024)

abbrev last_line : List ℕ → List (List ℕ)
last_line [] = []
last_line (b ∷ line) = (b ∷ line) ∷ []

-- `bufio.ScanLines`: the lines of a file, with what was read of the current one.
unfoldable pub lines_from : List ℕ → List ℕ → List (List ℕ)
lines_from line [] = last_line line
lines_from line (b ∷ bytes) = elim (eqb b newline) [
  | true ↦ line ∷ lines_from [] bytes
  | false ↦ lines_from (line ++ (b ∷ [])) bytes
]

-- A carriage return at the end of a line is dropped.
unfoldable pub drop_cr : List ℕ → List ℕ
drop_cr [] = []
drop_cr (b ∷ []) = if eqb b carriage_return then [] else b ∷ []
drop_cr (b ∷ c ∷ line) = b ∷ drop_cr (c ∷ line)

abbrev pub too_long : Error
too_long = Error.foreign "bufio.Scanner: token too long"

module _ {W : Type 0} (os : Os W) (json : Json) (path : String) where
  abbrev opening : Error → Error
  opening e = errorf "opening audit file %s: %w" (str path (cause e end))

  abbrev pub reading : Error → Error
  reading e = errorf "reading audit file %s: %w" (str path (cause e end))

  abbrev creating : Error → Error
  creating e = errorf "creating audit dir %s: %w" (str path (cause e end))

  abbrev make_dir : Call W (Unit {0})
  make_dir = if os.has_dir then wrap_err creating os.mkdir_all else pure tt

  unfoldable pub new_file_store : Call W (Unit {0})
  new_file_store = do _ ← make_dir; wrap_err opening os.open_append

  abbrev pub marshalled : Result (List ℕ) → Call W (List ℕ)
  marshalled (err e) = raise (errorf "marshaling audit entry: %w" (cause e end))
  marshalled (ok line) = pure line

  abbrev pub write_line : List ℕ → Call W (Unit {0})
  write_line line =
      wrap_err (λ e. errorf "writing audit entry: %w" (cause e end))
        (os.write (line ++ (newline ∷ [])))

  -- `Append`.
  unfoldable pub append : Entry → Call W (Unit {0})
  append e = do
    _ ← wrap_err opening os.open_append
    line ← marshalled (json.marshal e)
    write_line line

  abbrev pub and_then : Result Entry → Result (List Entry) → Result (List Entry)
  and_then (err e) rest = err (errorf "decoding audit entry: %w" (cause e end))
  and_then (ok e) (err x) = err x
  and_then (ok e) (ok entries) = ok (e ∷ entries)

  abbrev pub decoded : List ℕ → Result (List Entry) → Result (List Entry)
  decoded [] rest = rest
  decoded (b ∷ line) rest = and_then (json.unmarshal (b ∷ line)) rest

  abbrev pub at_end : Option Error → Result (List Entry)
  at_end none = ok []
  at_end (some e) = err (reading e)

  -- The loop of `all` over the lines, and the scanner's error after it.
  unfoldable pub read_lines : Option Error → List (List ℕ) → Result (List Entry)
  unfolding drop_cr
  read_lines stopped [] = at_end stopped
  read_lines stopped (line ∷ lines) =
      let rest = read_lines stopped lines in
      if leb max_line (length line) then err (reading too_long) else decoded (drop_cr line) rest

  abbrev pub read_all : Result (List ℕ × Option Error) × W → Result (List Entry) × W
  read_all (err e, w) = (err (opening e), w)
  read_all (ok (bytes, stopped), w) = (read_lines stopped (lines_from [] bytes), w)

  unfoldable pub all : Call W (List Entry)
  unfolding read_lines lines_from
  all w = read_all (os.read w)

  unfoldable pub list_by_cluster : String → Call W (List Entry)
  unfolding all select
  list_by_cluster id = do entries ← all; pure (select (λ e. e.cluster_id == id) entries)

  unfoldable pub get : String → Call W (Option Entry)
  unfolding all find
  get id = do entries ← all; pure (find (λ e. e.id == id) entries)

  -- `FileStore` as a `Store`.
  abbrev pub file_store : Store W
  file_store = record { append = append; get = get; list_by_cluster = list_by_cluster }
