-- ===== src/Examples/Stores.antt =====
-- Examples of internal/rolecluster and of the file store of internal/audit.
use k8s_ts_mcp.Common.{
  map, foreign, if◌then◌else◌, ℕ, zero, suc, false, ◌≡◌, refl, sym, ap, subst, none, some, List, [],
  ◌∷◌, ◌++◌, ◌==◌, eqb, leb, le→leb, length, All, find, select, lookup, insert, Error, ok, err,
  arith, Result,
}
use mathlib.Core.List.Memᴰ
use k8s_ts_mcp.AgentCore.{Handler}
use mathlib.Core.Option.{map as map_option}
use k8s_ts_mcp.Audit.{Entry, as_stored}
use k8s_ts_mcp.Audit.FileStore.{Os, Json, newline, max_line, drop_cr, append, list_by_cluster, get}
use k8s_ts_mcp.Audit.Lines.{IsFile, IsJson, IsShort, IsLong}
use k8s_ts_mcp.Audit.Logging.{appended_are_found, long_line_blocks_reads}
use k8s_ts_mcp.RoleCluster.{Cache, Manager, handler, install, build}
use k8s_ts_mcp.RoleCluster.Caching.{untouched, then_install, handler_is_kept}
use k8s_ts_mcp.Examples.Watching.{api, texts}
use k8s_ts_mcp.Examples.Tools.{incident, info}

-- The world counts the calls of the inventory and of AWS.
abbrev manager : Manager ℕ
manager = record {
  inventory = some (λ id w. (ok (some info), suc w));
  registry = λ api. [];
  texts = texts;
  new_client = λ arn name region w. (ok api, suc w);
  sprintf = λ f args. f;
}

abbrev spoke : Handler ℕ
spoke = record { api = api; registry = []; texts = texts }

abbrev alone : Cache ℕ → Cache ℕ
alone cache = cache

abbrev cached : Cache ℕ
cached = ("spoke-1", spoke) ∷ []

handler_is_kept_example :
    handler manager "spoke-1" alone ((install manager "spoke-2" spoke cached).1, 9)
    ≡ (some (ok spoke), ((install manager "spoke-2" spoke cached).1, 9))
unfolding handler install build lookup insert
handler_is_kept_example =
    handler_is_kept manager "spoke-1" alone alone ([], 0) spoke cached
      (install manager "spoke-2" spoke cached).1 2 9 refl (then_install untouched "spoke-2" spoke)

-- A line of the given length.
pub line_of_length : ℕ → List ℕ
line_of_length zero = []
line_of_length (suc n) = 65 ∷ line_of_length n

length-line_of_length : (n : ℕ) → length (line_of_length n) ≡ n
unfolding line_of_length
length-line_of_length zero = refl
length-line_of_length (suc n) = ap suc (length-line_of_length n)

one_line_of : (n : ℕ) → All (λ b. eqb b newline ≡ false) (line_of_length n)
unfolding line_of_length
one_line_of zero = tt
one_line_of (suc n) = (refl, one_line_of n)

closed_of : (n : ℕ) → drop_cr (line_of_length n) ≡ line_of_length n
unfolding line_of_length drop_cr
closed_of zero = refl
closed_of (suc zero) = refl
closed_of (suc (suc n)) = ap (λ l. 65 ∷ l) (closed_of (suc n))

-- A later incident of another cluster.
abbrev other : Entry
other = record incident { id = "i-9"; cluster_id = "spoke-2"; playbook_id = "calico/node-degraded" }

abbrev decode : List ℕ → Result Entry
decode [] = err (foreign "unexpected end of JSON input")
decode (b ∷ line) = if eqb b 66 then ok (as_stored other) else ok (as_stored incident)

-- An encoding of the two, with a line of the given length for the first.
abbrev pub json : ℕ → Json
json n = record {
  marshal = λ e. if e.id == "i-1" then ok (line_of_length n) else ok (66 ∷ []);
  unmarshal = decode;
}

ok_line : {line line' : List ℕ} → ◌≡◌ {A = Result (List ℕ)} (ok line) (ok line') → line ≡ line'
ok_line e = cc

pub incident-IsJson : (n : ℕ) → IsJson (json (suc n)) incident
unfolding line_of_length
incident-IsJson n = record {
  one_line = λ line m. subst (All (λ b. eqb b newline ≡ false)) (ok_line m) (one_line_of (suc n));
  closed = λ line m. subst (λ l. drop_cr l ≡ l) (ok_line m) (closed_of (suc n));
  not_empty = λ m. cc;
  inverse = λ line m. subst (λ l. decode l ≡ ok (as_stored incident)) (ok_line m) refl;
}

pub other-IsJson : (n : ℕ) → IsJson (json n) other
unfolding drop_cr
other-IsJson n = record {
  one_line = λ line m. subst (All (λ b. eqb b newline ≡ false)) (ok_line m) (refl, tt);
  closed = λ line m. subst (λ l. drop_cr l ≡ l) (ok_line m) refl;
  not_empty = λ m. cc;
  inverse = λ line m. subst (λ l. decode l ≡ ok (as_stored other)) (ok_line m) refl;
}

-- A file that is the whole world.
abbrev pub os : Os (List ℕ)
os = record {
  has_dir = false;
  mkdir_all = λ w. (ok tt, w);
  open_append = λ w. (ok tt, w);
  write = λ bytes w. (ok tt, w ++ bytes);
  read = λ w. (ok (w, none), w);
}

pub os-IsFile : IsFile os (λ w. w)
os-IsFile = record {
  opens = λ w w' e. ap (λ r. r.1) (sym e);
  writes = λ bytes w w' e. ap (λ r. r.1) (sym e);
  reads = λ bytes w w' e. cc;
}

abbrev pub file : ℕ → List ℕ
file n = (line_of_length n ++ (newline ∷ [])) ++ (66 ∷ newline ∷ [])

abbrev pub incidents : List Entry
incidents = incident ∷ other ∷ []

pub incident-IsShort : IsShort (json 3) incident
unfolding line_of_length
incident-IsShort line m = subst (λ l. leb max_line (length l) ≡ false) (ok_line m) refl

pub other-IsShort : IsShort (json 3) other
other-IsShort line m = subst (λ l. leb max_line (length l) ≡ false) (ok_line m) refl

appended_are_found_example :
    (list_by_cluster os (json 3) "audit.jsonl" "spoke-2" (file 3)
      ≡ (ok (map as_stored (select (λ (e : Entry). e.cluster_id == "spoke-2") incidents)), file 3))
    × (get os (json 3) "audit.jsonl" "i-1" (file 3)
        ≡ (ok (map_option as_stored (find (λ (e : Entry). e.id == "i-1") incidents)), file 3))
unfolding append
appended_are_found_example =
    appended_are_found os (json 3) "audit.jsonl" (λ w. w) os-IsFile incidents "spoke-2" "i-1" []
      (file 3) (file 3) (file 3) refl (incident-IsJson 2, (other-IsJson 3, tt)) refl refl
      (incident-IsShort, (other-IsShort, tt))

abbrev limit : ℕ
limit = max_line

long : IsLong (json limit) incident
long = (
  line_of_length limit,
  refl,
  rw (length-line_of_length limit) (le→leb limit limit (omega arith)),
)

-- After the long line the other incident is not found either.
long_line_blocks_reads_example :
    (x : Error) × (list_by_cluster os (json limit) "audit.jsonl" "i-9" (file limit)
      ≡ (err x, file limit))
    × (get os (json limit) "audit.jsonl" "i-9" (file limit) ≡ (err x, file limit))
unfolding append
long_line_blocks_reads_example =
    long_line_blocks_reads os (json limit) "audit.jsonl" (λ w. w) os-IsFile incidents incident "i-9"
      [] (file limit) (file limit) (file limit) refl
      (incident-IsJson 8388607, (other-IsJson limit, tt)) refl refl (Memᴰ.head refl) long
