-- ===== src/Examples/Catalogue.antt =====
-- Examples of internal/runbooks and of cmd/hub-server.
use Prim.Native.Char.{code}
use k8s_ts_mcp.Common.{
  false, cat, is_nil, trim_space, is_space, words, to_lower, join, has_prefix, cut_prefix,
  trim_prefix, ℕ, suc, ◌+◌, ◌*◌, String, true, false, ◌≡◌, refl, some, List, [], ◌∷◌, if◌then◌else◌,
  ltb, eqb, All, find, select, contains, lookup, insert, insert_all, foreign, ok, err, Call,
  Unicode, leb, ◌&&◌, arith, Map,
}
use k8s_ts_mcp.AgentAuth.{Scope, AgentConfig, new_registry, resolve, token_from_header}
use k8s_ts_mcp.Runbooks.{Runbook, Entries, watch_and_reload, parse}
use k8s_ts_mcp.Runbooks.Printing.{IsPrintable, IsValue, print}
use k8s_ts_mcp.Runbooks.RoundTrip.{parse-print}
use k8s_ts_mcp.Common.TextLaws.{lacks, lacks-Lacks, free-Free}
use k8s_ts_mcp.Common.Trims.{IsTrimmed}
use k8s_ts_mcp.Runbooks.Similarity.{
  Floats, tokenize, similarity, best_from, score, build_idf, count_document, count_documents,
  tfidf_vector, term_counts, weighted, cosine, dot_and_norm, norm_from,
}
use k8s_ts_mcp.Runbooks.Lookup.{find_entry}
use k8s_ts_mcp.Runbooks.Ranking.{IsOrder, IsFound, find_entry-IsFound}
use k8s_ts_mcp.Runbooks.Reloading.{IsListed, reads, last_good, watch_keeps_last_good}
use k8s_ts_mcp.HubServer.{new_session_server}
use k8s_ts_mcp.HubServer.Sessions.{IsShutOut, unknown_token_is_refused}
use k8s_ts_mcp.Examples.Tools.{server, killed_pod, approval}

-- The lower case letters of ASCII are the letters.
abbrev pub unicode : Unicode
unicode = record {
  lower_char = λ c. c;
  is_letter = λ c. leb 97 (code c) && leb (code c) 122;
  is_digit = λ c. false;
}

-- Natural numbers in place of floating point.
abbrev pub floats : Floats ℕ
floats = record {
  of_nat = λ n. n;
  add = λ a b. a + b;
  mul = λ a b. a * b;
  div = λ a b. a;
  log = λ a. a;
  sqrt = λ a. a;
  below = ltb;
  same = eqb;
  one_tenth = 1;
}

floats-IsOrder : IsOrder floats unicode
floats-IsOrder = record {
  irreflexive = λ a. ground arith;
  transitive = λ a b c up later. ground arith;
}

abbrev runbook : String → String → Runbook
runbook kind body = record {
  title = "";
  kind = kind;
  keywords = "kafka" ∷ [];
  body = body;
  log_signatures = [];
  log_source = "";
}

abbrev catalogue : Entries
catalogue = runbook "PodOOMKilled" "raise" ∷ runbook "" "rebalance" ∷ []

find_entry-IsFound_example :
    IsFound floats unicode floats-IsOrder catalogue "KafkaLag" " kafka rebalance"
      (runbook "" "rebalance")
unfolding find_entry find score tokenize similarity best_from build_idf count_documents
    count_document tfidf_vector term_counts weighted cosine dot_and_norm norm_from contains select
    lookup insert trim_space is_space words to_lower join
find_entry-IsFound_example =
    find_entry-IsFound floats unicode floats-IsOrder catalogue "KafkaLag" " kafka rebalance"
      (runbook "" "rebalance") refl

-- The file cannot be read at time 1.
abbrev read_file : String → Call ℕ String
read_file path w =
    if eqb w 1
    then (err (foreign "no such file"), w)
    else (ok "## Killed\nkind: PodOOMKilled\nkeywords: oom, memory\n\nraise", w)

watch_keeps_last_good_example :
    let after = (watch_and_reload "runbooks.md" read_file suc 2 [] (catalogue, 0)).1.0 in
    (after ≡ last_good "runbooks.md" read_file catalogue (reads "runbooks.md" read_file suc 2 0))
    × All (IsListed "runbooks.md" read_file) after
watch_keeps_last_good_example =
    watch_keeps_last_good "runbooks.md" read_file suc 2 [] catalogue 0 (refl, (refl, tt))

abbrev agents : List AgentConfig
agents =
    record { name = "ops"; token = "secret"; allowed_accounts = "111" ∷ []; ad_groups = "sre" ∷ [] }
    ∷ []

abbrev registered : Map Scope
registered = new_registry (λ t. t) agents

unknown_token_is_refused_example :
    IsShutOut
      (new_session_server (λ t. t) (some registered) "Bearer other" (server true "111"))
      "spoke-1"
      "shop"
      "us-east-1"
      killed_pod
      approval
      0
unfolding resolve token_from_header new_registry lookup insert_all has_prefix cut_prefix trim_prefix
unknown_token_is_refused_example =
    unknown_token_is_refused (server true "111") (λ t. t) registered "Bearer other" "spoke-1" "shop"
      "us-east-1" killed_pod approval 0 refl refl

abbrev pending : Runbook
pending = record {
  title = "Pod pendente";
  kind = "PodPending";
  keywords = "pending" ∷ "sem node" ∷ [];
  body = "**Causa comum**: sem recursos.\n\n- ver eventos";
  log_signatures = [];
  log_source = "";
}

abbrev intro : String
intro = "# Catalogo\n\n---\n"

word-IsValue :
    (s : String)
    → lacks "\n" s ≡ true
    → lacks "," s ≡ true
    → is_nil s ≡ false
    → IsTrimmed s
    → IsValue s
word-IsValue s l c n t = ((lacks-Lacks "\n" s l, t), lacks-Lacks "," s c, n)

pending-IsPrintable : IsPrintable pending
unfolding is_space trim_space has_prefix cut_prefix
pending-IsPrintable = record {
  title_line = (lacks-Lacks "\n" "Pod pendente" refl, (refl, refl));
  kind_is_line = (lacks-Lacks "\n" "PodPending" refl, (refl, refl));
  keywords_are_values = (
    word-IsValue "pending" refl refl refl (refl, refl),
    (word-IsValue "sem node" refl refl refl (refl, refl), tt),
  );
  signatures_are_values = tt;
  source_is_line = (tt, (refl, refl));
  body_trimmed = (refl, refl);
  body_not_meta = refl;
  body_one_block = free-Free "\n## " (cat "\n" pending.body) refl;
  listed = refl;
}

parse-print_example : parse (cat intro (print (pending ∷ []))) ≡ pending ∷ []
unfolding has_prefix cut_prefix
parse-print_example =
    parse-print intro (pending ∷ []) (free-Free "\n## " (cat "\n" intro) refl)
      (pending-IsPrintable, tt)
