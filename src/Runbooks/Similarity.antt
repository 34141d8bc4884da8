-- ===== src/Runbooks/Similarity.antt =====
-- internal/runbooks/similarity.go: ranking runbooks by TF-IDF and cosine. The arithmetic of float64
-- is the record `Floats`; a map is walked in the order of its association list, where Go's order is
-- not fixed and rounding may differ by it.
use k8s_ts_mcp.Common.{
  Unicode, words, to_lower, join, ℕ, suc, String, append_text, Bool, true, false, not, ◌||◌, Option,
  none, some, List, [], ◌∷◌, if◌then◌else◌, length, contains, select, Map, lookup, insert,
}
use k8s_ts_mcp.Runbooks.{Runbook}

pub record Floats (F : Type 0) : Type 0 where
  pub of_nat : ℕ → F
  pub add : F → F → F
  pub mul : F → F → F
  pub div : F → F → F
  pub log : F → F
  pub sqrt : F → F
  pub below : F → F → Bool
  pub same : F → F → Bool
  pub one_tenth : F

abbrev stopwords : List String
stopwords =
    "a" ∷ "o" ∷ "os" ∷ "as" ∷ "um" ∷ "uma" ∷ "uns" ∷ "umas" ∷ "de" ∷ "do" ∷ "da" ∷ "dos" ∷ "das"
    ∷ "em" ∷ "no" ∷ "na" ∷ "nos" ∷ "nas" ∷ "por" ∷ "para" ∷ "com" ∷ "sem" ∷ "sob" ∷ "sobre"
    ∷ "entre" ∷ "e" ∷ "ou" ∷ "mas" ∷ "que" ∷ "se" ∷ "não" ∷ "sim" ∷ "é" ∷ "são" ∷ "foi" ∷ "foram"
    ∷ "ser" ∷ "estar" ∷ "tem" ∷ "têm" ∷ "ter" ∷ "isso" ∷ "essa" ∷ "esse" ∷ "essas" ∷ "esses" ∷ "ao"
    ∷ "aos" ∷ "à" ∷ "às" ∷ "pra" ∷ "pro" ∷ "ate" ∷ "até" ∷ "como" ∷ "quando" ∷ "onde" ∷ "qual"
    ∷ "quais" ∷ "seu" ∷ "sua" ∷ "seus" ∷ "suas" ∷ "meu" ∷ "minha" ∷ "meus" ∷ "minhas" ∷ "ele"
    ∷ "ela" ∷ "eles" ∷ "elas" ∷ "eu" ∷ "tu" ∷ "você" ∷ "vc" ∷ "voce" ∷ "vocês" ∷ "nós" ∷ "lhe"
    ∷ "lhes" ∷ "já" ∷ "mais" ∷ "menos" ∷ "muito" ∷ "pouco" ∷ "aqui" ∷ "ali" ∷ "lá" ∷ "depois"
    ∷ "antes" ∷ "então" ∷ "ainda" ∷ "também" ∷ "só" ∷ "apenas" ∷ "caso" ∷ "ex" ∷ "etc" ∷ []

abbrev counted : Option ℕ → ℕ
counted none = 0
counted (some n) = n

module _ {F : Type 0} (floats : Floats F) (unicode : Unicode) where
  open floats use {of_nat, add, mul, div, log, sqrt, below, same}

  unfoldable pub tokenize : String → List String
  unfolding contains select
  tokenize s = select (λ t. not (contains t stopwords)) (words unicode (to_lower unicode s))

  -- The loop over one document, with its `seen`.
  unfoldable pub count_document : List String → Map ℕ → List String → Map ℕ
  unfolding contains lookup insert
  count_document seen df [] = df
  count_document seen df (tok ∷ doc) = elim (contains tok seen) [
    | true ↦ count_document seen df doc
    | false ↦ count_document (tok ∷ seen) (insert tok (suc (counted (lookup tok df))) df) doc
  ]

  unfoldable pub count_documents : Map ℕ → List (List String) → Map ℕ
  unfolding count_document
  count_documents df [] = df
  count_documents df (doc ∷ docs) = count_documents (count_document [] df doc) docs

  abbrev weights : F → Map ℕ → Map F
  weights n [] = []
  weights n ((term, count) ∷ df) =
      (term, add (log (add (of_nat 1) (div n (of_nat count)))) (of_nat 1)) ∷ weights n df

  unfoldable pub build_idf : List (List String) → Map F
  unfolding count_documents
  build_idf docs = weights (of_nat (length docs)) (count_documents [] docs)

  abbrev or_zero : Option F → F
  or_zero none = of_nat 0
  or_zero (some x) = x

  unfoldable pub term_counts : Map F → List String → Map F
  unfolding lookup insert
  term_counts tf [] = tf
  term_counts tf (tok ∷ tokens) =
      term_counts (insert tok (add (or_zero (lookup tok tf)) (of_nat 1)) tf) tokens

  unfoldable pub weighted : Map F → Map F → Map F
  unfolding lookup
  weighted idf [] = []
  weighted idf ((term, count) ∷ tf) =
      (term, mul count (or_zero (lookup term idf))) ∷ weighted idf tf

  unfoldable pub tfidf_vector : List String → Map F → Map F
  unfolding term_counts weighted
  tfidf_vector tokens idf = weighted idf (term_counts [] tokens)

  abbrev added : F → F → Option F → F
  added dot va none = dot
  added dot va (some vb) = add dot (mul va vb)

  -- The first loop of `cosine`: `dot` and `normA`.
  unfoldable pub dot_and_norm : Map F → F → F → Map F → F × F
  unfolding lookup
  dot_and_norm b dot norm [] = (dot, norm)
  dot_and_norm b dot norm ((term, va) ∷ a) =
      dot_and_norm b (added dot va (lookup term b)) (add norm (mul va va)) a

  unfoldable pub norm_from : F → Map F → F
  norm_from norm [] = norm
  norm_from norm ((term, vb) ∷ b) = norm_from (add norm (mul vb vb)) b

  abbrev quotient_of : F × F → F → F
  quotient_of (dot, norm_a) norm_b =
      if same norm_a (of_nat 0) || same norm_b (of_nat 0)
      then of_nat 0
      else div dot (mul (sqrt norm_a) (sqrt norm_b))

  unfoldable pub cosine : Map F → Map F → F
  unfolding dot_and_norm norm_from
  cosine a b = quotient_of (dot_and_norm b (of_nat 0) (of_nat 0) a) (norm_from (of_nat 0) b)

  abbrev document : Runbook → String
  document e =
      append_text e.title
        (append_text " " (append_text (join " " e.keywords) (append_text " " e.body)))

  abbrev documents : List Runbook → List (List String)
  documents [] = []
  documents (e ∷ entries) = tokenize (document e) ∷ documents entries

  -- How similar a runbook of a catalogue is to the tokens of a query.
  unfoldable pub similarity : List Runbook → List String → Runbook → F
  unfolding tokenize build_idf tfidf_vector cosine
  similarity entries query e =
      let idf = build_idf (documents entries) in
      cosine (tfidf_vector query idf) (tfidf_vector (tokenize (document e)) idf)

  abbrev pub score_of : Option (Runbook × F) → F
  score_of none = of_nat 0
  score_of (some (e, s)) = s

  -- The loop of `score`, with the best entry so far and its score; none is its `ok` being false.
  unfoldable pub best_from :
      (Runbook → F) → Option (Runbook × F) → List Runbook → Option (Runbook × F)
  best_from sim best [] = best
  best_from sim best (e ∷ entries) =
      best_from sim (if below (score_of best) (sim e) then some (e, sim e) else best) entries

  abbrev pub scored : List Runbook → List String → Option (Runbook × F)
  scored entries [] = none
  scored entries (tok ∷ query) = best_from (similarity entries (tok ∷ query)) none entries

  unfoldable pub score : List Runbook → String → Option (Runbook × F)
  unfolding tokenize similarity best_from
  score entries query = scored entries (tokenize query)
