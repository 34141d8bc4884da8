-- ===== src/AgentAuth.antt =====
-- internal/agentauth/agentauth.go: which AWS accounts and groups a bearer token stands for.
-- `hash` is the SHA-256 of a token in hexadecimal; the YAML decoder of the configuration is not
-- modelled, what `LoadConfig` asks of the decoded entries is.
use k8s_ts_mcp.Common.{
  errorf, end, str, num, cause, Result, ok, err, has_prefix, trim_prefix, ℕ, suc, String, Bool,
  ◌&&◌, ◌⊎◌, inl, inr, any, Bool-cases, true, false, ◌||◌, ◌≡◌, refl, sym, ◌∙◌, Option, none, some,
  List, [], ◌∷◌, ◌==◌, if◌then◌else◌, arith, contains, Map, lookup, insert_all, lookup-insert_all,
  last_with,
}

-- `AllowedAccounts` maps an account to true; a missing one reads as false.
pub record Scope : Type 0 where
  pub agent_name : String
  pub allowed_accounts : Map Bool
  pub ad_groups : List String

pub record AgentConfig : Type 0 where
  pub name : String
  pub token : String
  pub allowed_accounts : List String
  pub ad_groups : List String

abbrev pub is_true : Option Bool → Bool
is_true none = false
is_true (some b) = b

-- A nil scope allows every account.
unfoldable pub allows_account : Option Scope → String → Bool
unfolding lookup
allows_account none account = true
allows_account (some s) account = is_true (lookup account s.allowed_accounts)

abbrev pub deny_all_scope : Scope
deny_all_scope = record { agent_name = ""; allowed_accounts = []; ad_groups = [] }

abbrev no_accounts : List String → Bool
no_accounts [] = true
no_accounts (a ∷ rest) = false

abbrev incomplete : AgentConfig → Bool
incomplete a = a.name == "" || (a.token == "" || no_accounts a.allowed_accounts)

-- The loop of `LoadConfig`: the first entry that lacks a required field, with its index.
unfoldable pub first_incomplete : ℕ → List AgentConfig → Option (ℕ × AgentConfig)
first_incomplete i [] = none
first_incomplete i (a ∷ agents) =
    let rest = first_incomplete (suc i) agents in if incomplete a then some (i, a) else rest

module _ (hash : String → String) where
  unfoldable pub scope_of : AgentConfig → Scope
  unfolding insert_all
  scope_of a = record {
    agent_name = a.name;
    allowed_accounts = insert_all (λ s. s) (λ _. true) a.allowed_accounts [];
    ad_groups = a.ad_groups;
  }

  -- `NewRegistry`.
  unfoldable pub new_registry : List AgentConfig → Map Scope
  unfolding insert_all scope_of
  new_registry agents = insert_all (λ a. hash a.token) scope_of agents []

  -- `Resolve`; a nil registry is `none`.
  unfoldable pub resolve : Option (Map Scope) → String → Option Scope
  unfolding lookup
  resolve none token = none
  resolve (some r) token = if token == "" then none else lookup (hash token) r

abbrev without_secrets : AgentConfig → AgentConfig
without_secrets a = record {
  name = a.name;
  token = "";
  allowed_accounts = a.allowed_accounts;
  ad_groups = [];
}

abbrev checked :
    (AgentConfig → String) → List AgentConfig → Option (ℕ × AgentConfig) → Result (List AgentConfig)
checked shown agents none = ok agents
checked shown agents (some (i, a)) = err (
    errorf
      "agent scopes config entry %d is missing a required field (name/token/allowed_accounts): %+v"
      (num i (str (shown (without_secrets a)) end)))

abbrev checked_entries :
    (AgentConfig → String) → Result (List AgentConfig) → Result (List AgentConfig)
checked_entries shown (err e) = err (errorf "decoding agent scopes config: %w" (cause e end))
checked_entries shown (ok agents) = checked shown agents (first_incomplete 0 agents)

-- `LoadConfig`, of what the YAML decoder gives; `shown` is the verb `%+v` of an entry.
unfoldable pub load_config :
    (AgentConfig → String) → Result (List AgentConfig) → Result (List AgentConfig)
unfolding first_incomplete
load_config shown decoded = checked_entries shown decoded

-- `TokenFromHeader`, of the value of the header Authorization.
unfoldable pub token_from_header : String → String
token_from_header auth = if has_prefix "Bearer " auth then trim_prefix "Bearer " auth else ""

or_true : (b : Bool) → (b || true) ≡ true
or_true true = refl
or_true false = refl

last_with-member :
    (account : String) (xs : List String) (o : Option Bool)
    → is_true (last_with (λ s. s) (λ _. true) account xs o) ≡ (contains account xs || is_true o)
unfolding contains
last_with-member account [] o = refl
last_with-member account (x ∷ xs) o = elim (Bool-cases (x == account)) [
  | inl same ↦
      rw (same, contains) (last_with-member account xs (some true) ∙ or_true (contains account xs))
  | inr other ↦ rw (other, contains) (last_with-member account xs o)
]

or_false : (b : Bool) → (b || false) ≡ b
or_false true = refl
or_false false = refl

-- The last entry with a key is among the entries.
last_with-any :
    {A V : Type 0} (key : A → String) (value : A → V) (k : String) (t : V → Bool) (u : A → Bool)
    (xs : List A) (o : Option V) (v : V)
    → ((x : A) → t (value x) ≡ u x)
    → last_with key value k xs o ≡ some v
    → t v ≡ true
    → (o ≡ some v) ⊎ (any (λ x. (key x == k) && u x) xs ≡ true)
unfolding any
last_with-any key value k t u [] o v same e h = inl e
last_with-any key value k t u (x ∷ xs) o v agree e h = elim (Bool-cases (key x == k)) [
  | inl same ↦ elim (last_with-any key value k t u xs (some (value x)) v agree (simp same at e) h) [
    | inl here ↦ let hit : u x ≡ true = grind arith in inr (grind arith)
    | inr later ↦ inr (grind arith)
  ]
  | inr other ↦ elim (last_with-any key value k t u xs o v agree (simp other at e) h) [
    | inl before ↦ inl before
    | inr later ↦ inr (grind arith)
  ]
]

module _ (hash : String → String) where
  -- A configured agent's scope allows exactly the accounts that its entry lists.
  pub scope_of_exact :
      (a : AgentConfig) (account : String)
      → allows_account (some (scope_of hash a)) account ≡ contains account a.allowed_accounts
  unfolding allows_account scope_of lookup
  scope_of_exact a account =
      rw (lookup-insert_all (λ s. s) (λ _. true) account a.allowed_accounts [])
        (last_with-member account a.allowed_accounts none ∙ or_false _)

  resolve-last :
      (agents : List AgentConfig) (token : String) (s : Scope)
      → resolve hash (some (new_registry hash agents)) token ≡ some s
      → ((token == "") ≡ false)
        × (last_with (λ a. hash a.token) (scope_of hash) (hash token) agents none ≡ some s)
  unfolding resolve new_registry lookup
  resolve-last agents token s e = elim (Bool-cases (token == "")) [
    | inl nil ↦ let bad : none ≡ some s = simp nil at e in cc
    | inr given ↦ (
      given,
      sym (lookup-insert_all (λ a. hash a.token) (scope_of hash) (hash token) agents [])
          ∙ (simp given at e),
    )
  ]

  -- A token that resolves is not empty, and an account that its scope allows is listed by an entry
  -- whose token has the same hash.
  pub resolve_authorised :
      (agents : List AgentConfig) (token : String) (s : Scope) (account : String)
      → resolve hash (some (new_registry hash agents)) token ≡ some s
      → allows_account (some s) account ≡ true
      → ((token == "") ≡ false)
        × (any (λ a. (hash a.token == hash token) && contains account a.allowed_accounts) agents
            ≡ true)
  resolve_authorised agents token s account e allowed =
      let (given, last) = resolve-last agents token s e in
      elim (last_with-any (λ a. hash a.token) (scope_of hash) (hash token)
        (λ s. allows_account (some s) account) (λ a. contains account a.allowed_accounts) agents
        none s (λ a. scope_of_exact a account) last allowed) [
          | inl none_before ↦ cc
          | inr listed ↦ (given, listed)
        ]
