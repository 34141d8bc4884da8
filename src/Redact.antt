-- ===== src/Redact.antt =====
-- internal/redact: the scrubber of free text and of decoded JSON values.
-- `replace_all p s r` is `regexp.MustCompile(p).ReplaceAllString(s, r)` and `to_lower` is
-- `strings.ToLower`: both are parameters.
pub mod Object
use k8s_ts_mcp.Common.{ℕ, String, Bool, List, [], ◌∷◌, contains, if◌then◌else◌}

abbrev pub placeholder : String
placeholder = "[REDACTED]"

-- The patterns, in the order in which they are applied.
abbrev pub text_patterns : List String
text_patterns =
    "\\bAKIA[0-9A-Z]{16}\\b" ∷ "(?i)\\baws_secret_access_key\\s*[:=]\\s*\\S+"
    ∷ "\\beyJ[A-Za-z0-9_-]+\\.[A-Za-z0-9_-]+\\.[A-Za-z0-9_-]+\\b"
    ∷ "(?i)\\bBearer\\s+[A-Za-z0-9._-]+\\b" ∷ "(?i)\\b(x-api-key|api[_-]?key)\\s*[:=]\\s*\\S+"
    ∷ "-----BEGIN [A-Z ]*PRIVATE KEY-----[\\s\\S]*?-----END [A-Z ]*PRIVATE KEY-----" ∷ []

-- Keys that `Object` drops whatever their value; the test is on the lower-case key.
abbrev pub sensitive_keys : List String
sensitive_keys =
    "data" ∷ "stringdata" ∷ "password" ∷ "secret" ∷ "token" ∷ "apikey" ∷ "api_key" ∷ "privatekey"
    ∷ []

-- A decoded value: `map[string]any`, `[]any`, a string, or another scalar.
mutual
  pub data Value : Type 0 where
    null : Value
    bool : Bool → Value
    num : ℕ → Value
    text : String → Value
    list : Items → Value
    object : Fields → Value

  pub data Items : Type 0 where
    nil : Items
    item : Value → Items → Items

  pub data Fields : Type 0 where
    empty : Fields
    field : String → Value → Fields → Fields

apply_patterns : (String → String → String → String) → List String → String → String
apply_patterns replace_all [] s = s
apply_patterns replace_all (p ∷ ps) s = apply_patterns replace_all ps (replace_all p s placeholder)

module _ (replace_all : String → String → String → String) (to_lower : String → String) where
  -- `Text`.
  unfoldable pub redact_text : String → String
  unfolding apply_patterns
  redact_text s = apply_patterns replace_all text_patterns s

  abbrev pub is_sensitive : String → Bool
  is_sensitive k = contains (to_lower k) sensitive_keys

-- `Object`, over the scrubber of texts and the test of keys.
unfoldable mutual
  pub redact_value : (String → String) → (String → Bool) → Value → Value
  redact_value scrub sensitive null = null
  redact_value scrub sensitive (bool b) = bool b
  redact_value scrub sensitive (num n) = num n
  redact_value scrub sensitive (text s) = text (scrub s)
  redact_value scrub sensitive (list xs) = list (redact_items scrub sensitive xs)
  redact_value scrub sensitive (object fs) = object (redact_fields scrub sensitive fs)

  pub redact_items : (String → String) → (String → Bool) → Items → Items
  redact_items scrub sensitive nil = nil
  redact_items scrub sensitive (item v xs) =
      item (redact_value scrub sensitive v) (redact_items scrub sensitive xs)

  pub redact_fields : (String → String) → (String → Bool) → Fields → Fields
  redact_fields scrub sensitive empty = empty
  redact_fields scrub sensitive (field k v fs) =
      let rest = redact_fields scrub sensitive fs in
      if sensitive k then rest else field k (redact_value scrub sensitive v) rest
