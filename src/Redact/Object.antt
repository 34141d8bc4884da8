-- ===== src/Redact/Object.antt =====
-- What `Object` leaves in a value.
use k8s_ts_mcp.Common.{String, Bool, false, ◌≡◌, refl, ap, inl, inr, Bool-cases}
use k8s_ts_mcp.Redact.{
  Value, Items, Fields, null, bool, num, text, list, object, nil, item, empty, field, redact_value,
  redact_items, redact_fields,
}

-- No sensitive key stands anywhere in the value, and every text in it has the property `P`.
mutual
  pub Clean : (String → Bool) → (String → Type 0) → Value → Type 0
  Clean sensitive P null = Unit
  Clean sensitive P (bool b) = Unit
  Clean sensitive P (num n) = Unit
  Clean sensitive P (text s) = P s
  Clean sensitive P (list xs) = CleanItems sensitive P xs
  Clean sensitive P (object fs) = CleanFields sensitive P fs

  pub CleanItems : (String → Bool) → (String → Type 0) → Items → Type 0
  CleanItems sensitive P nil = Unit
  CleanItems sensitive P (item v xs) = Clean sensitive P v × CleanItems sensitive P xs

  pub CleanFields : (String → Bool) → (String → Type 0) → Fields → Type 0
  CleanFields sensitive P empty = Unit
  CleanFields sensitive P (field k v fs) =
      (sensitive k ≡ false) × Clean sensitive P v × CleanFields sensitive P fs

module _ (scrub : String → String) (sensitive : String → Bool) (P : String → Type 0)
    (scrubs : (s : String) → P (scrub s)) where
  mutual
    unfolding Clean CleanItems CleanFields redact_value redact_items redact_fields

    redacted-Clean : (v : Value) → Clean sensitive P (redact_value scrub sensitive v)
    redacted-Clean null = tt
    redacted-Clean (bool b) = tt
    redacted-Clean (num n) = tt
    redacted-Clean (text s) = scrubs s
    redacted-Clean (list xs) = redacted-CleanItems xs
    redacted-Clean (object fs) = redacted-CleanFields fs

    redacted-CleanItems : (xs : Items) → CleanItems sensitive P (redact_items scrub sensitive xs)
    redacted-CleanItems nil = tt
    redacted-CleanItems (item v xs) = (redacted-Clean v, redacted-CleanItems xs)

    redacted-CleanFields :
        (fs : Fields) → CleanFields sensitive P (redact_fields scrub sensitive fs)
    redacted-CleanFields empty = tt
    redacted-CleanFields (field k v fs) = elim (Bool-cases (sensitive k)) [
      | inl yes_sensitive ↦ rw yes_sensitive (redacted-CleanFields fs)
      | inr keep ↦ rw keep (keep, redacted-Clean v, redacted-CleanFields fs)
    ]

  -- After `Object` no sensitive key is left at any depth, and every text left is a scrubbed one.
  pub redact_value-Clean : (v : Value) → Clean sensitive P (redact_value scrub sensitive v)
  redact_value-Clean v = redacted-Clean v

module _ (scrub : String → String) (sensitive : String → Bool) where
  mutual
    unfolding Clean CleanItems CleanFields redact_value redact_items redact_fields

    fixed_value :
        (v : Value) → Clean sensitive (λ s. scrub s ≡ s) v → redact_value scrub sensitive v ≡ v
    fixed_value null h = refl
    fixed_value (bool b) h = refl
    fixed_value (num n) h = refl
    fixed_value (text s) h = ap text h
    fixed_value (list xs) h = ap list (fixed_items xs h)
    fixed_value (object fs) h = ap object (fixed_fields fs h)

    fixed_items :
        (xs : Items)
        → CleanItems sensitive (λ s. scrub s ≡ s) xs
        → redact_items scrub sensitive xs ≡ xs
    fixed_items nil h = refl
    fixed_items (item v xs) (h, t) = cc (fixed_value v h, fixed_items xs t)

    fixed_fields :
        (fs : Fields)
        → CleanFields sensitive (λ s. scrub s ≡ s) fs
        → redact_fields scrub sensitive fs ≡ fs
    fixed_fields empty h = refl
    fixed_fields (field k v fs) (keep, h, t) = rw keep (cc (fixed_value v h, fixed_fields fs t))

  -- Redacting twice is redacting once, where it is so for texts.
  pub redact_value_idem :
      ((s : String) → scrub (scrub s) ≡ scrub s)
      → (v : Value)
      → redact_value scrub sensitive (redact_value scrub sensitive v)
        ≡ redact_value scrub sensitive v
  redact_value_idem idem v =
      fixed_value (redact_value scrub sensitive v)
        (redact_value-Clean scrub sensitive (λ s. scrub s ≡ s) idem v)
