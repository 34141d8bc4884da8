-- ===== src/K8sClient/AwsRole.antt =====
-- internal/k8sclient/awsrole.go: a client of an EKS cluster whose API is reached by assuming an IAM
-- role, and the token that each of its requests carries. The SDK of AWS, the generator of tokens,
-- package x509 and client-go are parameters; times are in nanoseconds.
use k8s_ts_mcp.Common.{
  ℕ, ◌+◌, ◌*◌, ◌<◌, String, append_text, Bool, true, false, not, ◌&&◌, ◌≡◌, ◌≢◌, ◌∙◌, refl, sym, ap,
  inl, inr, Option, none, some, ◌==◌, if◌then◌else◌, ltb, lt→ltb, Bool-cases, eq_iff, arith, Error,
  errorf, end, str, cause, Result, ok, err, Call, ◌>>=◌, pure, raise, wrap_err,
}
use k8s_ts_mcp.K8sClient.{Api}

-- `token.Token`.
pub record AuthToken : Type 0 where
  pub token : String
  pub expiration : ℕ

-- `cluster` of the answer of DescribeCluster; the data of its authority may be nil.
pub record EksCluster : Type 0 where
  pub endpoint : Option String
  pub certificate_authority : Option (Option String)
  pub status : String

-- What is used of the SDK and of client-go, which gets the endpoint and the bundle of the authority.
pub record Aws (W : Type 0) : Type 0 where
  pub load_config : String → Call W (Unit {0})
  pub describe_cluster : (role_arn name : String) → Call W EksCluster
  pub decode_base64 : String → Result String
  pub is_pem : String → Bool
  pub new_generator : Option Error
  pub new_clientset : (host ca : String) → Result (Api W)
  pub new_dynamic : (host ca : String) → Option Error

abbrev pub early_refresh : ℕ
early_refresh = 60 * 1000000000

-- `roleTokenSource`, without its current token.
pub record TokenSource (W : Type 0) : Type 0 where
  pub eks_cluster_name : String
  pub role_arn : String
  pub clock : W → ℕ
  pub generate : Call W AuthToken

module _ {W : Type 0} (src : TokenSource W) where
  open src use {clock, generate, eks_cluster_name, role_arn}

  abbrev usable : AuthToken → ℕ → Bool
  usable cur now = not (cur.token == "") && ltb (now + early_refresh) cur.expiration

  abbrev refreshed : AuthToken → Result AuthToken × W → Result String × (AuthToken × W)
  refreshed cur (err e, w) = (
    err (
        errorf "generating IAM authenticator token for %s (as %s): %w"
          (str eks_cluster_name (str role_arn (cause e end)))),
    (cur, w),
  )
  refreshed cur (ok tok, w) = (ok tok.token, (tok, w))

  unfoldable pub current : Call (AuthToken × W) String
  current (cur, w) =
      if usable cur (clock w) then (ok cur.token, (cur, w)) else refreshed cur (generate w)

  -- `RoundTrip`; `send` is the transport below, by the header Authorization.
  unfoldable pub round_trip :
      {A : Type 0} → (String → Call (AuthToken × W) A) → Call (AuthToken × W) A
  unfolding current
  round_trip send = do tok ← current; send (append_text "Bearer " tok)

  -- The tokens of the generator outlive the early refresh.
  abbrev pub Lasts : Type 0
  Lasts =
      (w w' : W) (tok : AuthToken)
      → generate w ≡ (ok tok, w')
      → (clock w' + early_refresh < tok.expiration) × (tok.token ≢ "")

  abbrev IsValid : Result String × (AuthToken × W) → Type 0
  IsValid (err e, s) = Unit
  IsValid (ok t, (cur, w)) = (cur.token ≡ t) × (clock w + early_refresh < cur.expiration) × (t ≢ "")

  usable-cases :
      (cur : AuthToken) (now : ℕ)
      → usable cur now ≡ true
      → (now + early_refresh < cur.expiration) × (cur.token ≢ "")
  usable-cases cur now h = (ground arith, λ e. ground (arith, eq_iff cur.token ""))

  refreshed-IsValid :
      (cur : AuthToken) (r : Result AuthToken × W)
      → ((tok : AuthToken)
          → r.0 ≡ ok tok
          → (clock r.1 + early_refresh < tok.expiration) × (tok.token ≢ ""))
      → IsValid (refreshed cur r)
  refreshed-IsValid cur (err e, w) h = tt
  refreshed-IsValid cur (ok tok, w) h = let (lt, ne) = h tok refl in (refl, lt, ne)

  current-IsValid : (cur : AuthToken) (w : W) → Lasts → IsValid (current (cur, w))
  unfolding current
  current-IsValid cur w lasts = elim (Bool-cases (usable cur (clock w))) [
    | inl now ↦ let (lt, ne) = usable-cases cur (clock w) now in rw now (refl, lt, ne)
    | inr stale ↦ rw stale (
        refreshed-IsValid cur (generate w)
          (λ tok e. lasts w (generate w).1 tok (ap (λ o. (o, (generate w).1)) e)))
  ]

  usable_again :
      (cur : AuthToken) (now : ℕ)
      → now + early_refresh < cur.expiration
      → cur.token ≢ ""
      → usable cur now ≡ true
  usable_again cur now lt ne =
      let named : (cur.token == "") ≡ false = ground (arith, eq_iff cur.token "", ne) in
      rw (named, lt→ltb (now + early_refresh) cur.expiration lt) refl

  reused :
      (cur : AuthToken) (w : W) (t : String)
      → cur.token ≡ t
      → clock w + early_refresh < cur.expiration
      → t ≢ ""
      → current (cur, w) ≡ (ok t, (cur, w))
  unfolding current
  reused cur w t same lt ne = rw (usable_again cur (clock w) lt (λ e. ne (sym same ∙ e)), same) refl

  -- Where the generator's tokens outlive the early refresh, the token of a request has more than a
  -- minute left and is not empty, and while it has more than a minute left a later request carries
  -- it too, without another one being generated.
  pub token_outlives_request :
      (cur cur' : AuthToken) (w w' later : W) (t : String)
      → Lasts
      → current (cur, w) ≡ (ok t, (cur', w'))
      → clock later + early_refresh < cur'.expiration
      → (clock w' + early_refresh < cur'.expiration)
        × (t ≢ "")
        × (current (cur', later) ≡ (ok t, (cur', later)))
  token_outlives_request cur cur' w w' later t lasts answered still =
      let valid : IsValid (ok t, (cur', w')) = rw answered at (current-IsValid cur w lasts) in
      let (same, lt, ne) = valid in (lt, ne, reused cur' later t same still ne)

module _ {W : Type 0} (aws : Aws W) (role_arn name region : String) where
  abbrev not_ready : EksCluster → Error
  not_ready cluster =
      errorf "EKS cluster %s has no endpoint/CA yet (status=%s) — not ready"
        (str name (str cluster.status end))

  abbrev text_or_empty : Option String → String
  text_or_empty none = ""
  text_or_empty (some s) = s

  abbrev with_dynamic : Api W → Option Error → Call W (Api W)
  with_dynamic api none = pure api
  with_dynamic api (some e) =
      raise (errorf "building dynamic client for EKS cluster %s: %w" (str name (cause e end)))

  abbrev with_clientset : String → String → Result (Api W) → Call W (Api W)
  with_clientset host ca (err e) =
      raise (errorf "building clientset for EKS cluster %s: %w" (str name (cause e end)))
  with_clientset host ca (ok api) = with_dynamic api (aws.new_dynamic host ca)

  abbrev with_generator : String → String → Option Error → Call W (Api W)
  with_generator host ca none = with_clientset host ca (aws.new_clientset host ca)
  with_generator host ca (some e) =
      raise (errorf "building IAM authenticator token generator: %w" (cause e end))

  abbrev with_bundle : String → Result String → Call W (Api W)
  with_bundle host (err e) =
      raise (errorf "decoding CA for EKS cluster %s: %w" (str name (cause e end)))
  with_bundle host (ok ca) =
      if aws.is_pem ca
      then with_generator host ca aws.new_generator
      else raise (
          errorf "EKS cluster %s: CertificateAuthority data isn't a valid PEM bundle"
            (str name end))

  abbrev with_authority : EksCluster → Option String → Option (Option String) → Call W (Api W)
  with_authority cluster none ca = raise (not_ready cluster)
  with_authority cluster (some host) none = raise (not_ready cluster)
  with_authority cluster (some host) (some data_text) =
      with_bundle host (aws.decode_base64 (text_or_empty data_text))

  -- `NewFromAWSRole`.
  unfoldable pub new_from_aws_role : Call W (Api W)
  new_from_aws_role = do
    _ ← wrap_err (λ e. errorf "loading AWS config: %w" (cause e end)) (aws.load_config region)
    cluster ←
        wrap_err
          (λ e.
            errorf "describing EKS cluster %s (as %s): %w" (str name (str role_arn (cause e end))))
          (aws.describe_cluster role_arn name)
    with_authority cluster cluster.endpoint cluster.certificate_authority
