-- ===== src/Examples/Tokens.antt =====
-- Examples of the tokens of internal/k8sclient/awsrole.go.
use k8s_ts_mcp.Common.{
  ℕ, ◌+◌, ◌*◌, ◌<◌, ◌≡◌, ◌≢◌, refl, subst, ok, ok_injective, eq_iff, true, false, arith,
}
use k8s_ts_mcp.K8sClient.AwsRole.{
  AuthToken, TokenSource, early_refresh, current, Lasts, token_outlives_request,
}

abbrev fifteen_minutes : ℕ
fifteen_minutes = 15 * early_refresh

abbrev generated : ℕ → AuthToken
generated now = record { token = "k8s-aws-v1.abc"; expiration = now + fifteen_minutes }

-- The world is the clock.
abbrev source : TokenSource ℕ
source = record {
  eks_cluster_name = "spoke-1";
  role_arn = "arn:aws:iam::111:role/k8s-ts-mcp-readonly";
  clock = λ w. w;
  generate = λ w. (ok (generated w), w);
}

abbrev Outlives : ℕ → AuthToken → Type 0
Outlives now tok = (now + early_refresh < tok.expiration) × (tok.token ≢ "")

generated-Outlives : (now : ℕ) → Outlives now (generated now)
generated-Outlives now =
    (omega arith, λ e. let never : false ≡ true = (eq_iff "k8s-aws-v1.abc" "").1 e in cc)

source-Lasts : Lasts source
source-Lasts w w' tok h =
    let (same, at) = ok_injective (generated w) tok w w' h in
    subst (λ v. Outlives v tok) at (subst (Outlives w) same (generated-Outlives w))

abbrev expired : AuthToken
expired = record { token = "k8s-aws-v1.old"; expiration = 7 }

token_outlives_request_example :
    (100 + early_refresh < (generated 100).expiration)
    × ((generated 100).token ≢ "")
    × (current source (generated 100, 600) ≡ (ok "k8s-aws-v1.abc", (generated 100, 600)))
unfolding current
token_outlives_request_example =
    token_outlives_request source expired (generated 100) 100 100 600 "k8s-aws-v1.abc" source-Lasts
      refl (omega arith)
