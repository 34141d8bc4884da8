-- ===== src/Tls/Guarded.antt =====
-- When the channel is protected: internal/tlsutil/tlsutil.go.
use k8s_ts_mcp.Common.{String, Bool, true, false, ◌≡◌, refl, ◌⊎◌, inl, inr}
use k8s_ts_mcp.Common.Ensures.{
  Ensures, Gives, Ensures-Gives, Ensures-pure, Ensures-bind, Ensures-if,
}
use k8s_ts_mcp.Tls.{
  Loader, Credentials, insecure, tls, load_cert_and_ca, client_config, server_config,
  client_credentials, server_credentials,
}

module _ {W Cert Pool : Type 0} (loader : Loader W Cert Pool) (cert key ca : String) where
  -- Only the insecure mode gives credentials without TLS.
  abbrev pub IsProtected :
      Bool → (Cert × Pool → Credentials Cert Pool) → Credentials Cert Pool → Type 0
  IsProtected insecure_mode protected c =
      ((insecure_mode ≡ true) × (c ≡ insecure))
      ⊎ ((insecure_mode ≡ false)
          × (loaded : Cert × Pool) × Gives (load_cert_and_ca loader cert key ca) loaded
          × (c ≡ protected loaded))

  pub client_credentials-IsProtected :
      (insecure_mode : Bool)
      → Ensures
          (client_credentials loader cert key ca insecure_mode)
          (IsProtected insecure_mode (λ l. tls (client_config loader cert key ca l)))
  unfolding client_credentials
  client_credentials-IsProtected insecure_mode =
      Ensures-if _ insecure_mode _ _ (λ on. Ensures-pure _ insecure (inl (on, refl)))
        (λ off.
          Ensures-bind (load_cert_and_ca loader cert key ca) _ _ _ (Ensures-Gives _)
            (λ loaded from. Ensures-pure _ _ (inr (off, loaded, from, refl))))

  pub server_credentials-IsProtected :
      (insecure_mode : Bool)
      → Ensures
          (server_credentials loader cert key ca insecure_mode)
          (IsProtected insecure_mode (λ l. tls (server_config loader cert key ca l)))
  unfolding server_credentials
  server_credentials-IsProtected insecure_mode =
      Ensures-if _ insecure_mode _ _ (λ on. Ensures-pure _ insecure (inl (on, refl)))
        (λ off.
          Ensures-bind (load_cert_and_ca loader cert key ca) _ _ _ (Ensures-Gives _)
            (λ loaded from. Ensures-pure _ _ (inr (off, loaded, from, refl))))
