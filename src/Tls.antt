-- ===== src/Tls.antt =====
-- internal/tlsutil/tlsutil.go: the credentials of the channel between the hub and its agents.
-- Packages crypto/tls, crypto/x509 and os are the record `Loader`.
use k8s_ts_mcp.Common.{
  String, Bool, true, false, Option, none, some, if◌then◌else◌, Error, errorf, end, str, cause,
  Call, ◌>>=◌, pure, raise, wrap_err,
}
pub mod Guarded

-- `load_pair` is `tls.LoadX509KeyPair`, `pool_of` is `AppendCertsFromPEM` on a new pool: `none` where
-- it finds no certificate.
pub record Loader (W Cert Pool : Type 0) : Type 0 where
  pub load_pair : String → String → Call W Cert
  pub read_file : String → Call W String
  pub pool_of : String → Option Pool

-- `tls.Config`, as far as it is set.
pub record TlsConfig (Cert Pool : Type 0) : Type 0 where
  pub certificate : Cert
  pub root_cas : Option Pool
  pub client_cas : Option Pool
  pub require_client_cert : Bool

-- `credentials.TransportCredentials`.
pub data Credentials (Cert Pool : Type 0) : Type 0 where
  insecure : Credentials Cert Pool
  tls : TlsConfig Cert Pool → Credentials Cert Pool

module _ {W Cert Pool : Type 0} (loader : Loader W Cert Pool)
    (cert_file key_file ca_file : String) where
  open loader use {load_pair, read_file, pool_of}

  abbrev filled : Cert → Option Pool → Call W (Cert × Pool)
  filled cert none = raise (errorf "no valid certificates found in CA file %s" (str ca_file end))
  filled cert (some pool) = pure (cert, pool)

  unfoldable pub load_cert_and_ca : Call W (Cert × Pool)
  load_cert_and_ca = do
    cert ←
        wrap_err
          (λ e.
            errorf "loading cert/key pair (%s, %s): %w"
              (str cert_file (str key_file (cause e end))))
          (load_pair cert_file key_file)
    pem ←
        wrap_err (λ e. errorf "reading CA file %s: %w" (str ca_file (cause e end)))
          (read_file ca_file)
    filled cert (pool_of pem)

  abbrev pub client_config : Cert × Pool → TlsConfig Cert Pool
  client_config (cert, pool) = record {
    certificate = cert;
    root_cas = some pool;
    client_cas = none;
    require_client_cert = false;
  }

  abbrev pub server_config : Cert × Pool → TlsConfig Cert Pool
  server_config (cert, pool) = record {
    certificate = cert;
    root_cas = none;
    client_cas = some pool;
    require_client_cert = true;
  }

  unfoldable pub client_credentials : Bool → Call W (Credentials Cert Pool)
  unfolding load_cert_and_ca
  client_credentials insecure_mode =
      if insecure_mode
      then pure insecure
      else (do loaded ← load_cert_and_ca; pure (tls (client_config loaded)))

  unfoldable pub server_credentials : Bool → Call W (Credentials Cert Pool)
  unfolding load_cert_and_ca
  server_credentials insecure_mode =
      if insecure_mode
      then pure insecure
      else (do loaded ← load_cert_and_ca; pure (tls (server_config loaded)))
