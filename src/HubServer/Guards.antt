-- ===== src/HubServer/Guards.antt =====
-- What holds once hub-server has started: cmd/hub-server/main.go, `main` and `newSessionServer`.
use k8s_ts_mcp.Common.{
  String, Bool, true, false, not, ◌&&◌, ◌≡◌, refl, ◌⊎◌, inl, inr, Option, none, some, Map, ◌==◌,
  arith, List, lookup,
}
use k8s_ts_mcp.Common.Ensures.{
  Ensures, Gives, Ensures-Gives, Ensures-pure, Ensures-raise, Ensures-bind, Ensures-after,
  Ensures-wrap_err, Ensures-if,
}
use k8s_ts_mcp.Policy.{GroupMapping}
use k8s_ts_mcp.AgentAuth.{AgentConfig, Scope, new_registry, allows_account}
use k8s_ts_mcp.Registry.Redis.{redis}
use k8s_ts_mcp.Tls.{Credentials, tls, load_cert_and_ca, client_config, server_config}
use k8s_ts_mcp.Tls.Guarded.{
  IsProtected, client_credentials-IsProtected, server_credentials-IsProtected,
}
use k8s_ts_mcp.HubServer.{or_deny_all}
use k8s_ts_mcp.HubServer.Options.{Options}
use k8s_ts_mcp.HubServer.Startup.{
  Outside, Started, lifted_registry, check_self_addr, shared_registry, cluster_inventory,
  agent_entries, agent_registry, tool_access, runbooks_store, shared,
}
use k8s_ts_mcp.HubServer.Main.{
  Shared, grpc_credentials, listening, prepared, furnished, start, registry_of, self_addr_of,
  peer_creds_of,
}

both : (b : Bool) → b ≡ true → b ≡ false → ⊥
both b empty given = let bad : true ≡ false = cc in ground arith

given_or : (a b : Bool) → (not a && b) ≡ false → (a ≡ true) ⊎ (b ≡ false)
given_or a b h = ground arith

-- The scope that stands for no scope allows no account.
pub allowed-resolved :
    (o : Option Scope) (account : String)
    → allows_account (some (or_deny_all o)) account ≡ true
    → (s : Scope) × (o ≡ some s) × (allows_account (some s) account ≡ true)
unfolding allows_account lookup
allowed-resolved none account h = absurd (cc)
allowed-resolved (some s) account h = (s, refl, h)

module _ {B Cert Pool F : Type 0} (out : Outside B Cert Pool F) (o : Options) where
  -- A file of scopes gives a registry of agents.
  abbrev pub IsScoped : Option (Map Scope) → Type 0
  IsScoped agents =
      (o.agent_scopes_config_path == "") ≡ false
      → (entries : List AgentConfig) × Gives (agent_entries out o) entries
        × (agents ≡ some (new_registry out.hash entries))

  agent_registry-IsScoped : Ensures (agent_registry out o) IsScoped
  unfolding agent_registry
  agent_registry-IsScoped =
      Ensures-if IsScoped (o.agent_scopes_config_path == "") _ _
        (λ empty.
          Ensures-pure IsScoped none
            (λ given. absurd (both (o.agent_scopes_config_path == "") empty given)))
        (λ given.
          Ensures-bind (agent_entries out o) _ _ IsScoped (Ensures-Gives _)
            λ agents from. Ensures-pure IsScoped _ (λ _. (agents, from, refl)))

  abbrev pub IsClientProtected : Credentials Cert Pool → Type 0
  IsClientProtected =
      IsProtected out.loader o.cert_file o.key_file o.ca_file o.insecure_mode
        (λ l. tls (client_config out.loader o.cert_file o.key_file o.ca_file l))

  abbrev pub IsServerProtected : Credentials Cert Pool → Type 0
  IsServerProtected =
      IsProtected out.loader o.cert_file o.key_file o.ca_file o.insecure_mode
        (λ l. tls (server_config out.loader o.cert_file o.key_file o.ca_file l))

  -- The registry is in memory only where no address of Redis is given.
  abbrev pub IsShared : Shared out o → Type 0
  IsShared s =
      (((o.redis_addr == "") ≡ true) × (s ≡ none))
      ⊎ (((o.redis_addr == "") ≡ false)
          × (creds : Credentials Cert Pool) × (s ≡ shared out o creds)
          × IsClientProtected creds)

  shared_registry-IsShared : Ensures (shared_registry out o) IsShared
  unfolding shared_registry
  shared_registry-IsShared =
      Ensures-if _ _ _ _ (λ empty. Ensures-pure _ none (inl (empty, refl)))
        (λ given. Ensures-after _ _ _ λ _.
          Ensures-bind _ _ IsClientProtected _
            (Ensures-wrap_err _ _ _ (
              client_credentials-IsProtected out.loader o.cert_file o.key_file o.ca_file
                o.insecure_mode))
            (λ creds h. Ensures-pure _ _ (inr (given, creds, refl, h))))

  abbrev pub HasAddress : Type 0
  HasAddress = ((o.redis_addr == "") ≡ true) ⊎ ((o.self_addr == "") ≡ false)

  check_self_addr-HasAddress : Ensures (check_self_addr out o) (λ _. HasAddress)
  check_self_addr-HasAddress =
      Ensures-if _ _ _ _ (λ missing. Ensures-raise _ _)
        (λ good. Ensures-pure _ tt (given_or (o.redis_addr == "") (o.self_addr == "") good))

  -- What a registry shared by replicas, or none, makes of the hub.
  abbrev pub SharesBy : Started B Cert Pool → Type 0
  SharesBy s =
      (m : Shared out o) × IsShared m
      × (s.flags.transport.registry ≡ registry_of out o m)
      × (s.peer_creds ≡ peer_creds_of out o m)
      × (s.flags.transport.self_addr ≡ self_addr_of out o m)

  pub record IsGuarded (s : Started B Cert Pool) : Type 0 where
    pub scoped : IsScoped s.agents
    pub served : IsServerProtected s.grpc_creds
    pub shared_by : SharesBy s
    pub addressed : HasAddress

  grpc_credentials-IsServerProtected : Ensures (grpc_credentials out o) IsServerProtected
  unfolding grpc_credentials
  grpc_credentials-IsServerProtected =
      Ensures-wrap_err IsServerProtected _ _
        (server_credentials-IsProtected out.loader o.cert_file o.key_file o.ca_file o.insecure_mode)

  -- What the files of the flags hold.
  abbrev IsLoaded : Cert → Pool → Type 0
  IsLoaded cert pool =
      Gives (load_cert_and_ca out.loader o.cert_file o.key_file o.ca_file) (cert, pool)

  -- TLS that asks for a certificate of the peer.
  abbrev pub IsMutual : Credentials Cert Pool → Type 0
  IsMutual c =
      (cert : Cert) × (pool : Pool) × IsLoaded cert pool
      × (c
          ≡ tls (record {
            certificate = cert;
            root_cas = none;
            client_cas = some pool;
            require_client_cert = true;
          }))

  -- Either there is no Redis, or the registry is the one in it and the hub has an address.
  abbrev pub IsReachable : Started B Cert Pool → Type 0
  IsReachable s =
      (((o.redis_addr == "") ≡ true) × (s.flags.transport.registry ≡ none) × (s.peer_creds ≡ none))
      ⊎ (((o.redis_addr == "") ≡ false)
          × (s.flags.transport.registry ≡ some (lifted_registry (redis (out.client o.redis_addr))))
          × (s.flags.transport.self_addr ≡ o.self_addr)
          × ((o.self_addr == "") ≡ false))

  -- Nothing, or TLS that trusts one authority.
  abbrev pub IsDialled : Option (Credentials Cert Pool) → Type 0
  IsDialled c =
      (c ≡ none)
      ⊎ ((cert : Cert) × (pool : Pool) × IsLoaded cert pool
          × (c
              ≡ some (
                  tls (record {
                    certificate = cert;
                    root_cas = some pool;
                    client_cas = none;
                    require_client_cert = false;
                  }))))

  pub protected-IsMutual :
      o.insecure_mode ≡ false → (c : Credentials Cert Pool) → IsServerProtected c → IsMutual c
  protected-IsMutual off c (inl (on, e)) = absurd (both o.insecure_mode on off)
  protected-IsMutual off c (inr (_, (cert, pool), from, e)) = (cert, pool, from, e)

  pub dialled :
      o.insecure_mode ≡ false → (s : Started B Cert Pool) → SharesBy s → IsDialled s.peer_creds
  dialled off s (m, inl (_, e), _, p, _) = inl (rw e at p)
  dialled off s (m, inr (_, creds, e, inl (on, _)), _, p, _) = absurd (both o.insecure_mode on off)
  dialled off s (m, inr (_, creds, e, inr (_, (cert, pool), from, c)), _, p, _) =
      inr (cert, pool, from, rw (e, c) at p)

  pub reachable : (s : Started B Cert Pool) → SharesBy s → HasAddress → IsReachable s
  reachable s (m, inl (empty, e), g, p, _) addr = inl (empty, rw e at g, rw e at p)
  reachable s (m, inr (given, creds, e, _), g, _, a) (inl empty) =
      absurd (both (o.redis_addr == "") empty given)
  reachable s (m, inr (given, creds, e, _), g, _, a) (inr addr) =
      inr (given, rw e at g, rw e at a, addr)

  furnished-IsGuarded :
      (groups : GroupMapping) (m : Shared out o)
      → IsShared m
      → HasAddress
      → Ensures (furnished out o groups m) IsGuarded
  furnished-IsGuarded groups m h addr = Ensures-after (cluster_inventory out o) _ IsGuarded λ inv.
      Ensures-bind (agent_registry out o) _ IsScoped IsGuarded agent_registry-IsScoped
        λ agents scoped. Ensures-after (tool_access out o) _ IsGuarded λ access.
          Ensures-after (runbooks_store out o) _ IsGuarded λ entries.
            Ensures-bind (grpc_credentials out o) _ IsServerProtected IsGuarded
              grpc_credentials-IsServerProtected
              λ creds served. Ensures-after (listening out o) _ IsGuarded λ _.
                Ensures-pure IsGuarded _ (record {
                  scoped = scoped;
                  served = served;
                  shared_by = (m, h, refl, refl, refl);
                  addressed = addr;
                })

  pub start-IsGuarded : Ensures (start out o) IsGuarded
  unfolding start
  start-IsGuarded = Ensures-after (prepared out o) _ IsGuarded λ groups.
      Ensures-bind (check_self_addr out o) _ (λ _. HasAddress) IsGuarded check_self_addr-HasAddress
        λ _ addr.
          Ensures-bind (shared_registry out o) _ IsShared IsGuarded shared_registry-IsShared
            λ m h. furnished-IsGuarded groups m h addr
