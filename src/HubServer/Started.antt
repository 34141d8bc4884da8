-- ===== src/HubServer/Started.antt =====
-- The hub that has started: cmd/hub-server/main.go, `main` and `newSessionServer`.
use k8s_ts_mcp.Common.{String, true, false, ◌&&◌, ◌≡◌, ok, some, ◌==◌, List, any, contains}
use k8s_ts_mcp.Common.Ensures.{Gives}
use k8s_ts_mcp.AgentAuth.{
  AgentConfig, new_registry, resolve, token_from_header, allows_account, resolve_authorised,
}
use k8s_ts_mcp.Transport.Replica.{Replica}
use k8s_ts_mcp.McpTools.{Server}
use k8s_ts_mcp.HubServer.{tools, new_session_server}
use k8s_ts_mcp.HubServer.Options.{Options}
use k8s_ts_mcp.HubServer.Startup.{World, Outside, Started, agent_entries}
use k8s_ts_mcp.HubServer.Main.{start}
use k8s_ts_mcp.HubServer.Guards.{
  IsGuarded, start-IsGuarded, IsMutual, IsDialled, IsReachable, protected-IsMutual, dialled,
  reachable, allowed-resolved,
}

module _ {B Cert Pool F : Type 0} (out : Outside B Cert Pool F) (o : Options) where
  module _ (w w' : B) (s : Started B Cert Pool) (h : start out o w ≡ (ok s, w')) where
    guarded : IsGuarded out o s
    guarded = (start-IsGuarded out o).holds w s w' h

    abbrev pub session : String → Server (Replica × World B)
    session auth = new_session_server out.hash s.agents auth (tools s.flags)

    -- A hub that starts with a file of agent scopes has a registry of the agents in it, and an account
    -- that the check of a session lets through is listed by an entry whose token has the hash of the
    -- header's, which is not empty.
    pub allowed_account_is_listed :
        (auth account : String)
        → (o.agent_scopes_config_path == "") ≡ false
        → allows_account (session auth).agent_scope account ≡ true
        → (entries : List AgentConfig) × Gives (agent_entries out o) entries
          × (s.agents ≡ some (new_registry out.hash entries))
          × ((token_from_header auth == "") ≡ false)
          × (any
                (λ a.
                  (out.hash a.token == out.hash (token_from_header auth))
                  && contains account a.allowed_accounts)
                entries
              ≡ true)
    unfolding new_session_server
    allowed_account_is_listed auth account given allowed =
        let (entries, from, e) = guarded.scoped given in
        let token : String = token_from_header auth in
        let (scope, found, listed) =
          allowed-resolved (resolve out.hash (some (new_registry out.hash entries)) token) account
            (rw e at allowed) in
        let (nonempty, listed_by) =
          resolve_authorised out.hash entries token scope account found listed in
        (entries, from, e, nonempty, listed_by)

    -- A hub that starts without the insecure mode serves agents over TLS with the certificate of its
    -- files, and asks each of them for a certificate of the authority in the file; other replicas it
    -- dials, if any, with TLS that trusts that authority alone.
    pub channels_are_protected :
        o.insecure_mode ≡ false → IsMutual out o s.grpc_creds × IsDialled out o s.peer_creds
    channels_are_protected off = (
      protected-IsMutual out o off s.grpc_creds guarded.served,
      dialled out o off s guarded.shared_by,
    )

    -- A hub that starts with an address of Redis has the registry in that Redis and an address of its
    -- own; without one its registry is in memory only and it dials no replica.
    pub start-IsReachable : IsReachable out o s
    start-IsReachable = reachable out o s guarded.shared_by guarded.addressed
