-- ===== src/Transport/Forwarding.antt =====
-- Two replicas: internal/transport/server.go, where a request for a cluster whose agent is connected to
-- another replica is forwarded to that replica's internal service.
use k8s_ts_mcp.Common.{
  ◌⊎◌, inl, inr, false, find, Error, ℕ, String, true, ◌≡◌, ◌∙◌, refl, ap, none, some, List, ◌∷◌,
  Map, contains, Result, ok, err, continue,
}
use k8s_ts_mcp.K8sClient.Nodes.{NodeInfo}
use k8s_ts_mcp.Playbooks.{Signal}
use k8s_ts_mcp.AgentCore.{Attempt, Diagnosis, Execution}
use k8s_ts_mcp.AgentCore.Scan.{PodIssue}
use k8s_ts_mcp.Registry.{Registry}
use k8s_ts_mcp.Transport.{AgentMessage, Handler}
use k8s_ts_mcp.Transport.Connections.{Conn}
use k8s_ts_mcp.Transport.Client.{handle}
use k8s_ts_mcp.Transport.Replies.{Inv}
use k8s_ts_mcp.Transport.Correlation.{answers}
use k8s_ts_mcp.Transport.Routing.{
  IsRequest, is_diagnose, is_execute, is_scan, is_approve_action, is_get_logs, is_list_nodes,
  exchange_is_transparent,
}
use k8s_ts_mcp.Transport.Replica.{Config, Replica, get}
use k8s_ts_mcp.Transport.Replica.Peers.{peer_conn, peer_for, try_role}
use k8s_ts_mcp.Transport.Replica.Requests.{
  Request, diagnose, execute, scan, approve_action, get_logs, list_nodes, request, internal_request,
  internal_service,
}

-- `here` is the replica that is asked, whose world holds the other one, `there`.
module _ {W : Type 0} (here : Config (Replica × W)) (there : Config W) where
  -- The same request at both replicas.
  pub data IsSame : (A : Type 0) → Request (Replica × W) A → Request W A → Type 1 where
    same_diagnose : (sig : Signal) → IsSame Diagnosis (diagnose here sig) (diagnose there sig)
    same_execute :
        (playbook_id : String) (sig : Signal)
        → IsSame Execution (execute here playbook_id sig) (execute there playbook_id sig)
    same_scan : (ns : String) → IsSame (List PodIssue) (scan here ns) (scan there ns)
    same_approve_action :
        (playbook_id : String) (sig : Signal) (name : String) (meta : Map String)
        → IsSame Attempt
            (approve_action here playbook_id sig name meta)
            (approve_action there playbook_id sig name meta)
    same_get_logs :
        (ns name deployment : String) (tail_lines : ℕ)
        → IsSame String
            (get_logs here ns name deployment tail_lines)
            (get_logs there ns name deployment tail_lines)
    same_list_nodes : IsSame (List NodeInfo) (list_nodes here) (list_nodes there)

  forwarded-internal :
      {A : Type 0} (q : Request (Replica × W) A) (q' : Request W A) (req id : String)
      → IsSame A q q'
      → q.forwarded (internal_service there) req id ≡ internal_request there q' id
  forwarded-internal q q' req id (same_diagnose sig) = refl
  forwarded-internal q q' req id (same_execute playbook_id sig) = refl
  forwarded-internal q q' req id (same_scan ns) = refl
  forwarded-internal q q' req id (same_approve_action playbook_id sig name meta) = refl
  forwarded-internal q q' req id (same_get_logs ns name deployment tail_lines) = refl
  forwarded-internal q q' req id same_list_nodes = refl

  answer_outside :
      {A : Type 0} (r : Replica) (x : Result A × (Replica × W))
      → (continue {B = Result A × (Replica × (Replica × W))} x
          (λ a w. (ok a, (r, w)))
          (λ e w. (err e, (r, w)))).0
        ≡ x.0
  answer_outside r (ok a, w) = refl
  answer_outside r (err e, w) = refl

  same-IsRequest :
      {A : Type 0} (q : Request (Replica × W) A) (q' : Request W A)
      → IsSame A q q'
      → IsRequest there A q'
  same-IsRequest q q' (same_diagnose sig) = is_diagnose sig
  same-IsRequest q q' (same_execute playbook_id sig) = is_execute playbook_id sig
  same-IsRequest q q' (same_scan ns) = is_scan ns
  same-IsRequest q q' (same_approve_action playbook_id sig name meta) =
      is_approve_action playbook_id sig name meta
  same-IsRequest q q' (same_get_logs ns name deployment tail_lines) =
      is_get_logs ns name deployment tail_lines
  same-IsRequest q q' same_list_nodes = is_list_nodes

  -- A connection to the other replica is there, or can be dialled.
  abbrev pub IsReachable : String → Replica → Type 0
  IsReachable addr r =
      (contains addr r.peers ≡ true)
      ⊎ ((contains addr r.peers ≡ false)
          × (here.has_peer_creds ≡ true)
          × (here.wire.dial addr ≡ none))

  reachable-dialled :
      (addr : String) (r : Replica) (s : Replica × W)
      → IsReachable addr r
      → (r' : Replica) × (peer_conn here addr (r, s) ≡ (ok tt, (r', s)))
  unfolding peer_conn
  reachable-dialled addr r s (inl known) = (r, rw known refl)
  reachable-dialled addr r s (inr (unknown, creds, dials)) =
      (record r { peers = addr ∷ r.peers }, rw (unknown, creds, dials) refl)

  -- A request for a cluster for which no role is found and that is not connected here, but whose agent
  -- is connected to the replica that the registry names and that is or can be dialled, gets the
  -- response that the agent's handler would give in process, where the agent's answer is among the
  -- messages that arrive there and no other reply to it before.
  pub forwarded_is_transparent :
      {A : Type 0} (q : Request (Replica × W) A) (q' : Request W A) (g : Registry (Replica × W))
      (id addr req req' : String) (r other : Replica) (s s0 : Replica × W) (w1 w2 w3 w4 w5 v : W)
      (c : Conn) (h : Handler W) (ms : List AgentMessage) (ended : Error)
      → IsSame A q q'
      → try_role here id s ≡ (none, s0)
      → get here id r ≡ none
      → here.registry ≡ some g
      → g.lookup_replica id s0 ≡ (ok (some addr), (other, w1))
      → IsReachable addr r
      → here.wire.peer addr ≡ internal_service there
      → here.wire.new_request_id (other, w1) ≡ (req, (other, w2))
      → get there id other ≡ some c
      → Inv c
      → there.wire.new_request_id w2 ≡ (req', w3)
      → there.wire.send c.cluster_id (q'.message req') w3 ≡ (ok tt, w4)
      → there.wire.arrivals c.cluster_id w4 ≡ ((ms, ended), w5)
      → find (answers req') ms ≡ some (handle there.wire.sprintf h (q'.message req') v).0
      → (request here q id (r, s)).0 ≡ ok (q'.in_process h v).0
  unfolding request peer_for internal_request
  forwarded_is_transparent q q' g id addr req req' r other s s0 w1 w2 w3 w4 w5 v c h ms ended same
        no_role absent shared named reach is fresh connected inv fresh' goes comes first =
      let (r', dialled) = reachable-dialled addr r (other, w1) reach in
      simp (no_role, absent, shared, named, dialled, is, fresh)
        (answer_outside r' (q.forwarded (internal_service there) req id (other, w2))
          ∙ ap (λ f. (f (other, w2)).0) (forwarded-internal q q' req id same)
          ∙ simp connected (
              exchange_is_transparent there q' h c req' w2 w3 w4 w5 v ms ended
                (same-IsRequest q q' same) inv fresh' goes comes first))
