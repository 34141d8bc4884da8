-- ===== src/Transport/Routing.antt =====
-- A request over an agent's stream: internal/transport/server.go, `diagnoseLocal` and the other
-- local requests, with the agent's side in client.go.
use k8s_ts_mcp.Common.{
  ℕ, String, ◌≡◌, ◌∙◌, refl, ap, none, some, List, Map, lookup, lookup-delete, find, Error, Result,
  ok, err, eq_iff,
}
use k8s_ts_mcp.K8sClient.Nodes.{NodeInfo}
use k8s_ts_mcp.Playbooks.{Signal}
use k8s_ts_mcp.AgentCore.{Attempt, Diagnosis, Execution}
use k8s_ts_mcp.AgentCore.Scan.{PodIssue}
use k8s_ts_mcp.Transport.{AgentMessage, Handler, Response}
use k8s_ts_mcp.Transport.Connections.{Conn, await, forget, dispatch_all}
use k8s_ts_mcp.Transport.Client.{handle}
use k8s_ts_mcp.Transport.Replies.{Inv, await-Inv, forget-Inv, dispatch_all-Inv}
use k8s_ts_mcp.Transport.Correlation.{answers, reply_is_first}
use k8s_ts_mcp.Transport.Replica.{Config}
use k8s_ts_mcp.Transport.Replica.Requests.{
  Request, diagnose, execute, scan, approve_action, get_logs, list_nodes, exchange, sent,
  replied_to, selected,
}

module _ {W : Type 0} (config : Config W) where
  open config use {wire}

  -- The six requests.
  pub data IsRequest : (A : Type 0) → Request W A → Type 1 where
    is_diagnose : (sig : Signal) → IsRequest Diagnosis (diagnose config sig)
    is_execute :
        (playbook_id : String) (sig : Signal) → IsRequest Execution (execute config playbook_id sig)
    is_scan : (ns : String) → IsRequest (List PodIssue) (scan config ns)
    is_approve_action :
        (playbook_id : String) (sig : Signal) (name : String) (meta : Map String)
        → IsRequest Attempt (approve_action config playbook_id sig name meta)
    is_get_logs :
        (ns name deployment : String) (tail_lines : ℕ)
        → IsRequest String (get_logs config ns name deployment tail_lines)
    is_list_nodes : IsRequest (List NodeInfo) (list_nodes config)

  -- What the hub reads of an agent's message is the response that the handler gives in process.
  handle-read :
      {A : Type 0} (q : Request W A) (h : Handler W) (id : String) (v : W)
      → IsRequest A q
      → q.read (handle wire.sprintf h (q.message id) v).0 ≡ some (q.in_process h v).0
  unfolding handle
  handle-read q h id v (is_diagnose sig) = refl
  handle-read q h id v (is_execute playbook_id sig) = refl
  handle-read q h id v (is_scan ns) = refl
  handle-read q h id v (is_approve_action playbook_id sig name meta) = refl
  handle-read q h id v (is_get_logs ns name deployment tail_lines) = refl
  handle-read q h id v is_list_nodes = refl

  module _ {A : Type 0} (q : Request W A) where
    replied_to-find :
        (id : String) (c : Conn) (ms : List AgentMessage) (ended : Error) (w : W)
        → Inv c
        → (replied_to config q id (await id c).0 (await id c).1 ((ms, ended), w)).0
          ≡ selected config q (await id c).1 ended (find (answers id) ms)
    replied_to-find id c ms ended w i =
        ap (selected config q (await id c).1 ended) (reply_is_first id c ms i)

    selected-reply :
        (c : Conn) (ended : Error) (m : AgentMessage) (r : Response A)
        → q.read m ≡ some r
        → selected config q c ended (some m) ≡ ok r
    selected-reply c ended m r e = rw (e, selected) refl

    -- A request on a stream, with the agent's answer among the messages that arrive and no other
    -- reply to it before, gets the response that the handler would give in process.
    pub exchange_is_transparent :
        (h : Handler W) (c : Conn) (id : String) (w w1 w2 w3 v : W) (ms : List AgentMessage)
        (ended : Error)
        → IsRequest A q
        → Inv c
        → wire.new_request_id w ≡ (id, w1)
        → wire.send c.cluster_id (q.message id) w1 ≡ (ok tt, w2)
        → wire.arrivals c.cluster_id w2 ≡ ((ms, ended), w3)
        → find (answers id) ms ≡ some (handle wire.sprintf h (q.message id) v).0
        → (exchange config q c w).0 ≡ ok (q.in_process h v).0
    unfolding exchange await
    exchange_is_transparent h c id w w1 w2 w3 v ms ended six i fresh goes comes first =
        simp (fresh, goes, comes)
          (replied_to-find id c ms ended w3 i
            ∙ ap (selected config q (await id c).1 ended) first
            ∙ selected-reply (await id c).1 ended (handle wire.sprintf h (q.message id) v).0
                (q.in_process h v).0 (handle-read q h id v six))

    abbrev Settled : String → Result (Response A) × Conn × W → Type 0
    Settled id r = Inv r.1 × (lookup id r.1.pending ≡ none)

    forget-Settled :
        (id : String) (c : Conn)
        → Inv c
        → Inv (forget id c) × (lookup id (forget id c).pending ≡ none)
    unfolding forget
    forget-Settled id c i =
        (forget-Inv id c i, lookup-delete c.pending id id ∙ rw ((eq_iff id id).1 refl) refl)

    replied_to-Settled :
        (id : String) (ch : ℕ) (c : Conn) (r : (List AgentMessage × Error) × W)
        → Inv c
        → Settled id (replied_to config q id ch c r)
    replied_to-Settled id ch c ((ms, ended), w) i =
        forget-Settled id (dispatch_all ms c) (dispatch_all-Inv ms c i)

    sent-Settled :
        (id : String) (ch : ℕ) (c : Conn) (r : Result (Unit {0}) × W)
        → Inv c
        → Settled id (sent config q id ch c r)
    sent-Settled id ch c (err e, w) i = forget-Settled id c i
    sent-Settled id ch c (ok _, w) i = replied_to-Settled id ch c (wire.arrivals c.cluster_id w) i

    -- Whatever a request meets, the connection it leaves has no pending entry for it, every pending
    -- request still has an empty channel of its own.
    pub exchange-Inv :
        (c : Conn) (w w1 : W) (id : String)
        → Inv c
        → wire.new_request_id w ≡ (id, w1)
        → Inv (exchange config q c w).1 × (lookup id (exchange config q c w).1.pending ≡ none)
    unfolding exchange
    exchange-Inv c w w1 id i fresh =
        simp fresh (sent-Settled id (await id c).0 (await id c).1 _ (await-Inv id c i))
