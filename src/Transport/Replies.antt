-- ===== src/Transport/Replies.antt =====
-- Replies reach the requests that they answer: internal/transport/server.go, `agentConn`.
-- The requests of a connection and its receiving loop run at once; a run is a sequence of their
-- atomic steps, in any order.
use k8s_ts_mcp.Common.{
  ℕ, ◌≤◌, ◌<◌, String, ◌≡◌, ◌≢◌, ◌∙◌, refl, sym, ap, subst, ◌⊎◌, inl, inr, none, some, List, [],
  ◌∷◌, eqb, eqb→eq, Map, lookup, delete, lookup-insert, lookup-delete, Bool-cases, Option-cases,
  eq_iff, arith,
}
use k8s_ts_mcp.Transport.{AgentMessage}
use k8s_ts_mcp.Transport.Connections.{
  Conn, new_conn, await, forget, dispatch, take, dispatch_all, request_id, put_in,
}

-- A request registers and deregisters itself, the loop hands a message on, a request takes a reply.
pub data Step : Conn → Conn → Type 0 where
  awaits : (c : Conn) (id : String) → Step c (await id c).1
  forgets : (c : Conn) (id : String) → Step c (forget id c)
  dispatches : (c c' : Conn) (m : AgentMessage) → dispatch m c ≡ some c' → Step c c'
  takes : (c : Conn) (ch : ℕ) → Step c (take ch c)

pub data Steps (c : Conn) : Conn → Type 0 where
  none_left : Steps c c
  more : {d e : Conn} → Steps c d → Step d e → Steps c e

-- Every pending request has an empty channel of its own, and no later channel has been used.
pub record Inv (c : Conn) : Type 0 where
  pub below : (id : String) (ch : ℕ) → lookup id c.pending ≡ some ch → ch < c.next
  pub empty : (id : String) (ch : ℕ) → lookup id c.pending ≡ some ch → c.channels ch ≡ none
  pub unused : (ch : ℕ) → c.next ≤ ch → c.channels ch ≡ none
  pub apart :
      (id other : String) (ch : ℕ)
      → lookup id c.pending ≡ some ch
      → lookup other c.pending ≡ some ch
      → id ≡ other

pub new_conn-Inv : (id : String) (serial : ℕ) → Inv (new_conn id serial)
unfolding lookup
new_conn-Inv id serial = record {
  below = λ i ch e. cc;
  empty = λ i ch e. cc;
  unused = λ ch le. refl;
  apart = λ i o ch e e'. cc;
}

-- What the map answers after `await`, by whether it is asked for the same request.
pub lookup-await :
    (id other : String) (ch : ℕ) (c : Conn)
    → lookup other (await id c).1.pending ≡ some ch
    → ((id ≡ other) × (ch ≡ c.next)) ⊎ (lookup other c.pending ≡ some ch)
unfolding await
lookup-await id other ch c e =
    ground (arith, lookup-insert c.pending c.next id other, eq_iff id other)

pub lookup-forget :
    (id other : String) (ch : ℕ) (entries : Map ℕ)
    → lookup other (delete id entries) ≡ some ch
    → (id ≢ other) × (lookup other entries ≡ some ch)
lookup-forget id other ch entries e =
    ground (arith, lookup-delete entries id other, eq_iff id other)

pub await-Inv : (id : String) (c : Conn) → Inv c → Inv (await id c).1
unfolding await
await-Inv id c i = record {
  below = λ o ch e. elim (lookup-await id o ch c e) [
    | inl (_, at) ↦ omega (arith, at)
    | inr old ↦ omega (arith, i.below o ch old)
  ];
  empty = λ o ch e. elim (lookup-await id o ch c e) [
    | inl (_, at) ↦ i.unused ch (omega (arith, at))
    | inr old ↦ i.empty o ch old
  ];
  unused = λ ch le. i.unused ch (omega arith);
  apart = λ o p ch e e'. elim (lookup-await id o ch c e) [
    | inl (same, at) ↦ elim (lookup-await id p ch c e') [
      | inl (same', _) ↦ sym same ∙ same'
      | inr old ↦ let lt : ch < c.next = i.below p ch old in absurd (omega (arith, at))
    ]
    | inr old ↦ elim (lookup-await id p ch c e') [
      | inl (_, at) ↦ let lt : ch < c.next = i.below o ch old in absurd (omega (arith, at))
      | inr old' ↦ i.apart o p ch old old'
    ]
  ];
}

pub forget-Inv : (id : String) (c : Conn) → Inv c → Inv (forget id c)
unfolding forget
forget-Inv id c i = record {
  below = λ o ch e. i.below o ch (lookup-forget id o ch c.pending e).1;
  empty = λ o ch e. i.empty o ch (lookup-forget id o ch c.pending e).1;
  unused = i.unused;
  apart = λ o p ch e e'.
      i.apart o p ch (lookup-forget id o ch c.pending e).1 (lookup-forget id p ch c.pending e').1;
}

-- What dispatching a message does: nothing, or it fills the empty channel of a pending request,
-- which is then no longer pending.
pub data Dispatched (m : AgentMessage) (c : Conn) (c' : Conn) : Type 0 where
  dropped : c' ≡ c → Dispatched m c c'
  delivered :
      (id : String) (ch : ℕ)
      → request_id m ≡ some id
      → lookup id c.pending ≡ some ch
      → c' ≡ record c { pending = delete id c.pending; channels = put_in ch (some m) c.channels }
      → Dispatched m c c'

-- Dispatching a message does not block.
pub dispatch-Dispatched :
    (m : AgentMessage) (c : Conn)
    → Inv c
    → (c' : Conn) × (dispatch m c ≡ some c') × Dispatched m c c'
unfolding dispatch
dispatch-Dispatched m c i = elim (Option-cases (request_id m)) [
  | inl e ↦ rw e (c, refl, dropped refl)
  | inr (id, e) ↦ elim (Option-cases (lookup id c.pending)) [
    | inl absent ↦ rw (e, absent) (c, refl, dropped refl)
    | inr (ch, held) ↦ rw (e, held, i.empty id ch held) (_, refl, delivered id ch e held refl)
  ]
]

delivered-Inv :
    (m : AgentMessage) (c : Conn) (id : String) (ch : ℕ)
    → Inv c
    → lookup id c.pending ≡ some ch
    → Inv (record c { pending = delete id c.pending; channels = put_in ch (some m) c.channels })
delivered-Inv m c id ch i held = record {
  below = λ o k e. i.below o k (lookup-forget id o k c.pending e).1;
  empty = λ o k e.
      let (other, old) = lookup-forget id o k c.pending e in
      elim (Bool-cases (eqb ch k)) [
        | inl same ↦ absurd (other (i.apart id o ch held (old ∙ ap some (sym (eqb→eq ch k same)))))
        | inr apart ↦ rw apart (i.empty o k old)
      ];
  unused = λ k le. elim (Bool-cases (eqb ch k)) [
    | inl same ↦
        let lt : ch < c.next = i.below id ch held in absurd (omega (arith, eqb→eq ch k same))
    | inr apart ↦ rw apart (i.unused k le)
  ];
  apart = λ o p k e e'.
      i.apart o p k (lookup-forget id o k c.pending e).1 (lookup-forget id p k c.pending e').1;
}

take-Inv : (ch : ℕ) (c : Conn) → Inv c → Inv (take ch c)
unfolding take
take-Inv ch c i = record {
  below = i.below;
  empty = λ o k e. elim (Bool-cases (eqb ch k)) [
    | inl same ↦ rw same refl
    | inr apart ↦ rw apart (i.empty o k e)
  ];
  unused = λ k le. elim (Bool-cases (eqb ch k)) [
    | inl same ↦ rw same refl
    | inr apart ↦ rw apart (i.unused k le)
  ];
  apart = i.apart;
}

pub Dispatched-Inv : (m : AgentMessage) (c c' : Conn) → Inv c → Dispatched m c c' → Inv c'
Dispatched-Inv m c c' i (dropped e) = subst Inv (sym e) i
Dispatched-Inv m c c' i (delivered id ch em held e) =
    subst Inv (sym e) (delivered-Inv m c id ch i held)

-- The outcome of a dispatch that returned.
pub Dispatched-of :
    (m : AgentMessage) (c c' : Conn) → Inv c → dispatch m c ≡ some c' → Dispatched m c c'
Dispatched-of m c c' i e =
    let (d, ed, how) = dispatch-Dispatched m c i in
    let same : d ≡ c' = ground arith in subst (Dispatched m c) same how

pub Step-Inv : {c d : Conn} → Step c d → Inv c → Inv d
Step-Inv (awaits c id) i = await-Inv id c i
Step-Inv (forgets c id) i = forget-Inv id c i
Step-Inv (dispatches c d m e) i = Dispatched-Inv m c d i (Dispatched-of m c d i e)
Step-Inv (takes c ch) i = take-Inv ch c i

pub Steps-Inv : {c d : Conn} → Inv c → Steps c d → Inv d
Steps-Inv i none_left = i
Steps-Inv i (more steps step) = Step-Inv step (Steps-Inv i steps)

-- However the requests of a connection and its receiving loop are interleaved, handing a message on
-- never blocks the loop, and afterwards too every pending request has an empty channel of its own.
pub dispatch_returns :
    (id : String) (serial : ℕ) (c : Conn) (m : AgentMessage)
    → Steps (new_conn id serial) c
    → (c' : Conn) × (dispatch m c ≡ some c') × Inv c'
dispatch_returns id serial c m steps =
    let i : Inv c = Steps-Inv (new_conn-Inv id serial) steps in
    let (c', e, how) = dispatch-Dispatched m c i in (c', e, Dispatched-Inv m c c' i how)

pub dispatch_all-Inv : (ms : List AgentMessage) (c : Conn) → Inv c → Inv (dispatch_all ms c)
unfolding dispatch_all
dispatch_all-Inv [] c i = i
dispatch_all-Inv (m ∷ ms) c i =
    let (d, e, how) = dispatch-Dispatched m c i in
    rw (e, dispatch_all) (dispatch_all-Inv ms d (Dispatched-Inv m c d i how))
