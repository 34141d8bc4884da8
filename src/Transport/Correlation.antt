-- ===== src/Transport/Correlation.antt =====
-- Which reply a request takes: internal/transport/server.go, `await`, `dispatch` and `forget`.
use k8s_ts_mcp.Common.{
  ℕ, ◌<◌, String, Bool, true, false, ◌≡◌, ◌≢◌, ◌∙◌, refl, sym, ap, subst, inl, inr, none, some,
  List, [], ◌∷◌, ◌==◌, eqb, eqb→eq, lookup, delete, lookup-insert, lookup-delete, Bool-cases,
  Option-cases, eq_iff, arith, find,
}
use k8s_ts_mcp.Transport.{AgentMessage}
use k8s_ts_mcp.Transport.Connections.{
  Conn, new_conn, await, forget, dispatch, take, dispatch_all, request_id, put_in,
}
use k8s_ts_mcp.Transport.Replies.{
  Step, awaits, forgets, dispatches, takes, Steps, none_left, more, Inv, new_conn-Inv, await-Inv,
  Steps-Inv, lookup-await, lookup-forget, Dispatched, dropped, delivered, Dispatched-of,
  dispatch-Dispatched, Dispatched-Inv,
}

-- The channel belongs to the request: nothing else is sent to it.
record Owned (id : String) (ch : ℕ) (c : Conn) : Type 0 where
  made : ch < c.next
  only : (other : String) → lookup other c.pending ≡ some ch → other ≡ id
  holds : (m : AgentMessage) → c.channels ch ≡ some m → request_id m ≡ some id

await-Owned : (id : String) (c : Conn) → Inv c → Owned id (await id c).0 (await id c).1
unfolding await
await-Owned id c i = record {
  made = omega arith;
  only = λ other e. elim (lookup-await id other c.next c e) [
    | inl (same, _) ↦ sym same
    | inr old ↦ let lt : c.next < c.next = i.below other c.next old in absurd (omega arith)
  ];
  holds = λ m e. ground (arith, i.unused c.next (omega arith));
}

Dispatched-Owned :
    (m : AgentMessage) (c d : Conn) (id : String) (ch : ℕ)
    → Dispatched m c d
    → Owned id ch c
    → Owned id ch d
Dispatched-Owned m c d id ch (dropped e) own = subst (Owned id ch) (sym e) own
Dispatched-Owned m c d id ch (delivered r k em held e) own = subst (Owned id ch) (sym e) (record {
  made = own.made;
  only = λ other el. own.only other (lookup-forget r other ch c.pending el).1;
  holds = λ n en. elim (Bool-cases (eqb k ch)) [
    | inr apart ↦ own.holds n (rw apart at en)
    | inl same ↦
        let here : k ≡ ch = eqb→eq k ch same in
        let mine : r ≡ id = own.only r (held ∙ ap some here) in
        let sent : some m ≡ some n = rw same at en in ground arith
  ];
})

Step-Owned : {c d : Conn} (id : String) (ch : ℕ) → Step c d → Inv c → Owned id ch c → Owned id ch d
unfolding await forget take
Step-Owned id ch (awaits c o) i own = record {
  made = omega (arith, own.made);
  only = λ other e. elim (lookup-await o other ch c e) [
    | inl (_, at) ↦ absurd (omega (arith, at, own.made))
    | inr old ↦ own.only other old
  ];
  holds = own.holds;
}
Step-Owned id ch (forgets c o) i own = record {
  made = own.made;
  only = λ other e. own.only other (lookup-forget o other ch c.pending e).1;
  holds = own.holds;
}
Step-Owned id ch (dispatches c d m e) i own =
    Dispatched-Owned m c d id ch (Dispatched-of m c d i e) own
Step-Owned id ch (takes c k) i own = record {
  made = own.made;
  only = own.only;
  holds = λ m e. elim (Bool-cases (eqb k ch)) [
    | inl same ↦ let gone : none ≡ some m = rw same at e in cc
    | inr apart ↦ own.holds m (rw apart at e)
  ];
}

Steps-Owned :
    {c d : Conn} (id : String) (ch : ℕ) → Steps c d → Inv c → Owned id ch c → Owned id ch d
Steps-Owned id ch none_left i own = own
Steps-Owned id ch (more steps step) i own =
    Step-Owned id ch step (Steps-Inv i steps) (Steps-Owned id ch steps i own)

-- However requests and replies of a connection are interleaved, the channel that a request waits on
-- never holds a reply to another request.
pub replies_correlated :
    (cluster : String) (serial : ℕ) (id : String) (c d : Conn) (m : AgentMessage)
    → Steps (new_conn cluster serial) c
    → Steps (await id c).1 d
    → d.channels (await id c).0 ≡ some m
    → request_id m ≡ some id
replies_correlated cluster serial id c d m before after e =
    let i : Inv c = Steps-Inv (new_conn-Inv cluster serial) before in
    let own : Owned id (await id c).0 d =
      Steps-Owned id (await id c).0 after (await-Inv id c i) (await-Owned id c i) in
    own.holds m e

-- The message is a response to the request.
abbrev pub answers : String → AgentMessage → Bool
answers id m = elim (request_id m) [ none ↦ false | some r ↦ r == id ]

-- What a channel holds stays there while nobody waits on it.
module _ (ch : ℕ) where
  abbrev Closed : Conn → Type 0
  Closed c = (id : String) → lookup id c.pending ≢ some ch

  Dispatched-Closed :
      (m : AgentMessage) (c d : Conn)
      → Dispatched m c d
      → Closed c
      → Closed d × (d.channels ch ≡ c.channels ch)
  Dispatched-Closed m c d (dropped e) closed = rw e (closed, refl)
  Dispatched-Closed m c d (delivered r k em held e) closed = rw e (
    (λ id el. closed id (lookup-forget r id ch c.pending el).1),
    elim (Bool-cases (eqb k ch)) [
      | inl same ↦ absurd (closed r (held ∙ ap some (eqb→eq k ch same)))
      | inr apart ↦ rw apart refl
    ],
  )

  dispatch_all-Closed :
      (ms : List AgentMessage) (c : Conn)
      → Inv c
      → Closed c
      → (dispatch_all ms c).channels ch ≡ c.channels ch
  unfolding dispatch_all
  dispatch_all-Closed [] c i closed = refl
  dispatch_all-Closed (m ∷ ms) c i closed =
      let (d, e, how) = dispatch-Dispatched m c i in
      let (closed', same) = Dispatched-Closed m c d how closed in
      rw (e, dispatch_all) (dispatch_all-Closed ms d (Dispatched-Inv m c d i how) closed' ∙ same)

  -- The connection after a reply to the request was handed on.
  abbrev replied : String → AgentMessage → Conn → Conn
  replied id m c = record c {
    pending = delete id c.pending;
    channels = put_in ch (some m) c.channels;
  }

  dispatch-answer :
      (id : String) (m : AgentMessage) (c : Conn)
      → request_id m ≡ some id
      → lookup id c.pending ≡ some ch
      → c.channels ch ≡ none
      → dispatch m c ≡ some (replied id m c)
  unfolding dispatch
  dispatch-answer id m c em held vacant = rw (em, held, vacant) refl

  replied-Closed :
      (id : String) (m : AgentMessage) (c : Conn)
      → Inv c
      → lookup id c.pending ≡ some ch
      → Closed (replied id m c)
  replied-Closed id m c i held other e =
      let (apart, old) = lookup-forget id other ch c.pending e in
      apart (i.apart id other ch held old)

  replied-channel :
      (id : String) (m : AgentMessage) (c : Conn) → (replied id m c).channels ch ≡ some m
  replied-channel id m c = ground arith

  answers-id : (id : String) (m : AgentMessage) → answers id m ≡ true → request_id m ≡ some id
  answers-id id m e = elim (Option-cases (request_id m)) [
    | inl none_there ↦ let bad : false ≡ true = rw (none_there, answers) at e in cc
    | inr (r, some_there) ↦
        let same : (r == id) ≡ true = rw (some_there, answers) at e in
        some_there ∙ ap some ((eq_iff r id).0 same)
  ]

  answers-other :
      (id r : String) (m : AgentMessage) → answers id m ≡ false → request_id m ≡ some r → r ≢ id
  answers-other id r m e er same =
      let no : (r == id) ≡ false = rw (er, answers) at e in ground (arith, eq_iff r id)

  Dispatched-waits :
      (id : String) (m : AgentMessage) (c d : Conn)
      → answers id m ≡ false
      → Dispatched m c d
      → lookup id c.pending ≡ some ch
      → lookup id d.pending ≡ some ch
  Dispatched-waits id m c d other (dropped e) waits = rw e waits
  Dispatched-waits id m c d other (delivered r k em held e) waits =
      rw e
        (ground (arith, lookup-delete c.pending r id, eq_iff r id, answers-other id r m other em))

  dispatch_all-find :
      (id : String) (ms : List AgentMessage) (c : Conn)
      → Inv c
      → lookup id c.pending ≡ some ch
      → (dispatch_all ms c).channels ch ≡ find (answers id) ms
  unfolding dispatch_all find
  dispatch_all-find id [] c i waits = i.empty id ch waits
  dispatch_all-find id (m ∷ ms) c i waits = elim (Bool-cases (answers id m)) [
    | inl mine ↦
        let em : request_id m ≡ some id = answers-id id m mine in
        let e : dispatch m c ≡ some (replied id m c) =
          dispatch-answer id m c em waits (i.empty id ch waits) in
        let i' : Inv (replied id m c) =
          Dispatched-Inv m c (replied id m c) i (Dispatched-of m c (replied id m c) i e) in
        rw (mine, e, dispatch_all, find)
          (dispatch_all-Closed ms (replied id m c) i' (replied-Closed id m c i waits)
            ∙ replied-channel id m c)
    | inr other ↦
        let (d, e, how) = dispatch-Dispatched m c i in
        rw (other, e, dispatch_all, find)
          (dispatch_all-find id ms d (Dispatched-Inv m c d i how)
            (Dispatched-waits id m c d other how waits))
  ]

-- A request that waits while messages arrive takes the first of them that answers it, and has
-- nothing to take where none does.
pub reply_is_first :
    (id : String) (c : Conn) (ms : List AgentMessage)
    → Inv c
    → (dispatch_all ms (await id c).1).channels (await id c).0 ≡ find (answers id) ms
unfolding await
reply_is_first id c ms i =
    dispatch_all-find c.next id ms (await id c).1 (await-Inv id c i)
      (lookup-insert c.pending c.next id id ∙ rw ((eq_iff id id).1 refl) refl)
