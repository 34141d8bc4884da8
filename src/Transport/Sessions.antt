-- ===== src/Transport/Sessions.antt =====
-- The sessions of a replica and its heartbeats: internal/transport/server.go, `register` and
-- `unregister`.
use k8s_ts_mcp.Common.{
  ℕ, String, true, false, not, ◌≡◌, ◌∙◌, refl, sym, ap, inl, inr, Option, none, some, List, [], ◌∷◌,
  ◌==◌, eqb, eqb-false→ne, select, All, Map, lookup, insert, delete, lookup-insert, lookup-delete,
  Bool-cases, eq_iff, arith,
}
use k8s_ts_mcp.Registry.{Registry}
use k8s_ts_mcp.Transport.Connections.{Conn, new_conn}
use k8s_ts_mcp.Transport.Replica.{
  Config, Replica, new_server, register, register_with, unregister, stopped, get,
}

-- Two values that `some` takes to the same option are the same.
some_injective : {A : Type 0} {a b : A} → some a ≡ some b → a ≡ b
some_injective {a = a} e = ap (λ o. elim o [ none ↦ a | some x ↦ x ]) e

module _ {W : Type 0} (config : Config W) where
  -- A session begins for a cluster that has none, or the session of a cluster ends.
  pub data Life : Replica × W → Replica × W → Type 0 where
    begins :
        (s : Replica × W) (c : Conn)
        → lookup c.cluster_id s.0.agents ≡ none
        → Life s (register config c s)
    ends : (s : Replica × W) (id : String) → Life s (unregister config id s)

  pub data Lives (s : Replica × W) : Replica × W → Type 0 where
    nothing_yet : Lives s s
    then_one : {t u : Replica × W} → Lives s t → Life t u → Lives s u

  -- Each loop that runs is that of the connection that the replica holds for its cluster.
  abbrev pub IsHeld : Map Conn → ℕ × String → Type 0
  IsHeld agents (serial, id) =
      (c : Conn) × (lookup id agents ≡ some c) × (c.serial ≡ serial) × (c.stop_heartbeat ≡ true)

  abbrev pub Beats : Replica → Type 0
  Beats r = All (IsHeld r.agents) r.heartbeats

  IsHeld-insert :
      (beats : List (ℕ × String)) (agents : Map Conn) (id : String) (c : Conn)
      → lookup id agents ≡ none
      → All (IsHeld agents) beats
      → All (IsHeld (insert id c agents)) beats
  IsHeld-insert [] agents id c absent h = tt
  IsHeld-insert ((serial, other) ∷ beats) agents id c absent ((d, at, same, stops), h) = (
    (d, ground (arith, lookup-insert agents c id other, eq_iff id other, absent, at), same, stops),
    IsHeld-insert beats agents id c absent h,
  )

  lookup_inserted :
      (agents : Map Conn) (id : String) (c : Conn) → lookup id (insert id c agents) ≡ some c
  lookup_inserted agents id c = lookup-insert agents c id id ∙ rw ((eq_iff id id).1 refl) refl

  register_with-Beats :
      (g : Option (Registry W)) (c : Conn) (s : Replica × W)
      → lookup c.cluster_id s.0.agents ≡ none
      → Beats s.0
      → Beats (register_with config g c s).0
  register_with-Beats none c (r, w) absent h =
      IsHeld-insert r.heartbeats r.agents c.cluster_id c absent h
  register_with-Beats (some g) c (r, w) absent h = (
    (_, lookup_inserted r.agents c.cluster_id _, refl, refl),
    IsHeld-insert r.heartbeats r.agents c.cluster_id _ absent h,
  )

  -- The entry of a loop outlives the removal of a cluster whose connection is another one.
  kept :
      (agents : Map Conn) (id other : String) (d : Conn)
      → lookup other agents ≡ some d
      → (id ≡ other → ⊥)
      → lookup other (delete id agents) ≡ some d
  kept agents id other d at apart =
      lookup-delete agents id other ∙ ground (arith, eq_iff id other, at)

  select-Beats :
      (beats : List (ℕ × String)) (agents : Map Conn) (id : String) (c : Conn)
      → lookup id agents ≡ some c
      → All (IsHeld agents) beats
      → All (IsHeld (delete id agents)) (select (λ (b : ℕ × String). not (eqb b.0 c.serial)) beats)
  unfolding select
  select-Beats [] agents id c held h = tt
  select-Beats ((serial, other) ∷ beats) agents id c held ((d, at, same, stops), h) =
      elim (Bool-cases (eqb serial c.serial)) [
        | inl own ↦ rw (own, select) (select-Beats beats agents id c held h)
        | inr apart ↦
            let foreign : id ≡ other → ⊥ = λ e.
              let one : c ≡ d = some_injective (sym held ∙ (ap (λ k. lookup k agents) e ∙ at)) in
              eqb-false→ne serial c.serial apart (sym same ∙ ap (λ c. c.serial) (sym one)) in
            rw (apart, select)
              (
                (d, kept agents id other d at foreign, same, stops),
                select-Beats beats agents id c held h,
              )
      ]

  delete-Beats :
      (beats : List (ℕ × String)) (agents : Map Conn) (id : String)
      → ((d : Conn) → lookup id agents ≡ some d → d.stop_heartbeat ≡ true → ⊥)
      → All (IsHeld agents) beats
      → All (IsHeld (delete id agents)) beats
  delete-Beats [] agents id silent h = tt
  delete-Beats ((serial, other) ∷ beats) agents id silent ((d, at, same, stops), h) = (
    (
      d,
      kept agents id other d at (λ e. silent d (ap (λ k. lookup k agents) e ∙ at) stops),
      same,
      stops,
    ),
    delete-Beats beats agents id silent h,
  )

  stopped-Beats :
      (o : Option Conn) (id : String) (r : Replica)
      → lookup id r.agents ≡ o
      → Beats r
      → All (IsHeld (delete id r.agents)) (stopped config o r.heartbeats)
  stopped-Beats none id r absent h = delete-Beats r.heartbeats r.agents id (λ d e stops. cc) h
  stopped-Beats (some c) id r held h = elim (Bool-cases c.stop_heartbeat) [
    | inl stops ↦ rw stops (select-Beats r.heartbeats r.agents id c held h)
    | inr silent ↦ rw silent (
        delete-Beats r.heartbeats r.agents id
          (λ d e stops.
            let one : c ≡ d = some_injective (sym held ∙ e) in
            let both : true ≡ false = sym stops ∙ (ap (λ c. c.stop_heartbeat) (sym one) ∙ silent) in
            cc)
          h)
  ]

  Life-Beats : {s t : Replica × W} → Life s t → Beats s.0 → Beats t.0
  unfolding register unregister
  Life-Beats (begins s c absent) h = register_with-Beats config.registry c s absent h
  Life-Beats (ends s id) h = stopped-Beats (lookup id s.0.agents) id s.0 refl h

  -- Where no two sessions of a cluster overlap, every heartbeat loop that runs is that of the
  -- connection which the replica holds for its cluster.
  pub heartbeats_held : (w : W) (s : Replica × W) → Lives (new_server, w) s → Beats s.0
  heartbeats_held w s nothing_yet = tt
  heartbeats_held w s (then_one {t = t} lives life) = Life-Beats life (heartbeats_held w t lives)

  -- Where an agent connects again before its old session has ended, the end of the old session
  -- removes the new connection, and after the end of the new one the old connection's loop still
  -- announces a cluster that is not connected.
  pub overlapping_sessions_leak :
      (g : Registry W) (id : String) (w : W)
      → config.registry ≡ some g
      → let both =
          register config (new_conn id 1) (register config (new_conn id 0) (new_server, w)) in
        let one = unregister config id both in
        let over = unregister config id one in
        (get config id one.0 ≡ none)
        × (get config id over.0 ≡ none)
        × (over.0.heartbeats ≡ (0, id) ∷ [])
  unfolding register unregister get insert delete lookup select
  overlapping_sessions_leak g id w e =
      let same : (id == id) ≡ true = (eq_iff id id).1 refl in simp (e, same) (refl, refl, refl)
