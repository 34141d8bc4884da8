-- ===== src/RoleCluster/Caching.antt =====
-- The cache of role clusters: internal/rolecluster/rolecluster.go, `Manager.Handler` beside other
-- calls of it.
use k8s_ts_mcp.Common.{
  String, ◌≡◌, ◌∙◌, refl, inl, inr, Option, none, some, lookup, lookup-insert, Option-cases, eq_iff,
  arith, ok, err,
}
use k8s_ts_mcp.AgentCore.{Handler}
use k8s_ts_mcp.RoleCluster.{
  Cache, Manager, Found, build, keep_first, install, finish, handler_from, handler,
}

module _ {W : Type 0} (m : Manager W) where
  -- What other calls make of a cache: each installs what it built.
  pub data Installs (cache : Cache W) : Cache W → Type 0 where
    untouched : Installs cache cache
    then_install :
        {later : Cache W}
        → Installs cache later
        → (id : String) (h : Handler W) → Installs cache (install m id h later).1

  keep_first-keeps :
      (id other : String) (h g : Handler W) (cache : Cache W)
      → lookup id cache ≡ some h
      → lookup id (keep_first m other g cache (lookup other cache)).1 ≡ some h
  keep_first-keeps id other h g cache held = elim (Option-cases (lookup other cache)) [
    | inr (existing, e) ↦ rw e held
    | inl e ↦ rw e (ground (arith, lookup-insert cache g other id, eq_iff other id, held))
  ]

  Installs-keeps :
      {cache later : Cache W} (id : String) (h : Handler W)
      → Installs cache later
      → lookup id cache ≡ some h
      → lookup id later ≡ some h
  unfolding install
  Installs-keeps id h untouched held = held
  Installs-keeps id h (then_install {later = later} before other g) held =
      keep_first-keeps id other h g later (Installs-keeps id h before held)

  kept_first :
      (id : String) (g : Handler W) (cache : Cache W)
      → lookup id (keep_first m id g cache (lookup id cache)).1
        ≡ some (keep_first m id g cache (lookup id cache)).0
  kept_first id g cache = elim (Option-cases (lookup id cache)) [
    | inr (existing, e) ↦ rw e e
    | inl e ↦ rw e (lookup-insert cache g id id ∙ rw ((eq_iff id id).1 refl) refl)
  ]

  -- A handler that was answered is in the cache.
  abbrev IsCached : String → Found (Handler W) × (Cache W × W) → Type 0
  IsCached id (none, s) = Unit
  IsCached id (some (err e), s) = Unit
  IsCached id (some (ok h), s) = lookup id s.0 ≡ some h

  finish-IsCached :
      (id : String) (cache : Cache W) (r : Found (Handler W) × W)
      → IsCached id (finish m id cache r)
  unfolding install
  finish-IsCached id cache (none, w) = tt
  finish-IsCached id cache (some (err e), w) = tt
  finish-IsCached id cache (some (ok h), w) = kept_first id h cache

  handler_from-IsCached :
      (id : String) (others : Cache W → Cache W) (o : Option (Handler W)) (s : Cache W × W)
      → lookup id s.0 ≡ o
      → IsCached id (handler_from m id others o s)
  handler_from-IsCached id others (some h) (cache, w) e = e
  handler_from-IsCached id others none (cache, w) e =
      finish-IsCached id (others cache) (build m id w)

  -- Once a call for a cluster answered a handler, whatever calls ran beside it or run afterwards, a
  -- later call for that cluster answers the same handler and leaves the cache and the world alone.
  pub handler_is_kept :
      (id : String) (others others' : Cache W → Cache W) (s : Cache W × W) (h : Handler W)
      (cache later : Cache W) (w w' : W)
      → handler m id others s ≡ (some (ok h), (cache, w))
      → Installs cache later
      → handler m id others' (later, w') ≡ (some (ok h), (later, w'))
  unfolding handler
  handler_is_kept id others others' s h cache later w w' e after =
      let first : IsCached id (handler_from m id others (lookup id s.0) s) =
        handler_from-IsCached id others (lookup id s.0) s refl in
      let held : lookup id cache ≡ some h = rw e at first in
      simp (Installs-keeps id h after held) refl
