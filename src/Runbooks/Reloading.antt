-- ===== src/Runbooks/Reloading.antt =====
-- Reading the catalogue again: internal/runbooks/runbooks.go, `parse`, `Reload` and
-- `WatchAndReload`.
use k8s_ts_mcp.Common.{
  ℕ, zero, suc, String, false, ◌≡◌, ◌∙◌, refl, inl, inr, List, [], ◌∷◌, All, Bool-cases, Error,
  Result, ok, err, Call,
}
use k8s_ts_mcp.Runbooks.{
  Runbook, Entries, parse, parse_blocks, parse_entry, is_reference_only, reload, reloaded,
  watch_and_reload,
}

module _ {W : Type 0} (path : String) (read : String → Call W String) where
  -- What a lookup may find by its kind or its keywords.
  abbrev pub IsListed : Runbook → Type 0
  IsListed e = is_reference_only e ≡ false

  parse_blocks-IsListed : (blocks : List String) → All IsListed (parse_blocks blocks)
  unfolding parse_blocks
  parse_blocks-IsListed [] = tt
  parse_blocks-IsListed (block ∷ blocks) =
      elim (Bool-cases (is_reference_only (parse_entry block))) [
        | inl only ↦ rw only (parse_blocks-IsListed blocks)
        | inr listed ↦ rw listed (listed, parse_blocks-IsListed blocks)
      ]

  parse-IsListed : (text : String) → All IsListed (parse text)
  unfolding parse
  parse-IsListed text = parse_blocks-IsListed _

  -- The reads of the ticks: what each of them gives, in the world that the one before left.
  pub reads : (W → W) → ℕ → W → List (Result String)
  reads elapse zero w = []
  reads elapse (suc ticks) w = let (r, w') = read path (elapse w) in r ∷ reads elapse ticks w'

  -- The catalogue of the last read that succeeded, else the one before.
  abbrev pub last_good : Entries → List (Result String) → Entries
  last_good entries [] = entries
  last_good entries (err e ∷ rs) = last_good entries rs
  last_good entries (ok text ∷ rs) = last_good (parse text) rs

  reloaded-last_good :
      (entries : Entries) (r : Result String × W) (rs : List (Result String))
      → last_good (reloaded path read entries r).1.0 rs ≡ last_good entries (r.0 ∷ rs)
  reloaded-last_good entries (err e, w) rs = refl
  reloaded-last_good entries (ok text, w) rs = refl

  reloaded_world :
      (entries : Entries) (r : Result String × W) → (reloaded path read entries r).1.1 ≡ r.1
  reloaded_world entries (err e, w) = refl
  reloaded_world entries (ok text, w) = refl

  watch_last :
      (elapse : W → W) (ticks : ℕ) (reported : List Error) (entries : Entries) (w : W)
      → (watch_and_reload path read elapse ticks reported (entries, w)).1.0
        ≡ last_good entries (reads elapse ticks w)
  unfolding watch_and_reload reload reads
  watch_last elapse zero reported entries w = refl
  watch_last elapse (suc ticks) reported entries w =
      watch_last elapse ticks _ _ _
      ∙ (rw (reloaded_world entries (read path (elapse w))) refl
          ∙ reloaded-last_good entries (read path (elapse w))
              (reads elapse ticks (read path (elapse w)).1))

  last_good-IsListed :
      (rs : List (Result String)) (entries : Entries)
      → All IsListed entries
      → All IsListed (last_good entries rs)
  last_good-IsListed [] entries h = h
  last_good-IsListed (err e ∷ rs) entries h = last_good-IsListed rs entries h
  last_good-IsListed (ok text ∷ rs) entries h =
      last_good-IsListed rs (parse text) (parse-IsListed text)

  -- After any number of ticks the catalogue is that of the last read that succeeded, whatever failed
  -- since, or the one before where none did, and each of its entries has a kind or a keyword, where
  -- each had before.
  pub watch_keeps_last_good :
      (elapse : W → W) (ticks : ℕ) (reported : List Error) (entries : Entries) (w : W)
      → All IsListed entries
      → let after = (watch_and_reload path read elapse ticks reported (entries, w)).1.0 in
        (after ≡ last_good entries (reads elapse ticks w)) × All IsListed after
  watch_keeps_last_good elapse ticks reported entries w h =
      let e = watch_last elapse ticks reported entries w in
      (e, rw e (last_good-IsListed (reads elapse ticks w) entries h))
