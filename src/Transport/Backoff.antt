-- ===== src/Transport/Backoff.antt =====
-- How long an agent waits before it reconnects: internal/transport/client.go, `Run`.
use k8s_ts_mcp.Common.{ℕ, ◌*◌, ◌≤◌, List, [], ◌∷◌, All, arith}
use k8s_ts_mcp.Transport.Client.{second, max_backoff, capped, after_session, run_from, run}

abbrev pub Within : ℕ → Type 0
Within b = (second ≤ b) × (b ≤ max_backoff)

after_session-Within : (uptime backoff : ℕ) → Within backoff → Within (after_session uptime backoff)
after_session-Within uptime backoff h = ground arith

capped-Within : (b : ℕ) → Within b → Within (capped (b * 2))
capped-Within b h = ground arith

run_from-Within :
    (backoff : ℕ) (sessions : List ℕ) → Within backoff → All Within (run_from backoff sessions)
unfolding run_from
run_from-Within backoff [] h = tt
run_from-Within backoff (uptime ∷ sessions) h =
    let now : Within (after_session uptime backoff) = after_session-Within uptime backoff h in
    (
      now,
      run_from-Within (capped (after_session uptime backoff * 2)) sessions
          (capped-Within (after_session uptime backoff) now),
    )

-- Whatever the sessions, each wait before reconnecting is between one second and thirty.
pub backoff_bounds : (sessions : List ℕ) → All Within (run sessions)
unfolding run
backoff_bounds sessions = run_from-Within second sessions (omega arith, omega arith)
