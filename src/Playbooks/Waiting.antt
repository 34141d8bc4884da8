-- ===== src/Playbooks/Waiting.antt =====
-- The polling loop `waitFor` of internal/playbooks/corek8s/common.go and calico/node_degraded.go,
-- and the loop of keda/scaledobject_stuck.go, which sleeps two seconds. The loop runs on fuel: see
-- `enough_fuel` and its theorem below for the bound.
use k8s_ts_mcp.Common.{
  ℕ, zero, suc, ◌+◌, ◌≤◌, ◌<◌, Bool, true, false, ◌≡◌, refl, inl, inr, Option, none, some, arith,
  ltb, if◌then◌else◌, Bool-cases, ltb-false→le, Error, ok, err, Result, Call, CallBoth,
}
use k8s_ts_mcp.K8sClient.{Api}

module _ {W : Type 0} (api : Api W) where
  abbrev resume : (W → (Bool × Option Error) × W) → Option Error × W → (Bool × Option Error) × W
  resume again (none, w) = again w
  resume again (some e, w) = ((false, some e), w)

  abbrev poll_step :
      (W → (Bool × Option Error) × W) → ℕ → ℕ → Result Bool × W → (Bool × Option Error) × W
  poll_step again interval deadline (err e, w) = ((false, some e), w)
  poll_step again interval deadline (ok true, w) = ((true, none), w)
  poll_step again interval deadline (ok false, w) =
      if ltb deadline (api.now w) then ((false, none), w) else resume again (api.wait interval w)

  unfoldable pub poll : ℕ → ℕ → ℕ → Call W Bool → CallBoth W Bool
  poll zero interval deadline check w = ((false, none), w)
  poll (suc fuel) interval deadline check w =
      poll_step (poll fuel interval deadline check) interval deadline (check w)

  -- The deadline is fixed when the loop starts; `timeout` seconds allow at most `timeout + 2` rounds.
  unfoldable pub wait_for : ℕ → ℕ → Call W Bool → CallBoth W Bool
  unfolding poll
  wait_for interval timeout check w =
      poll (suc (suc timeout)) interval (api.now w + timeout) check w

  -- The clock of the API: a wait that ends by its timer takes its seconds, and nothing turns it back.
  pub record IsClock (check : Call W Bool) (interval : ℕ) : Type 0 where
    pub positive : 0 < interval
    pub wait_advances :
        (w w' : W) → api.wait interval w ≡ (none, w') → api.now w + interval ≤ api.now w'
    pub check_keeps : (w : W) → api.now w ≤ api.now (check w).1

  resume-cong :
      (f g : W → (Bool × Option Error) × W) (r : Option Error × W)
      → ((w : W) → r ≡ (none, w) → f w ≡ g w)
      → resume f r ≡ resume g r
  resume-cong f g (none, w) h = h w refl
  resume-cong f g (some e, w) h = refl

  module _ (check : Call W Bool) (interval : ℕ) (clock : IsClock check interval) where
    poll_step-cong :
        (f g : W → (Bool × Option Error) × W) (deadline : ℕ) (r : Result Bool × W)
        → ((w : W)
            → r.1 ≡ w
            → api.now w ≤ deadline
            → (w' : W) → api.wait interval w ≡ (none, w')
            → f w' ≡ g w')
        → poll_step f interval deadline r ≡ poll_step g interval deadline r
    poll_step-cong f g deadline (err e, w) h = refl
    poll_step-cong f g deadline (ok true, w) h = refl
    poll_step-cong f g deadline (ok false, w) h = elim (Bool-cases (ltb deadline (api.now w))) [
      | inl late ↦ rw late refl
      | inr soon ↦
          rw soon (resume-cong f g (api.wait interval w) (h w refl (ltb-false→le _ _ soon)))
    ]

    -- A round that starts past the deadline does not wait.
    past_deadline :
        (deadline : ℕ) (w w1 : W)
        → deadline + 1 ≤ 0 + api.now w
        → (check w).1 ≡ w1
        → api.now w1 ≤ deadline
        → ⊥
    past_deadline deadline w w1 h e soon =
        let kept : api.now w ≤ api.now w1 = rw e at (clock.check_keeps w) in omega arith

    -- A wait takes a second at least.
    later :
        (n deadline : ℕ) (w w1 w2 : W)
        → deadline + 1 ≤ suc n + api.now w
        → (check w).1 ≡ w1
        → api.wait interval w1 ≡ (none, w2)
        → deadline + 1 ≤ n + api.now w2
    later n deadline w w1 w2 h e ew =
        let kept : api.now w ≤ api.now w1 = rw e at (clock.check_keeps w) in
        omega (arith, clock.wait_advances w1 w2 ew, clock.positive)

    -- With fuel for the seconds that are left to the deadline, the amount of fuel does not matter.
    enough_fuel :
        (n m deadline : ℕ) (w : W)
        → deadline + 1 ≤ n + api.now w
        → deadline + 1 ≤ m + api.now w
        → poll (suc n) interval deadline check w ≡ poll (suc m) interval deadline check w
    unfolding poll
    enough_fuel zero m deadline w hn hm =
        poll_step-cong (poll zero interval deadline check) (poll m interval deadline check) deadline
          (check w) (λ w1 e soon w2 ew. absurd (past_deadline deadline w w1 hn e soon))
    enough_fuel (suc n) zero deadline w hn hm =
        poll_step-cong (poll (suc n) interval deadline check) (poll zero interval deadline check)
          deadline (check w) (λ w1 e soon w2 ew. absurd (past_deadline deadline w w1 hm e soon))
    enough_fuel (suc n) (suc m) deadline w hn hm =
        poll_step-cong (poll (suc n) interval deadline check) (poll (suc m) interval deadline check)
          deadline (check w)
          (λ w1 e soon w2 ew.
            enough_fuel n m deadline w2 (later n deadline w w1 w2 hn e ew)
              (later m deadline w w1 w2 hm e ew))

    -- The loop that the source writes has no bound on its rounds: on a clock, any fuel from
    -- `timeout + 2` on gives what `wait_for` gives, so the loop ends, within that many rounds.
    pub wait_for_terminates :
        (timeout more : ℕ) (w : W)
        → poll (suc (suc (timeout + more))) interval (api.now w + timeout) check w
          ≡ wait_for interval timeout check w
    unfolding wait_for
    wait_for_terminates timeout more w =
        enough_fuel (suc (timeout + more)) (suc timeout) (api.now w + timeout) w (omega arith)
          (omega arith)
