-- ===== src/Orchestrator/Tally.antt =====
-- What `run_once` of app/orchestrator.py returns, and what it counts.
use dunning_agent.Prelude.{
  suc, ℕ, ◌+◌, ◌*◌, String, Bool, true, false, Option, none, some, List, [], ◌∷◌, ◌≡◌, refl, arith,
  length, Bool-cases, inl, inr,
}
use dunning_agent.Model.{Time, Settings, Customer, RecoveryCase}
use dunning_agent.Policy.{decide}
use dunning_agent.Policy.Laws.{decide-acts_iff}
use dunning_agent.World.{World, Env, ok, pure, ◌>>◌}
use dunning_agent.World.Returns.{Returns, Returns-bind, Returns-ok, Returns-map, Returned}
use dunning_agent.Prelude.Text.{strip}
use dunning_agent.Cache.{is_empty, claim}
use dunning_agent.Cache.Laws.{cache_total, claim_total}
use dunning_agent.Orchestrator.{
  cooldown_key, TickResult, new_result, customer_for, act, is_elsewhere, contacted_elsewhere,
  process_case, process_cases, run_once, claim_actionable_cases, consider, skip_or_act, publish,
}
use dunning_agent.Orchestrator.Outcome.{outcomes, OneMore, act_on-OneMore}

module _ (env : Env) (settings : Settings) (now : Time) where
  module _ (local_hour : String → Time → ℕ) where
    act-OneMore :
        (case : RecoveryCase) (customer : Option Customer) (result : TickResult) (w : World)
        → Returns
            (act env settings now
              (decide local_hour settings now case customer)
              case
              customer
              result
              w).0
            (OneMore result)
    unfolding act
    act-OneMore case customer result w =
        let decision = decide local_hour settings now case customer in
        act_on-OneMore env settings now decision.action decision case customer result w
          (λ h. ((decide-acts_iff local_hour settings now case customer).0 h).0.reachable)

    is_elsewhere_total :
        (customer : Option Customer) (w : World)
        → Returns (is_elsewhere env settings customer w).0 (λ _. Unit)
    unfolding is_elsewhere contacted_elsewhere
    is_elsewhere_total none w = tt
    is_elsewhere_total (some c) w = elim (Bool-cases (is_empty (strip settings.redis_url))) [
      | inl e ↦ rw e tt
      | inr e ↦ rw e ((cache_total env settings (cooldown_key c.razorpay_customer_id) 0 w).1)
    ]

    skip_or_act-OneMore :
        (case : RecoveryCase) (customer : Option Customer) (result : TickResult) (elsewhere : Bool)
        (w : World)
        → Returns
            (skip_or_act env settings local_hour now case customer result elsewhere w).0
            (OneMore result)
    skip_or_act-OneMore case customer result true w = (omega arith, refl)
    skip_or_act-OneMore case customer result false w = act-OneMore case customer result w

    -- One more case, and one more outcome.
    abbrev BothMore : TickResult → TickResult → Type 0
    BothMore before after =
        (outcomes after ≡ outcomes before + 1) × (after.considered ≡ before.considered + 1)

    process_case-BothMore :
        (case : RecoveryCase) (result : TickResult) (w : World)
        → Returns (process_case env settings local_hour now case result w).0 (BothMore result)
    unfolding process_case
    process_case-BothMore case result w =
        let customer = customer_for case w.db in
        Returns-bind (λ _. Unit) (BothMore result) (is_elsewhere env settings customer)
          (skip_or_act env settings local_hour now case customer (consider result)) w
          (is_elsewhere_total customer w)
          λ elsewhere w' _. skip_or_act-OneMore case customer (consider result) elsewhere w'

    -- So many more of both.
    abbrev ManyMore : ℕ → TickResult → TickResult → Type 0
    ManyMore n before after =
        (outcomes after ≡ outcomes before + n) × (after.considered ≡ before.considered + n)

    process_cases-ManyMore :
        (cases : List RecoveryCase) (result : TickResult) (w : World)
        → Returns
            (process_cases env settings local_hour now cases result w).0
            (ManyMore (length cases) result)
    unfolding process_cases
    process_cases-ManyMore [] result w = (omega arith, omega arith)
    process_cases-ManyMore (case ∷ cases) result w =
        Returns-bind (BothMore result) (ManyMore (suc (length cases)) result)
          (process_case env settings local_hour now case result)
          (process_cases env settings local_hour now cases) w (process_case-BothMore case result w)
          λ after w' one.
            Returns-map (ManyMore (length cases) after) (ManyMore (suc (length cases)) result)
              (process_cases env settings local_hour now cases after w').0
              (λ last many. (omega arith, omega arith)) (process_cases-ManyMore cases after w')

    publish_total :
        (pending : List String) (w : World) → Returned (publish env settings pending w).0
    unfolding publish
    publish_total [] w = tt
    publish_total (customer_id ∷ pending) w =
        let ttl = settings.customer_contact_cooldown_hours * 3600 in
        Returns-bind (λ _. Unit) (λ _. Unit) (claim env settings (cooldown_key customer_id) ttl)
          (λ _. publish env settings pending) w
          (claim_total env settings (cooldown_key customer_id) ttl w)
          (λ _ w' _. publish_total pending w')

    abbrev Accounted : ℕ → TickResult → Type 0
    Accounted n r = (r.considered ≡ n) × (outcomes r ≡ r.considered)

    -- A tick returns, whatever the outside answers, and it accounts for every case that it claimed:
    -- each one was contacted, linked, charged, stopped, left waiting or failed, and no other.
    pub run_once-accounts :
        (before : RecoveryCase → RecoveryCase → Bool) (locked : ℕ → Bool) (w : World)
        → (r : TickResult) × ((run_once env settings local_hour now before locked w).0 ≡ ok r)
          × (r.considered
              ≡ length (claim_actionable_cases before locked settings.worker_batch_size now w.db))
          × (outcomes r ≡ r.considered)
    unfolding run_once
    run_once-accounts before locked w =
        let cases = claim_actionable_cases before locked settings.worker_batch_size now w.db in
        let (r, e, p) =
          Returns-ok (Accounted (length cases))
            (run_once env settings local_hour now before locked w).0
            ((Returns-bind (ManyMore (length cases) new_result) (Accounted (length cases))
              (process_cases env settings local_hour now cases new_result)
              (λ result. publish env settings result.pending_cooldowns >> pure result) w
              (process_cases-ManyMore cases new_result w)
              λ result w' many.
                Returns-bind (λ _. Unit) (Accounted (length cases))
                  (publish env settings result.pending_cooldowns) (λ _. pure result) w'
                  (publish_total result.pending_cooldowns w')
                  (λ _ _ _. (omega arith, omega arith)))) in
        (r, e, p.0, p.1)
