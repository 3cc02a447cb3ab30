-- ===== src/Policy/Deadlines.antt =====
-- How the decisions of app/policy.py change as time passes.
use dunning_agent.Prelude.{
  ℕ, ◌≤◌, ◌<◌, String, true, false, Option, some, is_some, ◌≡◌, ◌≢◌, arith, ◌⊎◌,
}
use dunning_agent.Model.{Time, Settings, Customer, RecoveryCase}
use dunning_agent.Diagnosis.{RootCause, diagnose}
use dunning_agent.Policy.{
  Action, Decision, can_call, deferring_to_the_bank, grace_expires_at, is_within_backoff,
  intervention_for, decide_open, decide,
}
use dunning_agent.Policy.Laws.{
  is_stop, decide-IsWorkable_iff, decide-workable, decide_open-not_stop,
}

module _ (local_hour : String → Time → ℕ) (settings : Settings) where
  abbrev open_decided : Time → RecoveryCase → Option Customer → Decision
  open_decided now case customer = decide_open local_hour settings now case customer (diagnose case)

  -- A stop does not depend on the time: a case that is stopped now is stopped, for the same reason,
  -- at every other time too.
  pub decide-stop_permanent :
      (case : RecoveryCase) (customer : Option Customer) (now now' : Time)
      → is_stop (decide local_hour settings now case customer).action ≡ true
      → decide local_hour settings now' case customer ≡ decide local_hour settings now case customer
  unfolding decide
  decide-stop_permanent case customer now now' h =
      ground (arith, decide_open-not_stop local_hour settings now case customer (diagnose case))

  -- The open band alone: the time given lies ahead, and once it has come the reason is another.
  decide_open-parked :
      (case : RecoveryCase) (customer : Option Customer) (now now' t : Time)
      → is_some case.created_at ≡ true
      → (open_decided now case customer).retry_after ≡ some t
      → (now < t)
        × (t ≤ now'
            → (open_decided now' case customer).reason ≢ (open_decided now case customer).reason)
  unfolding decide_open deferring_to_the_bank grace_expires_at is_within_backoff
  decide_open-parked case customer now now' t c h = ground arith

  not_stop-parked :
      (case : RecoveryCase) (customer : Option Customer) (now t : Time)
      → (decide local_hour settings now case customer).retry_after ≡ some t
      → is_stop (decide local_hour settings now case customer).action ≡ false
  unfolding decide
  not_stop-parked case customer now t h =
      ground (arith, decide_open-not_stop local_hour settings now case customer (diagnose case))

  -- A case that is parked until a time is parked until a later one than now, and from that time on
  -- the reason that parked it no longer holds it. (Rows read from the database have `created_at`.)
  pub decide-parked :
      (case : RecoveryCase) (customer : Option Customer) (now now' t : Time)
      → is_some case.created_at ≡ true
      → (decide local_hour settings now case customer).retry_after ≡ some t
      → t ≤ now'
      → (now < t)
        × ((decide local_hour settings now' case customer).reason
            ≢ (decide local_hour settings now case customer).reason)
  decide-parked case customer now now' t c h due =
      let w =
        (decide-IsWorkable_iff local_hour settings now case customer).0
          (not_stop-parked case customer now t h) in
      rw (decide-workable local_hour settings now case customer w) (
        rw (decide-workable local_hour settings now' case customer w) (
          let parked =
            decide_open-parked case customer now now' t c
              (rw (decide-workable local_hour settings now case customer w) at h) in
          (parked.0, parked.1 due)))

  decide_open-call :
      (case : RecoveryCase) (customer : Option Customer) (now : Time)
      → (open_decided now case customer).action ≡ Action.call
      → (can_call customer ≡ true)
        × ((diagnose case ≡ RootCause.customer_instrument) ⊎ (0 < case.attempt_count))
  unfolding decide_open intervention_for
  decide_open-call case customer now h = ground arith

  -- A call is spent only on a number that is the customer's, and only where the instrument is dead
  -- or an earlier attempt has been made.
  pub decide-call :
      (case : RecoveryCase) (customer : Option Customer) (now : Time)
      → (decide local_hour settings now case customer).action ≡ Action.call
      → (can_call customer ≡ true)
        × ((diagnose case ≡ RootCause.customer_instrument) ⊎ (0 < case.attempt_count))
  unfolding decide
  decide-call case customer now h = ground (arith, decide_open-call case customer now)

  decide_open-unretried :
      (case : RecoveryCase) (customer : Option Customer) (now : Time)
      → settings.mandate_retry_enabled ≡ true
      → diagnose case ≡ RootCause.customer_funds
      → case.attempt_count ≡ 0
      → ((open_decided now case customer).action ≢ Action.link)
        × ((open_decided now case customer).action ≢ Action.call)
  unfolding decide_open intervention_for
  decide_open-unretried case customer now on funds first = ground arith

  pub decide-unretried :
      (case : RecoveryCase) (customer : Option Customer) (now : Time)
      → settings.mandate_retry_enabled ≡ true
      → diagnose case ≡ RootCause.customer_funds
      → case.attempt_count ≡ 0
      → ((decide local_hour settings now case customer).action ≢ Action.link)
        × ((decide local_hour settings now case customer).action ≢ Action.call)
  unfolding decide
  decide-unretried case customer now on funds first =
      ground (arith, decide_open-unretried case customer now on funds first)

  decide_open-retry :
      (case : RecoveryCase) (customer : Option Customer) (now : Time)
      → (open_decided now case customer).action ≡ Action.retry_mandate
      → (settings.mandate_retry_enabled ≡ true)
        × (diagnose case ≡ RootCause.customer_funds)
        × (case.attempt_count ≡ 0)
  unfolding decide_open intervention_for
  decide_open-retry case customer now h = ground arith

  pub decide-retry :
      (case : RecoveryCase) (customer : Option Customer) (now : Time)
      → (decide local_hour settings now case customer).action ≡ Action.retry_mandate
      → (settings.mandate_retry_enabled ≡ true)
        × (diagnose case ≡ RootCause.customer_funds)
        × (case.attempt_count ≡ 0)
  unfolding decide
  decide-retry case customer now h = ground (arith, decide_open-retry case customer now)
