-- ===== src/Orchestrator/Fallback.antt =====
-- app/orchestrator.py and app/policy.py: what follows a retry of the mandate that did not go through.
use dunning_agent.Prelude.{ℕ, ◌+◌, String, Bool, true, false, Option, some, ◌≡◌, ◌≢◌, arith}
use dunning_agent.Model.{Time, Settings, Customer, RecoveryCase}
use dunning_agent.Diagnosis.{RootCause, diagnose}
use dunning_agent.World.{World, Env, Result, ok, err}
use dunning_agent.Policy.{Action, decide}
use dunning_agent.Policy.Deadlines.{decide-retry, decide-unretried}
use dunning_agent.Orchestrator.Delivery.{retry_mandate, after_charge, begin_attempt}

-- What `_record_delivery` saves of a case whose delivery failed.
abbrev pub undelivered : RecoveryCase → RecoveryCase
undelivered case = record case { delivery_failures = case.delivery_failures + 1 }

module _ (env : Env) (settings : Settings) (now : Time) (customer : Customer) where
  after_charge-undelivered :
      (case after : RecoveryCase) (r : Result Bool) (w : World)
      → (after_charge env settings now customer case r w).0 ≡ ok (after, false)
      → after ≡ case
  after_charge-undelivered case after (ok true) w h = cc
  after_charge-undelivered case after (ok false) w h = cc
  after_charge-undelivered case after (err e) w h = ground arith

  retry_mandate-undelivered :
      (case after : RecoveryCase) (w : World)
      → (retry_mandate env settings now customer case w).0 ≡ ok (after, false)
      → after ≡ begin_attempt now case
  unfolding retry_mandate
  retry_mandate-undelivered case after w h =
      after_charge-undelivered (begin_attempt now case) after _ _ h

  again :
      (local_hour : String → Time → ℕ) (case : RecoveryCase) (later : Time)
      (later_customer : Option Customer)
      → (settings.mandate_retry_enabled ≡ true)
        × (diagnose case ≡ RootCause.customer_funds)
        × (case.attempt_count ≡ 0)
      → ((decide local_hour settings later
            (undelivered (begin_attempt now case))
            later_customer).action
          ≢ Action.link)
        × ((decide local_hour settings later
              (undelivered (begin_attempt now case))
              later_customer).action
            ≢ Action.call)
  unfolding diagnose
  again local_hour case later later_customer (on, funds, none_spent) =
      decide-unretried local_hour settings (undelivered (begin_attempt now case)) later_customer
        later on funds none_spent

  -- When the policy decided to retry the mandate and the retry did not go through, then at no later
  -- time, whatever has become of the customer, does it decide on a payment link or a call for the case
  -- that the failed retry leaves.
  pub retry_mandate-no_fallback :
      (local_hour : String → Time → ℕ) (case after : RecoveryCase) (w : World) (later : Time)
      (later_customer : Option Customer)
      → (decide local_hour settings now case (some customer)).action ≡ Action.retry_mandate
      → (retry_mandate env settings now customer case w).0 ≡ ok (after, false)
      → ((decide local_hour settings later (undelivered after) later_customer).action ≢ Action.link)
        × ((decide local_hour settings later (undelivered after) later_customer).action
            ≢ Action.call)
  retry_mandate-no_fallback local_hour case after w later later_customer decided failed =
      rw (retry_mandate-undelivered case after w failed) (
        again local_hour case later later_customer
          (decide-retry local_hour settings case (some customer) now decided))
