-- ===== src/Orchestrator/Loop.antt =====
-- The loop of `run_once` of app/orchestrator.py and its body.
use Prim.Native.String.{◌++◌ as text_append}
use dunning_agent.Prelude.{
  ℕ, ◌+◌, ◌*◌, String, Bool, true, false, Option, none, some, List, [], ◌∷◌, if◌then◌else◌,
}
use dunning_agent.Prelude.Text.{strip}
use dunning_agent.Model.{CaseStatus, ActionType, Time, Settings, Customer, RecoveryCase, Value}
use dunning_agent.Policy.{Action, StopReason, Reason, stopped, Decision, decide}
use dunning_agent.Policy.Texts.{as_metadata, reason_text}
use dunning_agent.World.{
  Env, other_error, Exec, pure, raise, gets, ◌>>=◌, ◌>>◌, log_action, save_case,
}
use dunning_agent.Cache.{is_empty, claim, seen_only}
use dunning_agent.Orchestrator.Queue.{claim_actionable_cases, customer_for}
use dunning_agent.Orchestrator.Delivery.{
  TickResult, new_result, count_contacted, count_linked, count_charged, record_delivery,
  retry_mandate, send_link, contact,
}

abbrev pub cooldown_key : String → String
cooldown_key customer_id = text_append "cooldown:" customer_id

-- `decision.reason == StopReason.NEEDS_HUMAN`
abbrev asks_human : Reason → Bool
asks_human (stopped StopReason.needs_human) = true
asks_human _ = false

abbrev pub unpark : RecoveryCase → RecoveryCase
unpark case = record case { next_eligible_at = none }

abbrev pub consider : TickResult → TickResult
consider result = record result { considered = result.considered + 1 }

module _ (env : Env) (settings : Settings) where
  -- `_contacted_elsewhere`
  unfoldable pub contacted_elsewhere : Customer → Exec Bool
  contacted_elsewhere customer =
      if is_empty (strip settings.redis_url)
      then pure false
      else seen_only env settings (cooldown_key customer.razorpay_customer_id)

  -- `customer is not None and await _contacted_elsewhere(customer, settings)`
  unfoldable pub is_elsewhere : Option Customer → Exec Bool
  is_elsewhere none = pure false
  is_elsewhere (some customer) = contacted_elsewhere customer

  -- The branches that reach out. `wait` and `stop` are taken before.
  unfoldable pub deliver : Time → Action → RecoveryCase → Customer → TickResult → Exec TickResult
  deliver now Action.retry_mandate case customer result = do
    (after, delivered) ← retry_mandate env settings now customer case
    record_delivery now after customer result delivered count_charged
  deliver now Action.link case customer result = do
    (after, delivered) ← send_link env settings now customer case
    record_delivery now after customer result delivered count_linked
  deliver now _ case customer result = do
    (after, delivered) ← contact env settings now customer case
    record_delivery now after customer result delivered count_contacted

  -- Acting without a customer is Python's AttributeError; the policy stops such a case before.
  unfoldable pub deliver_to :
      Time → Action → RecoveryCase → Option Customer → TickResult → Exec TickResult
  deliver_to now action case none result = raise other_error
  deliver_to now action case (some customer) result = deliver now action case customer result

  unfoldable pub park : RecoveryCase → Option Time → TickResult → Exec TickResult
  park case until result = do
    save_case (record case { next_eligible_at = until })
    pure (record result { waiting = result.waiting + 1 })

  unfoldable pub close : RecoveryCase → Reason → TickResult → Exec TickResult
  close case reason result = do
    save_case (record case { status = CaseStatus.stopped })
    log_action case.id ActionType.stopped (("reason", Value.text (reason_text reason)) ∷ [])
    pure (record result {
      stopped = result.stopped + 1;
      needs_human = if asks_human reason then result.needs_human + 1 else result.needs_human;
    })

  unfoldable pub act_on :
      Time → Action → Decision → RecoveryCase → Option Customer → TickResult → Exec TickResult
  act_on now Action.wait decision case customer result = park case decision.retry_after result
  act_on now Action.stop decision case customer result = do
    log_action case.id ActionType.policy_decision (as_metadata decision)
    save_case (unpark case)
    close (unpark case) decision.reason result
  act_on now action decision case customer result = do
    log_action case.id ActionType.policy_decision (as_metadata decision)
    save_case (unpark case)
    deliver_to now action (unpark case) customer result

  unfoldable pub act :
      Time → Decision → RecoveryCase → Option Customer → TickResult → Exec TickResult
  act now decision case customer result = act_on now decision.action decision case customer result

  -- The loop after the commit: the cooldowns are claimed in the shared cache.
  unfoldable pub publish : List String → Exec (Unit {0})
  publish [] = pure tt
  publish (customer_id ∷ pending) = do
    claim env settings (cooldown_key customer_id) (settings.customer_contact_cooldown_hours * 3600)
    publish pending

  module _ (local_hour : String → Time → ℕ) (now : Time) where
    abbrev pub skip_or_act : RecoveryCase → Option Customer → TickResult → Bool → Exec TickResult
    skip_or_act case customer result true = pure (record result { waiting = result.waiting + 1 })
    skip_or_act case customer result false =
        act now (decide local_hour settings now case customer) case customer result

    unfoldable pub process_case : RecoveryCase → TickResult → Exec TickResult
    process_case case result = do
      customer ← gets (customer_for case)
      elsewhere ← is_elsewhere customer
      skip_or_act case customer (consider result) elsewhere

    unfoldable pub process_cases : List RecoveryCase → TickResult → Exec TickResult
    process_cases [] result = pure result
    process_cases (case ∷ cases) result = process_case case result >>= process_cases cases

    -- The commit is where the transaction ends; the cooldowns are published after it.
    unfoldable pub run_once : (RecoveryCase → RecoveryCase → Bool) → (ℕ → Bool) → Exec TickResult
    run_once before locked = do
      cases ← gets (claim_actionable_cases before locked settings.worker_batch_size now)
      result ← process_cases cases new_result
      publish result.pending_cooldowns
      pure result
