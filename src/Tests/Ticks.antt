-- ===== src/Tests/Ticks.antt =====
-- Ticks of app/orchestrator.py and a call's end, on two cases of one customer.
use dunning_agent.Prelude.{
  List, ◌++◌, ℕ, Bool, true, false, ◌≡◌, ◌≢◌, refl, arith, length, [], ◌∷◌, some, none, ◌⊎◌, ltb,
  sort_by, insert_by,
}
use dunning_agent.Model.{
  CaseStatus, RecoveryAction, RecoveryCase, VoiceCall, CallStatus, Customer, hours,
}
use dunning_agent.Policy.{
  Action, decide, can_call, decide_open, deferring_to_the_bank, grace_expires_at, intervention_for,
  is_within_backoff, reachable_at_all, within_contact_window,
}
use dunning_agent.Prelude.Text.{strip, is_space, lower, lower_code, lstrip, rstrip}
use dunning_agent.Diagnosis.{diagnose, classify, by_reason, by_source, normalise}
use dunning_agent.Policy.Texts.{as_metadata, action_text, cause_text, reason_text, wait_text}
use dunning_agent.Cache.{claim, redis}
use dunning_agent.Policy.Laws.{is_contact}
use dunning_agent.World.{
  World, Env, Result, ok, err, other_error, get_customer, log_action, put_case, put_customer,
  put_voice_call,
}
use dunning_agent.Intents.{CallIntent, is_wrong_number, outcome_for}
use dunning_agent.Outcomes.{CallResult, apply_call_result, suppressed_customer, link_after}
use dunning_agent.Outcomes.Laws.{apply_call_result-suppressed}
use dunning_agent.Orchestrator.{
  TickResult, run_once, claim_actionable_cases, process_cases, is_actionable, process_case,
  is_elsewhere, customer_for, contacted_elsewhere, act, act_on, contact, record_delivery, deliver,
  deliver_to, park, publish,
}
use dunning_agent.Orchestrator.Trail.{run_once-AppendsOnly}
use dunning_agent.Orchestrator.Outcome.{outcomes}
use dunning_agent.Orchestrator.Tally.{run_once-accounts}
use dunning_agent.Prelude.Sets.{IsDistinct}
use dunning_agent.Orchestrator.Cooldown.{run_once-one_contact}
use dunning_agent.Mandate.{charge_mandate, log_failure}
use dunning_agent.Orchestrator.{retry_mandate}
use dunning_agent.Orchestrator.Fallback.{undelivered, retry_mandate-no_fallback}
use dunning_agent.Tests.Fixtures.{
  settings, retrying, noon, today, customer, expired_case, funds_case, world, env,
}

abbrev by_id : RecoveryCase → RecoveryCase → Bool
by_id a b = ltb a.id b.id

abbrev unlocked : ℕ → Bool
unlocked id = false

-- The first case is called, the second waits for the cooldown.
abbrev one_call : TickResult
one_call = record {
  considered = 2;
  contacted = 1;
  linked = 0;
  charged = 0;
  stopped = 0;
  needs_human = 0;
  pending_cooldowns = "cust_1" ∷ [];
  waiting = 1;
  failed = 0;
}

abbrev tick : Result TickResult × World
tick = run_once env settings noon today by_id unlocked world

tick_test : tick.0 ≡ ok one_call
unfolding run_once process_cases claim_actionable_cases sort_by is_actionable insert_by process_case
    is_elsewhere customer_for get_customer contacted_elsewhere strip act act_on decide diagnose
    classify by_reason by_source normalise contact record_delivery deliver deliver_to park publish
    as_metadata action_text cause_text reason_text wait_text can_call decide_open
    deferring_to_the_bank grace_expires_at intervention_for is_within_backoff reachable_at_all
    within_contact_window is_space lower lower_code lstrip rstrip log_action put_case put_customer
    claim redis
tick_test = refl

run_once-one_contact_example : IsDistinct ("cust_1" ∷ []) × (length one_call.pending_cooldowns ≡ 1)
run_once-one_contact_example =
    run_once-one_contact env settings today noon (omega arith) by_id unlocked world one_call
      tick_test

run_once-accounts_example :
    (r : TickResult) × (tick.0 ≡ ok r)
    × (r.considered ≡ length (claim_actionable_cases by_id unlocked 10 today world.db))
    × (outcomes r ≡ r.considered)
run_once-accounts_example = run_once-accounts env settings today noon by_id unlocked world

abbrev call : VoiceCall
call = record {
  id = 1;
  recovery_case_id = 7;
  provider = "livekit";
  room_name = none;
  call_id = none;
  dialled_number = none;
  status = CallStatus.initiated;
  answered_at = none;
  ended_at = none;
  duration_seconds = none;
  detected_intent = none;
  final_node_id = none;
  transitions = none;
  transcript = none;
  error = none;
}

abbrev refused : CallResult
refused = record {
  intent = CallIntent.declined;
  status = CallStatus.completed;
  final_node_id = none;
  transcript = none;
  duration_seconds = some 40;
  answered_at = none;
  error = none;
  transitions = none;
}

abbrev refusing : Customer
refusing = suppressed_customer CallIntent.declined today customer

apply_call_result-suppressed_example :
    ((is_contact (decide noon settings (hours 600000) expired_case (some refusing)).action ≡ false)
      ⊎ (is_wrong_number CallIntent.declined ≡ true))
    × ((decide noon settings (hours 600000) expired_case (some refusing)).action ≢ Action.call)
unfolding apply_call_result get_customer outcome_for log_action link_after put_customer put_case
    put_voice_call suppressed_customer
apply_call_result-suppressed_example =
    apply_call_result-suppressed env settings expired_case call refused customer false today world
      refusing noon settings (hours 600000) expired_case refl refl

run_once-AppendsOnly_example :
    (added : List RecoveryAction) × (tick.1.db.actions ≡ world.db.actions ++ added)
run_once-AppendsOnly_example = run_once-AppendsOnly env settings noon today by_id unlocked world

-- Razorpay does not give the customer's tokens.
abbrev no_tokens : Env
no_tokens = record env { on_fetch_customer_tokens = λ _ _. err other_error }

abbrev left : RecoveryCase
left = record funds_case { status = CaseStatus.in_progress; last_attempt_at = some today }

retry_failed :
    (retry_mandate no_tokens retrying today customer funds_case world).0 ≡ ok (left, false)
unfolding retry_mandate charge_mandate log_failure log_action put_case
retry_failed = refl

retried : (decide noon retrying today funds_case (some customer)).action ≡ Action.retry_mandate
unfolding decide diagnose classify by_reason by_source normalise reachable_at_all decide_open
    deferring_to_the_bank is_within_backoff within_contact_window intervention_for grace_expires_at
    can_call strip lstrip rstrip lower lower_code
retried = refl

retry_mandate-no_fallback_example :
    ((decide noon retrying (hours 600000) (undelivered left) none).action ≢ Action.link)
    × ((decide noon retrying (hours 600000) (undelivered left) none).action ≢ Action.call)
retry_mandate-no_fallback_example =
    retry_mandate-no_fallback no_tokens retrying today customer noon funds_case left world
      (hours 600000) none retried retry_failed
