-- ===== src/Policy.antt =====
-- app/policy.py: the recovery policy. `decide` is a function of the case, its customer, the time and
-- the settings, as in the source. The hour in the customer's time zone comes from the standard
-- library's `zoneinfo` database and is a parameter, `local_hour timezone now`.
pub mod Deadlines
pub mod Laws
pub mod Texts
use dunning_agent.Prelude.{
  ℕ, ◌+◌, String, Bool, true, false, ◌&&◌, ◌||◌, not, Option, none, some, ltb, leb, ◌==◌, is_some,
  truthy, get_or, if◌then◌else◌,
}
use dunning_agent.Model.{CaseStatus, is_unfinished, Time, hours, Settings, Customer, RecoveryCase}
use dunning_agent.Diagnosis.{RootCause, diagnose, needs_a_conversation, defers_to_the_bank}

pub data Action : Type 0 where
  retry_mandate link call wait stop : Action

pub data StopReason : Type 0 where
  already_closed do_not_contact max_attempts_reached below_min_amount : StopReason
  no_contact_details needs_human undeliverable : StopReason

pub data WaitReason : Type 0 where
  within_backoff outside_contact_window awaiting_bank_retry : WaitReason
  customer_recently_contacted : WaitReason

-- The texts that `Decision.reason` takes.
pub data Reason : Type 0 where
  stopped : StopReason → Reason
  waiting : WaitReason → Reason
  eligible : Reason

pub record Decision : Type 0 where
  pub action : Action
  pub reason : Reason
  pub root_cause : RootCause
  pub retry_after : Option Time

-- `case.status in CLOSED_STATUSES`
abbrev pub is_closed : CaseStatus → Bool
is_closed CaseStatus.recovered = true
is_closed CaseStatus.declined = true
is_closed CaseStatus.stopped = true
is_closed _ = false

abbrev pub is_configuration : RootCause → Bool
is_configuration RootCause.configuration = true
is_configuration _ = false

abbrev is_customer_funds : RootCause → Bool
is_customer_funds RootCause.customer_funds = true
is_customer_funds _ = false

-- `_can_call`
unfoldable pub can_call : Option Customer → Bool
can_call none = false
can_call (some c) = truthy c.phone && not c.phone_is_wrong

-- `_reachable_at_all`
unfoldable pub reachable_at_all : Option Customer → Bool
unfolding can_call
reachable_at_all none = false
reachable_at_all (some c) = can_call (some c) || truthy c.email

abbrev pub refuses_contact : Option Customer → Bool
refuses_contact none = false
refuses_contact (some c) = c.do_not_contact

-- `customer.last_contacted_at`; at `none` the policy has already stopped the case.
abbrev pub last_contacted : Option Customer → Option Time
last_contacted none = none
last_contacted (some c) = c.last_contacted_at

-- `now < since + window`, false where there is no such time. For `_within_backoff` this is
-- `now - since < window` with the subtrahend moved over.
abbrev pub within : Option Time → ℕ → Time → Bool
within none window now = false
within (some since) window now = ltb now (since + window)

-- `_deferring_to_the_bank`: a case with no `created_at` has age zero.
unfoldable pub deferring_to_the_bank : RecoveryCase → RootCause → Time → Settings → Bool
deferring_to_the_bank case cause now settings =
    if not (defers_to_the_bank cause) || is_some case.halted_at
    then false
    else ltb now (get_or case.created_at now + hours settings.bank_retry_grace_hours)

-- `_grace_expires_at`
unfoldable pub grace_expires_at : RecoveryCase → Time → Settings → Time
grace_expires_at case now settings =
    get_or case.created_at now + hours settings.bank_retry_grace_hours

-- `_within_backoff`
unfoldable pub is_within_backoff : RecoveryCase → Time → Settings → Bool
is_within_backoff case now settings =
    within case.last_attempt_at (hours settings.retry_backoff_hours) now

-- `_intervention_for`
unfoldable pub intervention_for : RecoveryCase → Option Customer → RootCause → Settings → Action
unfolding can_call
intervention_for case customer cause settings =
    if settings.mandate_retry_enabled && is_customer_funds cause && case.attempt_count == 0
    then Action.retry_mandate
    else if not (can_call customer)
    then Action.link
    else if needs_a_conversation cause
    then Action.call
    else if case.attempt_count == 0
    then Action.link
    else Action.call

abbrev stop_for : StopReason → RootCause → Decision
stop_for reason cause = record {
  action = Action.stop;
  reason = stopped reason;
  root_cause = cause;
  retry_after = none;
}

abbrev wait_for : WaitReason → RootCause → Option Time → Decision
wait_for reason cause until = record {
  action = Action.wait;
  reason = waiting reason;
  root_cause = cause;
  retry_after = until;
}

abbrev pub later : Option Time → ℕ → Option Time
later none window = none
later (some since) window = some (since + window)

module _ (local_hour : String → Time → ℕ) (settings : Settings) (now : Time) where
  -- `_within_contact_window`
  unfoldable pub within_contact_window : Bool
  within_contact_window =
      let hour = local_hour settings.contact_timezone now in
      leb settings.contact_window_start_hour hour && ltb hour settings.contact_window_end_hour

  -- The second and third band of `decide`: the waits, then the intervention.
  unfoldable pub decide_open : RecoveryCase → Option Customer → RootCause → Decision
  decide_open case customer cause =
      if deferring_to_the_bank case cause now settings
      then wait_for awaiting_bank_retry cause (some (grace_expires_at case now settings))
      else if is_within_backoff case now settings
      then wait_for within_backoff cause
          (later case.last_attempt_at (hours settings.retry_backoff_hours))
      else if within (last_contacted customer) (hours settings.customer_contact_cooldown_hours) now
      then wait_for customer_recently_contacted cause
          (later (last_contacted customer) (hours settings.customer_contact_cooldown_hours))
      else if not within_contact_window
      then wait_for outside_contact_window cause none
      else record {
        action = intervention_for case customer cause settings;
        reason = eligible;
        root_cause = cause;
        retry_after = none;
      }

  unfoldable pub decide : RecoveryCase → Option Customer → Decision
  decide case customer =
      let cause = diagnose case in
      if is_closed case.status
      then stop_for already_closed cause
      else if refuses_contact customer
      then stop_for do_not_contact cause
      else if leb case.max_attempts case.attempt_count
      then stop_for max_attempts_reached cause
      else if leb settings.max_delivery_failures case.delivery_failures
      then stop_for undeliverable cause
      else if ltb case.original_amount settings.min_recoverable_amount_paise
      then stop_for below_min_amount cause
      else if is_configuration cause
      then stop_for needs_human cause
      else if not (reachable_at_all customer)
      then stop_for no_contact_details cause
      else decide_open case customer cause
