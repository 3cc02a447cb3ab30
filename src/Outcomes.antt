-- ===== src/Outcomes.antt =====
-- app/voice/outcomes.py: the result of a call is applied to the case and to the customer.
pub mod Laws
use Prim.Native.String.{◌++◌ as text_append}
use dunning_agent.Prelude.{
  ℕ, ◌+◌, String, Bool, true, false, Option, none, some, List, [], ◌∷◌, if◌then◌else◌,
}
use dunning_agent.Model.{
  CaseStatus, CallStatus, ActionType, Time, hours, Settings, Customer, RecoveryCase, VoiceCall,
  Value, Metadata,
}
use dunning_agent.World.{
  Env, Result, ok, err, Exec, pure, attempt, utcnow, ◌>>=◌, ◌>>◌, log_action, save_case,
  save_customer, save_voice_call,
}
use dunning_agent.PaymentLinks.{PaymentLink, create_recovery_link}
use dunning_agent.Intents.{CallIntent, IntentOutcome, outcome_for, intent_text, is_wrong_number}

pub record CallResult : Type 0 where
  pub intent : CallIntent
  pub status : CallStatus
  pub final_node_id : Option String
  pub transcript : Option String
  pub duration_seconds : Option ℕ
  pub answered_at : Option Time
  pub error : Option String
  pub transitions : Option (List Metadata)

unfoldable pub intent_sends_link : CallResult → Bool
intent_sends_link result = (outcome_for result.intent).send_payment_link

-- `result.transitions or None`
abbrev pub kept : Option (List Metadata) → Option (List Metadata)
kept none = none
kept (some []) = none
kept (some (t ∷ ts)) = some (t ∷ ts)

abbrev pub finished : CallResult → Time → VoiceCall → VoiceCall
finished result ended call = record call {
  status = result.status;
  detected_intent = some (intent_text result.intent);
  final_node_id = result.final_node_id;
  transcript = result.transcript;
  transitions = kept result.transitions;
  duration_seconds = result.duration_seconds;
  answered_at = result.answered_at;
  error = result.error;
  ended_at = some ended;
}

-- `now or utcnow()`
abbrev given_or_now : Env → Option Time → Exec Time
given_or_now env none = utcnow env
given_or_now env (some t) = pure t

abbrev status_text : CallStatus → String
status_text CallStatus.initiated = "initiated"
status_text CallStatus.answered = "answered"
status_text CallStatus.completed = "completed"
status_text CallStatus.no_answer = "no_answer"
status_text CallStatus.failed = "failed"

abbrev maybe_text : Option String → Value
maybe_text none = Value.null
maybe_text (some s) = Value.text s

abbrev maybe_num : Option ℕ → Value
maybe_num none = Value.null
maybe_num (some n) = Value.num n

-- The clock of a promise to pay.
abbrev promised : Settings → Time → RecoveryCase → RecoveryCase
promised settings now case = record case {
  promised_at = some now;
  promise_due_at = some (now + hours settings.promise_window_hours);
}

abbrev make_promise :
    Settings → Time → VoiceCall → CallIntent → Bool → RecoveryCase → Exec RecoveryCase
make_promise settings now call intent false case = pure case
make_promise settings now call intent true case = do
  save_case (promised settings now case)
  log_action case.id ActionType.promise_made (
      ("voice_call_id", Value.num call.id)
      ∷ ("intent", Value.text (intent_text intent))
      ∷ ("amount", Value.num case.original_amount)
      ∷ ("due_at", Value.num (now + hours settings.promise_window_hours))
      ∷ [])
  pure (promised settings now case)

abbrev with_status : CaseStatus → RecoveryCase → RecoveryCase
with_status status case = record case { status = status }

abbrev move : Option CaseStatus → RecoveryCase → Exec RecoveryCase
move none case = pure case
move (some status) case = save_case (with_status status case) >> pure (with_status status case)

abbrev exhausted : RecoveryCase → RecoveryCase
exhausted case = record case { attempt_count = case.max_attempts }

-- The person asked, or the number is not the person's.
unfoldable pub suppressed_customer : CallIntent → Time → Customer → Customer
suppressed_customer intent now customer =
    if is_wrong_number intent
    then (record customer { phone_is_wrong = true })
    else (record customer {
      do_not_contact = true;
      do_not_contact_reason = some (intent_text intent);
      do_not_contact_at = some now;
    })

abbrev suppress_customer : CallIntent → Time → Option Customer → Exec (Unit {0})
suppress_customer intent now none = pure tt
suppress_customer intent now (some customer) =
    save_customer (suppressed_customer intent now customer)

abbrev suppress : CallIntent → Time → Option Customer → Bool → RecoveryCase → Exec RecoveryCase
suppress intent now customer false case = pure case
suppress intent now customer true case = do
  save_case (exhausted case)
  suppress_customer intent now customer
  pure (exhausted case)

abbrev log_stop : CallIntent → Bool → Option CaseStatus → RecoveryCase → Exec (Unit {0})
log_stop intent human none case = pure tt
log_stop intent human (some _) case = log_action case.id ActionType.stopped (
    ("reason", Value.text (text_append "call_intent_" (intent_text intent)))
    ∷ ("needs_human", Value.bool human)
    ∷ [])

abbrev after_link_sent : RecoveryCase → Result (RecoveryCase × PaymentLink) → RecoveryCase
after_link_sent case (ok (linked, _)) = linked
after_link_sent case (err _) = case

-- The link of a customer who said yes; a failure to send it is caught. The link takes its settings and
-- its time from the process: `settings`, and a reading of the clock.
unfoldable pub link_after :
    Env → Settings → Bool → RecoveryCase → Option Customer → Bool → Exec RecoveryCase
link_after env settings false case customer has_client = pure case
link_after env settings true case none has_client = pure case
link_after env settings true case (some customer) false = pure case
link_after env settings true case (some customer) true = do
  outcome ← attempt (utcnow env >>= create_recovery_link env settings case customer)
  pure (after_link_sent case outcome)

-- `has_client` is `client is not None`. The case comes back as it is left.
unfoldable pub apply_call_result :
    Env
    → Settings
    → RecoveryCase
    → VoiceCall
    → CallResult
    → Option Customer
    → Bool
    → Option Time
    → Exec RecoveryCase
apply_call_result env settings case call result customer has_client given =
    let outcome = outcome_for result.intent in
    do
      ended ← utcnow env
      save_voice_call (finished result ended call)
      now ← given_or_now env given
      on_promise ← make_promise settings now call result.intent outcome.promises_payment case
      moved ← move outcome.status on_promise
      closed ← suppress result.intent now customer outcome.suppress_contact moved
      log_action closed.id ActionType.voice_call (
          ("voice_call_id", Value.num call.id)
          ∷ ("intent", Value.text (intent_text result.intent))
          ∷ ("status", Value.text (status_text result.status))
          ∷ ("final_node", maybe_text result.final_node_id)
          ∷ ("duration_seconds", maybe_num result.duration_seconds)
          ∷ ("suppressed_contact", Value.bool outcome.suppress_contact)
          ∷ ("needs_human", Value.bool outcome.needs_human)
          ∷ ("payment_link_due", Value.bool outcome.send_payment_link)
          ∷ [])
      log_stop result.intent outcome.needs_human outcome.status closed
      link_after env settings outcome.send_payment_link closed customer has_client
