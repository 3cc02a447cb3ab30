-- ===== src/Intents.antt =====
-- app/voice/intents.py: what a call can end in, and what that does to the case.
use dunning_agent.Prelude.{String, Bool, true, false, Option, none, some}
use dunning_agent.Model.{CaseStatus}

pub data CallIntent : Type 0 where
  retry_now retry_later declined wrong_number dispute no_answer unclear : CallIntent

pub record IntentOutcome : Type 0 where
  pub status : Option CaseStatus
  pub send_payment_link : Bool
  pub suppress_contact : Bool
  pub needs_human : Bool
  pub promises_payment : Bool

-- `IntentOutcome(status=...)` with the defaults of the other fields.
abbrev plain : Option CaseStatus → IntentOutcome
plain status = record {
  status = status;
  send_payment_link = false;
  suppress_contact = false;
  needs_human = false;
  promises_payment = false;
}

abbrev suppressed : CaseStatus → Bool → IntentOutcome
suppressed status human = record {
  status = some status;
  send_payment_link = false;
  suppress_contact = true;
  needs_human = human;
  promises_payment = false;
}

unfoldable pub outcome_for : CallIntent → IntentOutcome
outcome_for CallIntent.retry_now = record {
  status = none;
  send_payment_link = true;
  suppress_contact = false;
  needs_human = false;
  promises_payment = true;
}
outcome_for CallIntent.retry_later = plain none
outcome_for CallIntent.declined = suppressed CaseStatus.declined false
outcome_for CallIntent.wrong_number = suppressed CaseStatus.stopped false
outcome_for CallIntent.dispute = suppressed CaseStatus.stopped true
outcome_for CallIntent.no_answer = plain none
outcome_for CallIntent.unclear = plain none

-- The text of the enumeration's value.
unfoldable pub intent_text : CallIntent → String
intent_text CallIntent.retry_now = "retry_now"
intent_text CallIntent.retry_later = "retry_later"
intent_text CallIntent.declined = "declined"
intent_text CallIntent.wrong_number = "wrong_number"
intent_text CallIntent.dispute = "dispute"
intent_text CallIntent.no_answer = "no_answer"
intent_text CallIntent.unclear = "unclear"

abbrev pub is_wrong_number : CallIntent → Bool
is_wrong_number CallIntent.wrong_number = true
is_wrong_number _ = false
