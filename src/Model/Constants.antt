-- ===== src/Model/Constants.antt =====
-- app/constants.py: the enumerations of the recovery loop.
use dunning_agent.Prelude.{Bool, true, false}

pub data CaseStatus : Type 0 where
  open_case in_progress recovered declined stopped : CaseStatus

pub data CaseSource : Type 0 where
  razorpay checkout seed : CaseSource

pub data ActionType : Type 0 where
  case_opened checkout_abandoned repeat_failure subscription_pending : ActionType
  subscription_halted policy_decision voice_call promise_made payment_link_created : ActionType
  mandate_retried mandate_link_sent payment_captured stopped : ActionType

pub data CallStatus : Type 0 where
  initiated answered completed no_answer failed : CallStatus

-- `status in [CaseStatus.OPEN, CaseStatus.IN_PROGRESS]`
abbrev pub is_unfinished : CaseStatus → Bool
is_unfinished CaseStatus.open_case = true
is_unfinished CaseStatus.in_progress = true
is_unfinished _ = false
