-- ===== src/Policy/Texts.antt =====
-- `Decision.as_metadata` of app/policy.py, with the texts of the enumerations.
use dunning_agent.Prelude.{String, [], ◌∷◌}
use dunning_agent.Model.{Value, Metadata}
use dunning_agent.Diagnosis.{RootCause}
use dunning_agent.Policy.{
  Action, StopReason, WaitReason, Reason, stopped, waiting, eligible, Decision,
}

unfoldable pub action_text : Action → String
action_text Action.retry_mandate = "retry_mandate"
action_text Action.link = "link"
action_text Action.call = "call"
action_text Action.wait = "wait"
action_text Action.stop = "stop"

unfoldable pub stop_text : StopReason → String
stop_text StopReason.already_closed = "already_closed"
stop_text StopReason.do_not_contact = "do_not_contact"
stop_text StopReason.max_attempts_reached = "max_attempts_reached"
stop_text StopReason.below_min_amount = "below_min_amount"
stop_text StopReason.no_contact_details = "no_contact_details"
stop_text StopReason.needs_human = "needs_human"
stop_text StopReason.undeliverable = "undeliverable"

unfoldable pub wait_text : WaitReason → String
wait_text WaitReason.within_backoff = "within_backoff"
wait_text WaitReason.outside_contact_window = "outside_contact_window"
wait_text WaitReason.awaiting_bank_retry = "awaiting_bank_retry"
wait_text WaitReason.customer_recently_contacted = "customer_recently_contacted"

unfoldable pub reason_text : Reason → String
unfolding stop_text wait_text
reason_text (stopped reason) = stop_text reason
reason_text (waiting reason) = wait_text reason
reason_text eligible = "eligible"

unfoldable pub cause_text : RootCause → String
cause_text RootCause.customer_funds = "customer_funds"
cause_text RootCause.customer_instrument = "customer_instrument"
cause_text RootCause.customer_action = "customer_action"
cause_text RootCause.bank_decline = "bank_decline"
cause_text RootCause.transient = "transient"
cause_text RootCause.configuration = "configuration"
cause_text RootCause.unknown = "unknown"

unfoldable pub as_metadata : Decision → Metadata
unfolding action_text reason_text cause_text
as_metadata decision =
    ("action", Value.text (action_text decision.action))
    ∷ ("reason", Value.text (reason_text decision.reason))
    ∷ ("root_cause", Value.text (cause_text decision.root_cause))
    ∷ []
