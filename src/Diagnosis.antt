-- ===== src/Diagnosis.antt =====
-- app/diagnosis.py: the root cause of a failed charge, from the fields that Razorpay puts on it.
pub mod Laws
use dunning_agent.Prelude.{
  String, Option, none, some, List, [], ◌∷◌, Bool, true, false, get_or, if◌then◌else◌,
}
use dunning_agent.Prelude.Text.{Codes, codes, codes_eq, strip, lower}
use dunning_agent.Model.{RecoveryCase}

pub data RootCause : Type 0 where
  customer_funds customer_instrument customer_action bank_decline : RootCause
  transient configuration unknown : RootCause

-- A `dict[str, RootCause]`.
abbrev pub CauseTable : Type 0
CauseTable = List (String × RootCause)

abbrev pub lookup : CauseTable → Codes → Option RootCause
lookup [] key = none
lookup ((k, cause) ∷ table) key =
    let rest = lookup table key in if codes_eq key (codes k) then some cause else rest

unfoldable pub by_source : CauseTable
by_source =
    ("customer", RootCause.customer_action)
    ∷ ("issuer", RootCause.bank_decline)
    ∷ ("bank", RootCause.bank_decline)
    ∷ ("gateway", RootCause.transient)
    ∷ ("internal", RootCause.transient)
    ∷ ("business", RootCause.configuration)
    ∷ []

unfoldable pub by_reason : CauseTable
by_reason =
    ("insufficient_funds", RootCause.customer_funds)
    ∷ ("card_expired", RootCause.customer_instrument)
    ∷ ("expired_card", RootCause.customer_instrument)
    ∷ ("card_blocked", RootCause.customer_instrument)
    ∷ ("invalid_card", RootCause.customer_instrument)
    ∷ ("incorrect_card_details", RootCause.customer_instrument)
    ∷ ("mandate_revoked", RootCause.customer_instrument)
    ∷ ("mandate_cancelled", RootCause.customer_instrument)
    ∷ ("invalid_otp", RootCause.customer_action)
    ∷ ("incorrect_otp", RootCause.customer_action)
    ∷ ("payment_timeout", RootCause.transient)
    ∷ ("gateway_timeout", RootCause.transient)
    ∷ ("server_error", RootCause.transient)
    ∷ ("international_transaction_not_allowed", RootCause.bank_decline)
    ∷ []

-- `cause in NEEDS_A_CONVERSATION`
abbrev pub needs_a_conversation : RootCause → Bool
needs_a_conversation RootCause.customer_instrument = true
needs_a_conversation _ = false

-- `cause in DEFERS_TO_THE_BANK`
abbrev pub defers_to_the_bank : RootCause → Bool
defers_to_the_bank RootCause.transient = true
defers_to_the_bank RootCause.bank_decline = true
defers_to_the_bank _ = false

-- `(field or "").strip().lower()`
unfoldable pub normalise : Option String → Codes
unfolding strip lower
normalise field = lower (strip (codes (get_or field "")))

abbrev pub or_else : Option RootCause → Option RootCause → RootCause
or_else (some cause) _ = cause
or_else none (some cause) = cause
or_else none none = RootCause.unknown

unfoldable pub classify : Option String → Option String → RootCause
classify source reason_code =
    or_else (lookup by_reason (normalise reason_code)) (lookup by_source (normalise source))

unfoldable pub diagnose : RecoveryCase → RootCause
diagnose case = classify case.failure_source case.failure_reason_code
