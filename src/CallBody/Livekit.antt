-- ===== src/CallBody/Livekit.antt =====
-- app/voice/agent.py: the context that the LiveKit agent builds from a job's metadata, by itself.
use dunning_agent.Prelude.{Bool, true, false, not, Option, none, some, [], ◌∷◌, ◌==◌, get_or}
use dunning_agent.Prelude.Text.{Codes, codes}
use dunning_agent.Model.{Settings}
use dunning_agent.PaymentLinks.Decimal.{ℤ}
use dunning_agent.Template.{Context}
use dunning_agent.Spoken.{spoken_amount}
use dunning_agent.Remedies.{suggested_route}
use dunning_agent.Flow.{language_hint, halt_note}
use dunning_agent.CallBody.{
  Field, null, flag, num, text, Body, get, shown, shown_or, given_or, to_int, paise_of,
}

-- SAMPLE_CONTEXT
abbrev sample_context : Body
sample_context =
    ("customer_name", text (codes "Asha"))
    ∷ ("amount_spoken", text (codes "499 रुपये"))
    ∷ ("failure_reason", text (codes "your card had insufficient funds"))
    ∷ ("preferred_language", text (codes "hi"))
    ∷ []

-- `if not metadata: metadata = SAMPLE_CONTEXT`
abbrev metadata_or_sample : Body → Body
metadata_or_sample [] = sample_context
metadata_or_sample (entry ∷ metadata) = entry ∷ metadata

-- `bool(value)`
abbrev truth : Field → Bool
truth null = false
truth (flag b) = b
truth (num n) = not (n == 0)
truth (text []) = false
truth (text (c ∷ s)) = true

-- A language that is no text is in none of the tables, so it is taken as none.
abbrev language_of : Option Field → Option Codes
language_of (some (text s)) = some s
language_of _ = none

abbrev halted_of : Option Field → Option Bool
halted_of none = none
halted_of (some value) = some (truth value)

-- `spoken_amount(int(...), language)`; `none` is the exception of `int`.
abbrev spoken_from : Option ℤ → Option Codes → Option Codes
spoken_from none language = none
spoken_from (some amount) language = some (spoken_amount (paise_of amount) (get_or language []))

-- The amount in the metadata, if it is true of it, or else the one that is spoken from the paise.
abbrev spoken_in : Bool → Field → Option Codes → Option Codes
spoken_in true value other = some (shown value)
spoken_in false value other = other

abbrev amount_of : Option Field → Option Codes → Option Codes
amount_of none other = other
amount_of (some value) other = spoken_in (truth value) value other

abbrev with_amount : Settings → Body → Option Codes → Option Context
with_amount settings metadata none = none
with_amount settings metadata (some amount) = some (
    (codes "company_name", shown_or (get "company_name" metadata) (codes settings.company_name))
    ∷ (codes "customer_name", shown_or (get "customer_name" metadata) (codes "there"))
    ∷ (codes "amount_spoken", amount)
    ∷ (
      codes "failure_reason",
      shown_or (get "failure_reason" metadata) (codes "the bank declined it"),
    )
    ∷ (
      codes "language_hint",
      codes (language_hint (language_of (get "preferred_language" metadata))),
    )
    ∷ (codes "halt_note", codes (halt_note (halted_of (get "subscription_halted" metadata))))
    ∷ (
      codes "suggested_route",
      given_or (get "suggested_route" metadata) (codes (suggested_route none false)),
    )
    ∷ [])

abbrev context_of : Settings → Body → Option Context
context_of settings metadata = with_amount settings metadata (
    amount_of (get "amount_spoken" metadata) (
      spoken_from (to_int (get "amount_paise" metadata))
        (language_of (get "preferred_language" metadata))))

-- The `call_context` of `dunning_session`; `none` is the exception of an amount that is no number.
unfoldable pub livekit_context : Settings → Body → Option Context
livekit_context settings metadata = context_of settings (metadata_or_sample metadata)
