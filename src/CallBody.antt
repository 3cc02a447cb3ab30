-- ===== src/CallBody.antt =====
-- What the agent is told about a call: app/voice/call_body.py, the parameters of app/voice/telephony.py,
-- and the context that app/voice/pipecat_agent.py builds from what arrives.
pub mod Transport
pub mod Livekit
pub mod Carriers
use dunning_agent.Prelude.{
  ℕ, String, Bool, true, false, ◌||◌, not, Option, none, some, List, [], ◌∷◌, ◌==◌, str_eq, is_some,
  get_or, truthy, if◌then◌else◌,
}
use dunning_agent.Prelude.Text.{Codes, codes, codes_eq, strip, lower}
use dunning_agent.Model.{Settings, Customer, RecoveryCase}
use dunning_agent.World.{Db, get_case}
use dunning_agent.PaymentLinks.Decimal.{ℤ, pos, negsuc, to_decimal, parse_int}
use dunning_agent.Template.{Context}
use dunning_agent.Spoken.{spoken_amount}
use dunning_agent.Remedies.{spoken_reason, suggested_route}
use dunning_agent.Flow.{language_hint, halt_note}
use dunning_agent.Calls.{customer_of}

-- A value of the body.
pub data Field : Type 0 where
  null : Field
  flag : Bool → Field
  num : ℕ → Field
  text : Codes → Field

abbrev pub Body : Type 0
Body = List (String × Field)

abbrev optional : Option String → Field
optional none = null
optional (some s) = text (codes s)

-- `customer.name or "there"`
abbrev name_of : Option String → Field
name_of name = if truthy name then optional name else text (codes "there")

-- `call_body`
unfoldable pub call_body : RecoveryCase → Customer → String → Body
call_body case customer company_name =
    let language = codes customer.preferred_language in
    let halted = is_some case.halted_at in
    ("recovery_case_id", num case.id)
    ∷ ("phone", optional customer.phone)
    ∷ ("customer_name", name_of customer.name)
    ∷ ("preferred_language", text language)
    ∷ ("company_name", text (codes company_name))
    ∷ ("amount_spoken", text (spoken_amount case.original_amount language))
    ∷ ("amount_paise", num case.original_amount)
    ∷ ("failure_reason", text (codes (spoken_reason case.failure_reason language)))
    ∷ ("subscription_halted", flag halted)
    ∷ ("suggested_route", text (codes (suggested_route case.failure_reason halted)))
    ∷ []

abbrev body_for : Settings → RecoveryCase → Option Customer → Option Body
body_for settings case none = none
body_for settings case (some customer) = some (call_body case customer settings.company_name)

abbrev body_of : Settings → Db → Option RecoveryCase → Option Body
body_of settings db none = none
body_of settings db (some case) = body_for settings case (customer_of case db)

-- `load_call_body`; `up` is that the database answers.
unfoldable pub load_call_body : Settings → Bool → ℕ → Db → Option Body
load_call_body settings up recovery_case_id db =
    if up then body_of settings db (get_case recovery_case_id db) else none

abbrev with_parameter : String → Field → Body → Body
with_parameter key null rest = rest
with_parameter key (flag false) rest = rest
with_parameter key (flag true) rest = (key, text (codes "1")) ∷ rest
with_parameter key (num n) rest = (key, text (to_decimal n)) ∷ rest
with_parameter key (text s) rest = (key, text s) ∷ rest

-- `stream_parameters`
unfoldable pub stream_parameters : Body → Body
stream_parameters [] = []
stream_parameters ((key, value) ∷ body) = with_parameter key value (stream_parameters body)

-- `body.get(key)`
unfoldable pub get : String → Body → Option Field
get key [] = none
get key ((k, value) ∷ body) = let rest = get key body in if str_eq k key then some value else rest

-- `str(value)`
abbrev shown : Field → Codes
shown null = codes "None"
shown (flag true) = codes "True"
shown (flag false) = codes "False"
shown (num n) = to_decimal n
shown (text s) = s

abbrev shown_or : Option Field → Codes → Codes
shown_or none default = default
shown_or (some value) default = shown value

-- `body.get(key) or default`, as a text
abbrev given_or : Option Field → Codes → Codes
given_or none default = default
given_or (some null) default = default
given_or (some (flag false)) default = default
given_or (some (flag true)) default = codes "True"
given_or (some (num n)) default = if n == 0 then default else to_decimal n
given_or (some (text [])) default = default
given_or (some (text (c ∷ s))) default = c ∷ s

abbrev denials : Codes → Bool
denials word =
    codes_eq word (codes "0") || (codes_eq word (codes "false") || codes_eq word (codes "no"))

abbrev is_denied : Codes → Bool
is_denied [] = true
is_denied (c ∷ word) = denials (c ∷ word)

-- `_truthy`
unfoldable pub is_truthy : Option Field → Bool
is_truthy none = false
is_truthy (some null) = false
is_truthy (some (flag b)) = b
is_truthy (some (num n)) = not (n == 0)
is_truthy (some (text s)) = not (is_denied (lower (strip s)))

-- `int(body.get(key, 0))`; `none` is the exception.
abbrev to_int : Option Field → Option ℤ
to_int none = some (pos 0)
to_int (some null) = none
to_int (some (flag b)) = some (pos (if b then 1 else 0))
to_int (some (num n)) = some (pos n)
to_int (some (text s)) = parse_int s

-- `_case_id`
unfoldable pub case_id : Option Field → Option ℤ
case_id none = none
case_id (some null) = none
case_id (some (text [])) = none
case_id (some (text (c ∷ s))) = parse_int (c ∷ s)
case_id (some (flag b)) = some (pos (if b then 1 else 0))
case_id (some (num n)) = some (pos n)

-- The context of a call: what the templates are filled with, and the entries that they do not name.
pub record CallContext : Type 0 where
  pub values : Context
  pub language : Codes
  pub amount_paise : ℤ
  pub recovery_case_id : Option ℤ
  pub phone : Option Codes

-- `max(paise, 0)`
abbrev paise_of : ℤ → ℕ
paise_of (pos n) = n
paise_of (negsuc n) = 0

-- `call_context`, with the spoken amount that wins over its own.
unfoldable pub call_context :
    Codes → ℤ → Codes → Codes → Codes → Bool → Codes → Option Field → Context
call_context customer_name amount_paise failure_reason language company subscription_halted route
      amount_spoken =
    (codes "company_name", company)
    ∷ (codes "customer_name", customer_name)
    ∷ (
      codes "amount_spoken",
      given_or amount_spoken (spoken_amount (paise_of amount_paise) language),
    )
    ∷ (codes "failure_reason", failure_reason)
    ∷ (codes "language_hint", codes (language_hint (some language)))
    ∷ (codes "halt_note", codes (halt_note (some subscription_halted)))
    ∷ (codes "suggested_route", route)
    ∷ []

abbrev phone_of : Option Field → Option Codes
phone_of none = none
phone_of (some null) = none
phone_of (some (flag b)) = some (shown (flag b))
phone_of (some (num n)) = some (to_decimal n)
phone_of (some (text s)) = some s

abbrev context_with : Settings → Body → Codes → Option ℤ → Option CallContext
context_with settings body language none = none
context_with settings body language (some amount) = some (record {
  values =
      call_context (shown_or (get "customer_name" body) (codes "there")) amount
        (given_or (get "failure_reason" body) (codes (spoken_reason none language))) language
        (shown_or (get "company_name" body) (codes settings.company_name))
        (is_truthy (get "subscription_halted" body))
        (shown_or (get "suggested_route" body) (codes "None")) (get "amount_spoken" body);
  language = language;
  amount_paise = amount;
  recovery_case_id = case_id (get "recovery_case_id" body);
  phone = phone_of (get "phone" body);
})

-- `context_from_body`; `none` is the exception of an amount that is no number.
unfoldable pub context_from_body : Settings → Body → Option CallContext
context_from_body settings body =
    context_with settings body (given_or (get "preferred_language" body) (codes "hi"))
      (to_int (get "amount_paise" body))
