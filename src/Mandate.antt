-- ===== src/Mandate.antt =====
-- app/mandate.py: charging a mandate that the customer has authorised, and sending the link that
-- authorises it again.
pub mod Tokens
use Prim.Native.String.{◌++◌ as text_append}
use dunning_agent.Prelude.{
  ℕ, String, Bool, true, false, ◌&&◌, ◌||◌, not, Option, none, some, List, [], ◌∷◌, filter, leb,
  ltb, truthy, get_or, str_eq, is_some, if◌then◌else◌,
}
use dunning_agent.Model.{Settings, Customer, RecoveryCase, Value, Metadata, ActionType}
use dunning_agent.World.{
  Token, SubscriptionEntity, OrderPayload, ChargePayload, Request, Env, Exec, pure, ask, ◌>>=◌,
  ◌>>◌, log_action,
}
use dunning_agent.PaymentLinks.{reference_id_for}
use dunning_agent.PaymentLinks.Decimal.{to_decimal}

-- `value is not None and test(value)`
abbrev pub exists : {A : Type 0} → Option A → (A → Bool) → Bool
exists none test = false
exists (some a) test = test a

-- The tests of the loop of `usable_token`: what passes them all becomes a candidate.
unfoldable pub is_candidate : ℕ → ℕ → Token → Bool
is_candidate amount now_epoch token =
    if not token.recurring
    then false
    else if exists token.status (λ status. not (str_eq status "confirmed"))
    then false
    else if exists token.expired_at (λ expires. leb expires now_epoch)
    then false
    else if exists token.max_amount (λ ceiling. ltb ceiling amount)
    then false
    else true

-- The later used of two, the first where they are equal.
unfoldable pub later_used : Token → Token → Token
later_used best t = if ltb (get_or best.used_at 0) (get_or t.used_at 0) then t else best

-- `max(candidates, key=...)`: the first of those with the largest key.
unfoldable pub most_recent : Token → List Token → Token
most_recent best [] = best
most_recent best (t ∷ tokens) = most_recent (later_used best t) tokens

abbrev pub first_of_candidates : List Token → Option Token
first_of_candidates [] = none
first_of_candidates (t ∷ tokens) = some (most_recent t tokens)

unfoldable pub usable_token : List Token → ℕ → ℕ → Option Token
usable_token tokens amount now_epoch =
    first_of_candidates (filter (is_candidate amount now_epoch) tokens)

abbrev mandate_text : String
mandate_text = ": aapka auto-pay mandate dobara set karne ke liye is link par jaayein - "

-- `_log_failure`
unfoldable pub log_failure : RecoveryCase → String → Exec (Unit {0})
log_failure case reason =
    log_action case.id ActionType.mandate_retried
      (("charged", Value.bool false) ∷ ("reason", Value.text reason) ∷ [])

abbrev optional_text : Option String → Value
optional_text none = Value.null
optional_text (some s) = Value.text s

order_payload : Settings → RecoveryCase → OrderPayload
order_payload settings case = record {
  amount = case.original_amount;
  currency = case.currency;
  receipt = reference_id_for settings case;
  recovery_case_id = to_decimal case.id;
}

charge_payload : Settings → RecoveryCase → Customer → Token → String → ChargePayload
charge_payload settings case customer token order_id = record {
  email = customer.email;
  contact = customer.phone;
  amount = case.original_amount;
  currency = case.currency;
  order_id = order_id;
  customer_id = customer.razorpay_customer_id;
  token = token.id;
  company_name = settings.company_name;
  recovery_case_id = to_decimal case.id;
}

-- The charge itself, once there is a token for it.
unfoldable pub charge_token : Env → Settings → RecoveryCase → Customer → Token → Exec Bool
unfolding order_payload charge_payload
charge_token env settings case customer token =
    let order = order_payload settings case in
    do
      order_id ← ask (Request.create_order order) (env.on_create_order order)
      let charge = charge_payload settings case customer token order_id
      payment_id ←
          ask (Request.create_recurring_payment charge) (env.on_create_recurring_payment charge)
      log_action case.id ActionType.mandate_retried (
          ("razorpay_payment_id", optional_text payment_id)
          ∷ ("razorpay_order_id", Value.text order_id)
          ∷ ("token_id", Value.text token.id)
          ∷ ("amount", Value.num case.original_amount)
          ∷ [])
      pure true

abbrev refused : RecoveryCase → String → Exec Bool
refused case reason = log_failure case reason >> pure false

-- The branches on the token that was found.
unfoldable pub charge_found : Env → Settings → RecoveryCase → Customer → Option Token → Exec Bool
charge_found env settings case customer none = refused case "no chargeable mandate on file"
charge_found env settings case customer (some token) = charge_token env settings case customer token

unfoldable pub charge_mandate : Env → Settings → RecoveryCase → Customer → ℕ → Exec Bool
charge_mandate env settings case customer now_epoch =
    let reachable = truthy customer.phone && not customer.phone_is_wrong in
    if not (truthy (some customer.razorpay_customer_id) && (truthy customer.email && reachable))
    then refused case "missing customer details for a recurring charge"
    else do
      tokens ←
          ask (Request.fetch_customer_tokens customer.razorpay_customer_id)
            (env.on_fetch_customer_tokens customer.razorpay_customer_id)
      charge_found env settings case customer (usable_token tokens case.original_amount now_epoch)

abbrev unsent : RecoveryCase → String → Exec (Option String)
unsent case reason = log_failure case reason >> pure none

-- What the sender's answer leads to.
unfoldable pub after_text :
    RecoveryCase → String → String → Option String → Option String → Exec (Option String)
after_text case subscription_id url status none = unsent case "could not send the mandate link"
after_text case subscription_id url status (some message) =
    log_action case.id ActionType.mandate_link_sent (
      ("short_url", Value.text url)
      ∷ ("razorpay_subscription_id", Value.text subscription_id)
      ∷ ("subscription_status", optional_text status)
      ∷ ("message_sid", Value.text message)
      ∷ [])
    >> pure (some url)

-- The text message with the link, from the branch of `send_mandate_link` that has one.
unfoldable pub text_link :
    Env → Settings → RecoveryCase → String → String → String → Option String → Exec (Option String)
text_link env settings case subscription_id phone url status =
    let body = text_append settings.company_name (text_append mandate_text url) in
    do
      sid ← ask (Request.send_sms phone body) (env.on_send_sms phone body)
      after_text case subscription_id url status sid

abbrev text_present : Option String → String
text_present o = get_or o ""

unfoldable pub send_mandate_link : Env → Settings → RecoveryCase → Customer → Exec (Option String)
send_mandate_link env settings case customer =
    let subscription_id = text_present case.razorpay_subscription_id in
    let phone = text_present customer.phone in
    if not (truthy case.razorpay_subscription_id)
    then unsent case "no subscription to re-authorise"
    else if not (truthy customer.phone) || customer.phone_is_wrong
    then unsent case "no usable number to send a mandate link to"
    else do
      subscription ←
          ask (Request.fetch_subscription subscription_id)
            (env.on_fetch_subscription subscription_id)
      let url = text_present subscription.short_url
      if not (truthy subscription.short_url)
          then unsent case "subscription carries no authorisation link"
          else text_link env settings case subscription_id phone url subscription.status
