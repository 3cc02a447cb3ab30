-- ===== src/Handlers/Events.antt =====
-- The events of app/webhooks/handlers.py, the helpers of its handlers, and the handlers that only
-- record. A handler gets the environment for the client.
use dunning_agent.Prelude.{
  ℕ, String, Bool, true, false, not, Option, none, some, [], ◌∷◌, str_eq, truthy, get_or, any,
  if◌then◌else◌,
}
use dunning_agent.Prelude.Text.{codes}
use dunning_agent.Model.{ActionType, Value, Metadata, Time, RecoveryCase}
use dunning_agent.World.{
  PaymentEntity, SubscriptionEntity, LinkEntity, Request, Db, Env, key_error, Exec, pure, raise,
  gets, ask, utcnow, for_each, ◌>>=◌, ◌>>◌, log_action, save_case, get_case,
}
use dunning_agent.PaymentLinks.Decimal.{ℤ, pos, negsuc, parse_int}
use dunning_agent.Store.{
  upsert_customer, upsert_subscription, upsert_payment, get_open_cases_for_subscription,
  mark_recovered,
}

-- `event["payload"]`, and the event's identifier that app/webhooks/processor.py adds.
pub record Event : Type 0 where
  pub razorpay_event_id : String
  pub payment : Option PaymentEntity
  pub subscription : Option SubscriptionEntity
  pub order_id : Option String
  pub payment_link : Option LinkEntity

-- `d[key]`
abbrev pub required : {A : Type 0} → Option A → Exec A
required none = raise key_error
required (some a) = pure a

abbrev pub null_or_text : Option String → Value
null_or_text none = Value.null
null_or_text (some s) = Value.text s

abbrev pub null_or_num : Option ℕ → Value
null_or_num none = Value.null
null_or_num (some n) = Value.num n

-- `notes.get(key)`
unfoldable pub lookup : String → Metadata → Option Value
lookup key [] = none
lookup key ((k, v) ∷ rest) = let found = lookup key rest in if str_eq k key then some v else found

-- JSON's null is Python's None.
abbrev unless_null : Option Value → Option Value
unless_null none = none
unless_null (some Value.null) = none
unless_null (some v) = some v

unfoldable pub note : Option Metadata → String → Option Value
note none key = none
note (some notes) key = unless_null (lookup key notes)

-- `int(value)`; `none` is the TypeError or the ValueError.
unfoldable pub to_int : Value → Option ℤ
to_int (Value.num n) = some (pos n)
to_int (Value.bool true) = some (pos 1)
to_int (Value.bool false) = some (pos 0)
to_int (Value.text s) = parse_int (codes s)
to_int (Value.chars s) = parse_int s
to_int _ = none

abbrev case_at : Option ℤ → Db → Option RecoveryCase
case_at none db = none
case_at (some (pos id)) db = get_case id db
case_at (some (negsuc n)) db = none

abbrev pub int_of : Option Value → Option ℤ
int_of none = none
int_of (some v) = to_int v

-- `_get_case_by_id`
unfoldable pub get_case_by_id : Option ℤ → Exec (Option RecoveryCase)
get_case_by_id case_id = gets (case_at case_id)

unfoldable pub resolve_invoice_context : Env → String → Exec (Option String × Option String)
resolve_invoice_context env invoice_id = do
  invoice ← ask (Request.fetch_invoice invoice_id) (env.on_fetch_invoice invoice_id)
  pure (invoice.subscription_id, invoice.customer_id)

-- `if invoice_id: ...`
unfoldable pub invoice_context : Env → Option String → Exec (Option String × Option String)
invoice_context env invoice_id =
    if truthy invoice_id
    then resolve_invoice_context env (get_or invoice_id "")
    else pure (none, none)

abbrev pub fetch_if : Bool → Exec (Unit {0}) → Exec (Unit {0})
fetch_if true m = m
fetch_if false m = pure tt

unfoldable pub fetch_customer : Env → String → Exec (Unit {0})
fetch_customer env customer_id =
    ask (Request.fetch_customer customer_id) (env.on_fetch_customer customer_id) >>= upsert_customer

unfoldable pub ensure_customer : Env → String → Exec (Unit {0})
ensure_customer env customer_id = do
  known ← gets (λ db. any (λ row. str_eq row.razorpay_customer_id customer_id) db.customers)
  fetch_if (not known) (fetch_customer env customer_id)

unfoldable pub fetch_subscription : Env → String → Exec (Unit {0})
fetch_subscription env subscription_id =
    ask (Request.fetch_subscription subscription_id) (env.on_fetch_subscription subscription_id)
    >>= upsert_subscription

unfoldable pub ensure_subscription : Env → String → Exec (Unit {0})
ensure_subscription env subscription_id = do
  known ←
      gets (λ db. any (λ row. str_eq row.razorpay_subscription_id subscription_id) db.subscriptions)
  fetch_if (not known) (fetch_subscription env subscription_id)

-- `_ensure_customer` where there is one.
unfoldable pub ensure_given_customer : Env → Option String → Exec (Unit {0})
ensure_given_customer env customer_id =
    fetch_if (truthy customer_id) (ensure_customer env (get_or customer_id ""))

abbrev pub log_recovery : RecoveryCase → PaymentEntity → Event → Bool → Exec (Unit {0})
log_recovery case payment event false = pure tt
log_recovery case payment event true = log_action case.id ActionType.payment_captured (
    ("razorpay_event_id", Value.text event.razorpay_event_id)
    ∷ ("razorpay_payment_id", Value.text payment.id)
    ∷ ("amount", null_or_num payment.amount)
    ∷ ("method", null_or_text payment.method)
    ∷ [])

-- `_record_recovery`
unfoldable pub record_recovery : Env → RecoveryCase → PaymentEntity → Event → Exec (Unit {0})
record_recovery env case payment event =
    mark_recovered env case payment.id (get_or payment.amount 0) >>= log_recovery case payment event

unfoldable pub close_cases_for_subscription : Env → String → PaymentEntity → Event → Exec (Unit {0})
close_cases_for_subscription env subscription_id payment event = do
  cases ← gets (get_open_cases_for_subscription subscription_id)
  for_each cases (λ case. record_recovery env case payment event)

abbrev log_pending : Event → SubscriptionEntity → RecoveryCase → Exec (Unit {0})
log_pending event subscription case = log_action case.id ActionType.subscription_pending (
    ("razorpay_event_id", Value.text event.razorpay_event_id)
    ∷ ("auth_attempts", null_or_num subscription.auth_attempts)
    ∷ ("status", null_or_text subscription.status)
    ∷ [])

unfoldable pub handle_subscription_pending : Env → Event → Exec (Unit {0})
handle_subscription_pending env event = do
  subscription ← required event.subscription
  upsert_subscription subscription
  cases ← gets (get_open_cases_for_subscription subscription.id)
  for_each cases (log_pending event subscription)

abbrev halt : Time → RecoveryCase → RecoveryCase
halt now case = record case { halted_at = some now }

abbrev log_halt : Env → Event → SubscriptionEntity → RecoveryCase → Exec (Unit {0})
log_halt env event subscription case = do
  now ← utcnow env
  save_case (halt now case)
  log_action case.id ActionType.subscription_halted (
      ("razorpay_event_id", Value.text event.razorpay_event_id)
      ∷ ("auth_attempts", null_or_num subscription.auth_attempts)
      ∷ [])

unfoldable pub handle_subscription_halted : Env → Event → Exec (Unit {0})
handle_subscription_halted env event = do
  subscription ← required event.subscription
  upsert_subscription subscription
  cases ← gets (get_open_cases_for_subscription subscription.id)
  for_each cases (log_halt env event subscription)

-- Recorded, and nothing else: a zero-amount registration is only logged in another way.
unfoldable pub handle_payment_authorized : Env → Event → Exec (Unit {0})
handle_payment_authorized env event = do
  payment ← required event.payment
  upsert_payment payment none none

unfoldable pub handle_subscription_authenticated : Env → Event → Exec (Unit {0})
handle_subscription_authenticated env event = do
  subscription ← required event.subscription
  upsert_subscription subscription
  ensure_given_customer env subscription.customer_id
