-- ===== src/Handlers/Failures.antt =====
-- `payment.failed` of app/webhooks/handlers.py: a case is opened, or the failure is recorded on one.
use dunning_agent.Prelude.{
  ◌+◌, String, Bool, true, false, ◌&&◌, ◌||◌, not, Option, none, some, [], ◌∷◌, str_eq, truthy,
  get_or, find?, if◌then◌else◌,
}
use dunning_agent.Model.{ActionType, CaseSource, Settings, Value, RecoveryCase, Customer, minutes}
use dunning_agent.Priority.{checkout_abandoned}
use dunning_agent.World.{PaymentEntity, Db, Env, Exec, pure, gets, utcnow, ◌>>=◌, ◌>>◌, log_action}
use dunning_agent.Store.{holds, upsert_payment, get_open_case_for_invoice, open_recovery_case}
use dunning_agent.Handlers.Events.{
  Event, required, null_or_text, null_or_num, invoice_context, ensure_given_customer,
  ensure_subscription,
}

-- `if value: filters.append(column == value)`
abbrev matches_one : Option String → Option String → Bool
matches_one column none = false
matches_one column (some value) = not (str_eq value "") && holds column value

-- `_match_known_customer`: without a filter, no row matches.
unfoldable pub match_known_customer : PaymentEntity → Db → Option Customer
match_known_customer payment db =
    find? (λ row. matches_one row.phone payment.contact || matches_one row.email payment.email)
      db.customers

module _ (env : Env) (settings : Settings) (event : Event) (payment : PaymentEntity) where
  abbrev pub log_checkout : Option RecoveryCase → Exec (Unit {0})
  log_checkout none = pure tt
  log_checkout (some case) = log_action case.id ActionType.checkout_abandoned (
      ("razorpay_event_id", Value.text event.razorpay_event_id)
      ∷ ("razorpay_order_id", null_or_text payment.order_id)
      ∷ ("amount", null_or_num payment.amount)
      ∷ ("method", null_or_text payment.method)
      ∷ ("error_reason", null_or_text payment.error_reason)
      ∷ ("grace_minutes", Value.num settings.checkout_grace_minutes)
      ∷ [])

  abbrev pub open_checkout_for : Option Customer → Exec (Unit {0})
  open_checkout_for none = pure tt
  open_checkout_for (some customer) = do
    now ← utcnow env
    case ←
        open_recovery_case env payment none (some customer.razorpay_customer_id) CaseSource.checkout
          (some checkout_abandoned) (some (now + minutes settings.checkout_grace_minutes))
    log_checkout case

  -- `_open_checkout_case`
  unfoldable pub open_checkout_case : Exec (Unit {0})
  open_checkout_case = gets (match_known_customer payment) >>= open_checkout_for

  abbrev pub log_opened : Option RecoveryCase → Exec (Unit {0})
  log_opened none = pure tt
  log_opened (some case) = log_action case.id ActionType.case_opened (
      ("razorpay_event_id", Value.text event.razorpay_event_id)
      ∷ ("error_code", null_or_text payment.error_code)
      ∷ ("error_description", null_or_text payment.error_description)
      ∷ ("error_source", null_or_text payment.error_source)
      ∷ ("error_step", null_or_text payment.error_step)
      ∷ ("method", null_or_text payment.method)
      ∷ ("amount", null_or_num payment.amount)
      ∷ [])

  unfoldable pub open_case_for : String → Option String → Exec (Unit {0})
  open_case_for subscription_id customer_id =
      open_recovery_case env payment (some subscription_id) customer_id CaseSource.razorpay none
        none
      >>= log_opened

  abbrev pub log_repeat : RecoveryCase → Bool → Exec (Unit {0})
  log_repeat existing true = pure tt
  log_repeat existing false = log_action existing.id ActionType.repeat_failure (
      ("razorpay_event_id", Value.text event.razorpay_event_id)
      ∷ ("razorpay_payment_id", Value.text payment.id)
      ∷ ("error_reason", null_or_text payment.error_reason)
      ∷ ("error_source", null_or_text payment.error_source)
      ∷ ("error_step", null_or_text payment.error_step)
      ∷ [])

  -- One debt, one case. A replayed attempt is not a repeat.
  unfoldable pub repeat_or_open : String → Option String → Option RecoveryCase → Exec (Unit {0})
  repeat_or_open subscription_id customer_id none = open_case_for subscription_id customer_id
  repeat_or_open subscription_id customer_id (some existing) =
      log_repeat existing (str_eq existing.razorpay_payment_id payment.id)

  abbrev invoice_case : Option String → Db → Option RecoveryCase
  invoice_case invoice_id db =
      if truthy invoice_id then get_open_case_for_invoice (get_or invoice_id "") db else none

  unfoldable pub subscription_failed : String → Option String → Exec (Unit {0})
  subscription_failed subscription_id customer_id = do
    ensure_given_customer env customer_id
    ensure_subscription env subscription_id
    existing ← gets (invoice_case payment.invoice_id)
    repeat_or_open subscription_id customer_id existing

  abbrev pub failed_for : Option String → Option String → Exec (Unit {0})
  failed_for subscription_id customer_id =
      if not (truthy subscription_id)
      then open_checkout_case
      else subscription_failed (get_or subscription_id "") customer_id

  unfoldable pub failed_payment : Exec (Unit {0})
  failed_payment = do
    (subscription_id, customer_id) ← invoice_context env payment.invoice_id
    upsert_payment payment subscription_id customer_id
    failed_for subscription_id customer_id

unfoldable pub handle_payment_failed : Env → Settings → Event → Exec (Unit {0})
handle_payment_failed env settings event =
    required event.payment >>= failed_payment env settings event
