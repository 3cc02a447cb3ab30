-- ===== src/Handlers/Frames.antt =====
-- What the handlers of app/webhooks/handlers.py do to the tables: they use six writes, so a relation
-- that these keep is kept by every handler.
use dunning_agent.Prelude.{ℕ, String, Bool, true, false, not, Option, none, some, truthy, get_or}
use dunning_agent.Model.{Settings, ActionType, Metadata, RecoveryCase, Customer, CaseSource, Value}
use dunning_agent.World.{
  Db, Env, Exec, PaymentEntity, SubscriptionEntity, CustomerEntity, modify, log_action, save_case,
}
use dunning_agent.World.Steps.{IsFrame, Steps, step_rules, Steps-if}
use dunning_agent.Store.{
  upsert_customer, upsert_subscription, upsert_payment, insert_case, open_recovery_case,
  mark_recovered, recover_unless,
}
use dunning_agent.Handlers.{
  Event, EventName, required, invoice_context, resolve_invoice_context, fetch_if, fetch_customer,
  ensure_customer, fetch_subscription, ensure_subscription, ensure_given_customer, log_recovery,
  record_recovery, get_case_by_id, close_cases_for_subscription, handle_subscription_pending,
  handle_subscription_halted, handle_payment_authorized, handle_subscription_authenticated,
  log_checkout, open_checkout_for, open_checkout_case, log_opened, open_case_for, log_repeat,
  repeat_or_open, subscription_failed, failed_for, failed_payment, handle_payment_failed,
  handle_order_paid, handle_subscription_charged, recover_found, attribute, capture,
  handle_payment_captured, handle_payment_link_paid, handler_for,
}

-- The writes of the handlers keep the relation.
pub record Keeps (R : Db → Db → Type 0) : Type 0 where
  pub frame : IsFrame R
  pub logs :
      (id : ℕ) (type : ActionType) (metadata : Metadata) → Steps R (log_action id type metadata)
  pub saves : (case : RecoveryCase) → Steps R (save_case case)
  pub inserts : (case : RecoveryCase) → Steps R (modify (insert_case case))
  pub customers : (entity : CustomerEntity) → Steps R (upsert_customer entity)
  pub subscriptions : (entity : SubscriptionEntity) → Steps R (upsert_subscription entity)
  pub payments :
      (entity : PaymentEntity) (subscription_id customer_id : Option String)
      → Steps R (upsert_payment entity subscription_id customer_id)

module _ {R : Db → Db → Type 0} (keeps : Keeps R) where
  open keeps use {frame, logs, saves, inserts, customers, subscriptions, payments}

  required-Steps : {A : Type 0} (o : Option A) → Steps R (required o)
  required-Steps none = search (step_rules, frame)
  required-Steps (some a) = search (step_rules, frame)

  invoice_context-Steps : (env : Env) (id : Option String) → Steps R (invoice_context env id)
  unfolding invoice_context resolve_invoice_context
  invoice_context-Steps env id = search (step_rules, frame) depth 8

  fetch_if-Steps : (b : Bool) (m : Exec (Unit {0})) → Steps R m → Steps R (fetch_if b m)
  fetch_if-Steps true m h = h
  fetch_if-Steps false m h = search (step_rules, frame)

  ensure_customer-Steps : (env : Env) (id : String) → Steps R (ensure_customer env id)
  unfolding ensure_customer fetch_customer
  ensure_customer-Steps env id = search (step_rules, frame, customers, fetch_if-Steps) depth 8

  ensure_subscription-Steps : (env : Env) (id : String) → Steps R (ensure_subscription env id)
  unfolding ensure_subscription fetch_subscription
  ensure_subscription-Steps env id =
      search (step_rules, frame, subscriptions, fetch_if-Steps) depth 8

  ensure_given_customer-Steps :
      (env : Env) (id : Option String) → Steps R (ensure_given_customer env id)
  unfolding ensure_given_customer
  ensure_given_customer-Steps env id =
      fetch_if-Steps (truthy id) (ensure_customer env (get_or id ""))
        (ensure_customer-Steps env (get_or id ""))

  mark_recovered-Steps :
      (env : Env) (case : RecoveryCase) (id : String) (amount : ℕ) (b : Bool)
      → Steps R (recover_unless env case id amount b)
  mark_recovered-Steps env case id amount true = search (step_rules, frame)
  mark_recovered-Steps env case id amount false = search (step_rules, frame, saves) depth 8

  log_recovery-Steps :
      (case : RecoveryCase) (payment : PaymentEntity) (event : Event) (b : Bool)
      → Steps R (log_recovery case payment event b)
  log_recovery-Steps case payment event true = search (logs)
  log_recovery-Steps case payment event false = search (step_rules, frame)

  record_recovery-Steps :
      (env : Env) (case : RecoveryCase) (payment : PaymentEntity) (event : Event)
      → Steps R (record_recovery env case payment event)
  unfolding record_recovery mark_recovered
  record_recovery-Steps env case payment event =
      search (step_rules, frame, mark_recovered-Steps, log_recovery-Steps) depth 8

  close_cases-Steps :
      (env : Env) (id : String) (payment : PaymentEntity) (event : Event)
      → Steps R (close_cases_for_subscription env id payment event)
  unfolding close_cases_for_subscription
  close_cases-Steps env id payment event = search (step_rules, frame, record_recovery-Steps) depth 8

  pending-Steps : (env : Env) (event : Event) → Steps R (handle_subscription_pending env event)
  unfolding handle_subscription_pending
  pending-Steps env event = search (step_rules, frame, required-Steps, subscriptions, logs) depth 8

  halted-Steps : (env : Env) (event : Event) → Steps R (handle_subscription_halted env event)
  unfolding handle_subscription_halted
  halted-Steps env event =
      search (step_rules, frame, required-Steps, subscriptions, logs, saves) depth 12

  authorized-Steps : (env : Env) (event : Event) → Steps R (handle_payment_authorized env event)
  unfolding handle_payment_authorized
  authorized-Steps env event = search (step_rules, frame, required-Steps, payments) depth 8

  authenticated-Steps :
      (env : Env) (event : Event) → Steps R (handle_subscription_authenticated env event)
  unfolding handle_subscription_authenticated
  authenticated-Steps env event =
      search (step_rules, frame, required-Steps, subscriptions, ensure_given_customer-Steps) depth 8

  open_case-Steps :
      (env : Env) (payment : PaymentEntity) (subscription customer : Option String)
      (source : CaseSource) (tier next : Option ℕ)
      → Steps R (open_recovery_case env payment subscription customer source tier next)
  unfolding open_recovery_case
  open_case-Steps env payment subscription customer source tier next =
      search (step_rules, frame, inserts) depth 12

  module _ (env : Env) (settings : Settings) (event : Event) (payment : PaymentEntity) where
    log_checkout-Steps :
        (o : Option RecoveryCase) → Steps R (log_checkout env settings event payment o)
    log_checkout-Steps none = search (step_rules, frame)
    log_checkout-Steps (some case) = search (logs)

    open_checkout_for-Steps :
        (o : Option Customer) → Steps R (open_checkout_for env settings event payment o)
    open_checkout_for-Steps none = search (step_rules, frame)
    open_checkout_for-Steps (some customer) =
        search (step_rules, frame, open_case-Steps, log_checkout-Steps) depth 8

    open_checkout_case-Steps : Steps R (open_checkout_case env settings event payment)
    unfolding open_checkout_case
    open_checkout_case-Steps = search (step_rules, frame, open_checkout_for-Steps) depth 8

    log_opened-Steps : (o : Option RecoveryCase) → Steps R (log_opened env settings event payment o)
    log_opened-Steps none = search (step_rules, frame)
    log_opened-Steps (some case) = search (logs)

    open_case_for-Steps :
        (id : String) (customer : Option String)
        → Steps R (open_case_for env settings event payment id customer)
    unfolding open_case_for
    open_case_for-Steps id customer =
        search (step_rules, frame, open_case-Steps, log_opened-Steps) depth 8

    log_repeat-Steps :
        (case : RecoveryCase) (b : Bool) → Steps R (log_repeat env settings event payment case b)
    log_repeat-Steps case true = search (step_rules, frame)
    log_repeat-Steps case false = search (logs)

    repeat_or_open-Steps :
        (id : String) (customer : Option String) (o : Option RecoveryCase)
        → Steps R (repeat_or_open env settings event payment id customer o)
    unfolding repeat_or_open
    repeat_or_open-Steps id customer none = open_case_for-Steps id customer
    repeat_or_open-Steps id customer (some case) = search (log_repeat-Steps)

    subscription_failed-Steps :
        (id : String) (customer : Option String)
        → Steps R (subscription_failed env settings event payment id customer)
    unfolding subscription_failed
    subscription_failed-Steps id customer =
        search
          (
            step_rules, frame, ensure_given_customer-Steps, ensure_subscription-Steps,
            repeat_or_open-Steps,
          )
          depth 8

    failed_for-Steps :
        (id customer : Option String) → Steps R (failed_for env settings event payment id customer)
    failed_for-Steps id customer =
        Steps-if (not (truthy id)) (open_checkout_case env settings event payment)
          (subscription_failed env settings event payment (get_or id "") customer)
          open_checkout_case-Steps (subscription_failed-Steps (get_or id "") customer)

    failed_payment-Steps : Steps R (failed_payment env settings event payment)
    unfolding failed_payment
    failed_payment-Steps =
        search (step_rules, frame, invoice_context-Steps, payments, failed_for-Steps) depth 8

  failed-Steps :
      (env : Env) (settings : Settings) (event : Event)
      → Steps R (handle_payment_failed env settings event)
  unfolding handle_payment_failed
  failed-Steps env settings event =
      search (step_rules, frame, required-Steps, failed_payment-Steps) depth 8

  order_paid-Steps : (env : Env) (event : Event) → Steps R (handle_order_paid env event)
  unfolding handle_order_paid
  order_paid-Steps env event =
      search (step_rules, frame, required-Steps, payments, record_recovery-Steps) depth 12

  charged-Steps : (env : Env) (event : Event) → Steps R (handle_subscription_charged env event)
  unfolding handle_subscription_charged
  charged-Steps env event =
      search (step_rules, frame, required-Steps, payments, subscriptions, close_cases-Steps) depth
        12

  recover_found-Steps :
      (env : Env) (event : Event) (payment : PaymentEntity) (o : Option RecoveryCase)
      → Steps R (recover_found env event payment o)
  recover_found-Steps env event payment none = search (step_rules, frame)
  recover_found-Steps env event payment (some case) = record_recovery-Steps env case payment event

  attribute-Steps :
      (env : Env) (event : Event) (payment : PaymentEntity) (subscription : Option String)
      (o : Option Value)
      → Steps R (attribute env event payment subscription o)
  unfolding attribute get_case_by_id
  attribute-Steps env event payment subscription (some v) =
      search (step_rules, frame, recover_found-Steps) depth 8
  attribute-Steps env event payment subscription none =
      search (step_rules, frame, close_cases-Steps) depth 8

  captured-Steps : (env : Env) (event : Event) → Steps R (handle_payment_captured env event)
  unfolding handle_payment_captured capture
  captured-Steps env event =
      search (step_rules, frame, required-Steps, invoice_context-Steps, payments, attribute-Steps)
        depth 12

  link_paid-Steps : (env : Env) (event : Event) → Steps R (handle_payment_link_paid env event)
  unfolding handle_payment_link_paid get_case_by_id
  link_paid-Steps env event =
      search (step_rules, frame, required-Steps, payments, recover_found-Steps) depth 12

  -- Whatever handles the event; a name without a handler is nothing to show.
  abbrev pub Handled : Event → Option (Event → Exec (Unit {0})) → Type 0
  Handled event none = Unit
  Handled event (some handler) = Steps R (handler event)

  pub handler_for-Steps :
      (env : Env) (settings : Settings) (name : EventName) (event : Event)
      → Handled event (handler_for env settings name)
  unfolding handler_for
  handler_for-Steps env settings EventName.payment_failed event = failed-Steps env settings event
  handler_for-Steps env settings EventName.payment_authorized event = authorized-Steps env event
  handler_for-Steps env settings EventName.payment_captured event = captured-Steps env event
  handler_for-Steps env settings EventName.subscription_authenticated event =
      authenticated-Steps env event
  handler_for-Steps env settings EventName.subscription_pending event = pending-Steps env event
  handler_for-Steps env settings EventName.subscription_halted event = halted-Steps env event
  handler_for-Steps env settings EventName.subscription_charged event = charged-Steps env event
  handler_for-Steps env settings EventName.payment_link_paid event = link_paid-Steps env event
  handler_for-Steps env settings EventName.order_paid event = order_paid-Steps env event
  handler_for-Steps env settings EventName.unknown event = tt
