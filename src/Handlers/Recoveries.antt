-- ===== src/Handlers/Recoveries.antt =====
-- The events of app/webhooks/handlers.py that close cases, and the table of handlers.
use dunning_agent.Prelude.{
  zero, suc, String, ◌&&◌, Option, none, some, List, truthy, get_or, filter, if◌then◌else◌,
}
use dunning_agent.Model.{is_unfinished, Settings, RecoveryCase, Value}
use dunning_agent.World.{PaymentEntity, Db, Env, Exec, pure, gets, for_each, ◌>>=◌, ◌>>◌}
use dunning_agent.PaymentLinks.{case_id_from_reference}
use dunning_agent.PaymentLinks.Decimal.{ℤ, pos, negsuc}
use dunning_agent.Store.{holds, upsert_payment, upsert_subscription}
use dunning_agent.Handlers.Events.{
  Event, required, note, int_of, get_case_by_id, invoice_context, record_recovery,
  close_cases_for_subscription, handle_subscription_pending, handle_subscription_halted,
  handle_payment_authorized, handle_subscription_authenticated,
}
use dunning_agent.Handlers.Failures.{handle_payment_failed}

unfoldable pub unfinished_for_order : String → Db → List RecoveryCase
unfinished_for_order order_id db =
    filter (λ case. holds case.razorpay_order_id order_id && is_unfinished case.status) db.cases

module _ (env : Env) (event : Event) where
  unfoldable pub handle_order_paid : Exec (Unit {0})
  handle_order_paid = do
    order_id ← required event.order_id
    payment ← required event.payment
    upsert_payment payment none none
    cases ← gets (unfinished_for_order order_id)
    for_each cases (λ case. record_recovery env case payment event)

  unfoldable pub handle_subscription_charged : Exec (Unit {0})
  handle_subscription_charged = do
    subscription ← required event.subscription
    payment ← required event.payment
    upsert_subscription subscription
    upsert_payment payment (some subscription.id) subscription.customer_id
    close_cases_for_subscription env subscription.id payment event

  -- A case that is not found is only logged.
  abbrev pub recover_found : PaymentEntity → Option RecoveryCase → Exec (Unit {0})
  recover_found payment none = pure tt
  recover_found payment (some case) = record_recovery env case payment event

  -- By the note first, and by the invoice where there is none.
  unfoldable pub attribute : PaymentEntity → Option String → Option Value → Exec (Unit {0})
  attribute payment subscription_id (some case_id) =
      get_case_by_id (int_of (some case_id)) >>= recover_found payment
  attribute payment subscription_id none =
      if truthy subscription_id
      then close_cases_for_subscription env (get_or subscription_id "") payment event
      else pure tt

  unfoldable pub capture : PaymentEntity → Exec (Unit {0})
  capture payment = do
    (subscription_id, customer_id) ← invoice_context env payment.invoice_id
    upsert_payment payment subscription_id customer_id
    attribute payment subscription_id (note payment.notes "recovery_case_id")

  unfoldable pub handle_payment_captured : Exec (Unit {0})
  handle_payment_captured = required event.payment >>= capture

  -- `case_id_from_reference(...) or _note(...)`: the identifier 0 counts as none.
  unfoldable pub id_or_note : Option ℤ → Option Value → Option ℤ
  id_or_note none noted = int_of noted
  id_or_note (some (pos zero)) noted = int_of noted
  id_or_note (some (pos (suc n))) noted = some (pos (suc n))
  id_or_note (some (negsuc n)) noted = some (negsuc n)

  unfoldable pub handle_payment_link_paid : Exec (Unit {0})
  handle_payment_link_paid = do
    link ← required event.payment_link
    payment ← required event.payment
    upsert_payment payment none none
    found ←
        get_case_by_id (
          id_or_note (case_id_from_reference link.reference_id)
            (note link.notes "recovery_case_id"))
    recover_found payment found

-- The keys of `EVENT_HANDLERS`, and a name that is not one.
pub data EventName : Type 0 where
  payment_failed payment_authorized payment_captured subscription_authenticated : EventName
  subscription_pending subscription_halted subscription_charged payment_link_paid : EventName
  order_paid unknown : EventName

-- `EVENT_HANDLERS.get(name)`
unfoldable pub handler_for : Env → Settings → EventName → Option (Event → Exec (Unit {0}))
handler_for env settings EventName.payment_failed = some (handle_payment_failed env settings)
handler_for env settings EventName.payment_authorized = some (handle_payment_authorized env)
handler_for env settings EventName.payment_captured = some (handle_payment_captured env)
handler_for env settings EventName.subscription_authenticated =
    some (handle_subscription_authenticated env)
handler_for env settings EventName.subscription_pending = some (handle_subscription_pending env)
handler_for env settings EventName.subscription_halted = some (handle_subscription_halted env)
handler_for env settings EventName.subscription_charged = some (handle_subscription_charged env)
handler_for env settings EventName.payment_link_paid = some (handle_payment_link_paid env)
handler_for env settings EventName.order_paid = some (handle_order_paid env)
handler_for env settings EventName.unknown = none
