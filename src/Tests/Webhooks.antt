-- ===== src/Tests/Webhooks.antt =====
-- Events of app/webhooks/: one that opens a case, and one whose handler fails.
use dunning_agent.Prelude.{◌++◌, ◌≡◌, refl, arith, true, String, Option, some, none, List, [], ◌∷◌}
use dunning_agent.Model.{RecoveryCase, CaseSource, RecoveryAction}
use dunning_agent.World.{PaymentEntity, World, Env, Exn, razorpay_error, Result, ok, err}
use dunning_agent.Handlers.{
  EventName, handle_payment_failed, handle_payment_authorized, handler_for, invoice_context,
  resolve_invoice_context, failed_payment,
}
use dunning_agent.Store.{open_recovery_case, upsert_payment}
use dunning_agent.Store.Laws.{open_recovery_case_twice}
use dunning_agent.Handlers.Laws.{refuses, handler_for-KeepsRefusals, handler_for-AppendsOnly}
use dunning_agent.Prelude.Text.{strip, lstrip, rstrip}
use dunning_agent.Cache.{seen, claim, redis}
use dunning_agent.Processor.{
  WebhookEvent, Inbox, is_retryable, get_event, process_event, process_events, record_failure,
  settle, dispatch, process_unless, process_found, record_event, record_unless, commit_event,
}
use dunning_agent.Processor.Laws.{Raised, payload_of, process_event-Raised, process_event_twice}
use dunning_agent.Processor.Retries.{Step, Reachable}
use dunning_agent.Processor.Exhausted.{KeepsFailing, Spent, repeated, process_events-buried}
use dunning_agent.Tests.Fixtures.{
  payment, settings, customer, world, env, failing_env, event, today,
}

abbrev refusing_world : World
refusing_world = record world {
  db = record world.db { customers = record customer { do_not_contact = true } ∷ [] };
}

handler_for-KeepsRefusals_example :
    refuses "cust_1" (handle_payment_failed env settings event refusing_world).1.db.customers ≡ true
unfolding handler_for
handler_for-KeepsRefusals_example =
    handler_for-KeepsRefusals env settings EventName.payment_failed
      (handle_payment_failed env settings) event refusing_world "cust_1" refl refl

handler_for-AppendsOnly_example :
    (added : List RecoveryAction) × ((handle_payment_failed env settings event world).1.db.actions
      ≡ world.db.actions ++ added)
unfolding handler_for
handler_for-AppendsOnly_example =
    handler_for-AppendsOnly env settings EventName.payment_failed
      (handle_payment_failed env settings) event world refl

abbrev envelope : WebhookEvent
envelope = record {
  id = 1;
  razorpay_event_id = "evt_1";
  event = EventName.payment_failed;
  payload = event;
  processed_at = none;
  processing_error = none;
  attempt_count = 0;
  dead_at = none;
  created_at = today;
}

abbrev inbox : Inbox
inbox = record { world = world; events = envelope ∷ []; next_id = 2 }

abbrev traceback : Exn → String
traceback e = "Traceback"

-- The invoice cannot be fetched: the status is 404, so the envelope is buried at once.
process_event-Raised_example :
    Raised failing_env settings traceback 1 inbox envelope
      (razorpay_error 404)
      (handle_payment_failed failing_env settings
        (payload_of failing_env settings traceback envelope)
        inbox.world).1
      (process_event failing_env settings traceback 1 inbox)
unfolding get_event handler_for handle_payment_failed failed_payment invoice_context
    resolve_invoice_context
process_event-Raised_example =
    process_event-Raised failing_env settings traceback 1 inbox envelope
      (handle_payment_failed failing_env settings) (razorpay_error 404) refl refl refl refl

-- The envelope arrives, and its handler meets an outage, so one of the five attempts is gone.
abbrev empty_inbox : Inbox
empty_inbox = record { world = world; events = []; next_id = 1 }

abbrev received_inbox : Inbox
received_inbox =
    (record_event env settings none "evt_1" EventName.payment_failed event empty_inbox).1

abbrev outage : Env
outage = record env { on_fetch_invoice = λ _ _. err (razorpay_error 503) }

abbrev tried_inbox : Inbox
tried_inbox = process_event outage settings traceback 1 received_inbox

tried-Reachable : Reachable settings tried_inbox
tried-Reachable =
    Reachable.later received_inbox tried_inbox
      (Reachable.later empty_inbox received_inbox (Reachable.start world 1)
        (Step.receive env none "evt_1" EventName.payment_failed event empty_inbox))
      (Step.process outage traceback 1 received_inbox)

abbrev tried : WebhookEvent
tried = record envelope { attempt_count = 1; processing_error = some "Traceback" }

outage-KeepsFailing :
    KeepsFailing settings outage traceback
      (handle_payment_failed outage settings)
      (payload_of outage settings traceback tried)
unfolding handle_payment_failed failed_payment invoice_context resolve_invoice_context
outage-KeepsFailing w = (razorpay_error 503, refl, λ p. ground arith)

-- Four attempts more, and the envelope is buried.
process_events-buried_example :
    Spent settings outage traceback
      (handle_payment_failed outage settings)
      (payload_of outage settings traceback tried)
      1
      tried_inbox
      5
      (process_events outage settings traceback (repeated 4 1) tried_inbox)
unfolding get_event process_event process_found process_unless dispatch settle record_failure
    handler_for handle_payment_failed failed_payment invoice_context resolve_invoice_context
    is_retryable record_event record_unless commit_event seen claim redis strip lstrip rstrip
process_events-buried_example =
    process_events-buried settings outage traceback (handle_payment_failed outage settings)
      (payload_of outage settings traceback tried) 4 1 tried_inbox tried (omega arith)
      tried-Reachable outage-KeepsFailing refl refl refl refl refl

abbrev authorized : WebhookEvent
authorized = record envelope { event = EventName.payment_authorized }

abbrev authorized_inbox : Inbox
authorized_inbox = record inbox { events = authorized ∷ [] }

process_event_twice_example :
    process_event env settings traceback 1 (process_event env settings traceback 1 authorized_inbox)
    ≡ process_event env settings traceback 1 authorized_inbox
unfolding get_event handler_for handle_payment_authorized upsert_payment
process_event_twice_example =
    process_event_twice env settings traceback 1 authorized_inbox authorized
      (handle_payment_authorized env) refl refl refl refl

abbrev opened : Result (Option RecoveryCase) × World
opened =
    open_recovery_case env payment (some "sub_1") (some "cust_9") CaseSource.razorpay none none
      world

-- The same payment a day later, with another amount and invoice.
abbrev paid_again : PaymentEntity
paid_again = record payment { amount = some 1; invoice_id = none; error_source = none }

abbrev opened_again : Result (Option RecoveryCase) × World
opened_again =
    open_recovery_case failing_env paid_again none (some "cust_1") CaseSource.checkout (some 3) none
      opened.1

open_recovery_case_twice_example :
    (opened_again.0 ≡ ok none) × (opened_again.1.db.cases ≡ opened.1.db.cases)
open_recovery_case_twice_example =
    open_recovery_case_twice env failing_env payment paid_again world (some "sub_1") none
      (some "cust_9") (some "cust_1") CaseSource.razorpay CaseSource.checkout none (some 3) none
      none refl
