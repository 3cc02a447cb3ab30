-- ===== src/Orchestrator/Delivery.antt =====
-- The deliveries of app/orchestrator.py and the body of its loop. A function that changes the case
-- or the customer saves the row, and hands the new value on.
use dunning_agent.Prelude.{ℕ, ◌+◌, ◌/◌, String, Bool, true, false, some, List, [], ◌∷◌, ◌++◌}
use dunning_agent.Model.{
  CaseStatus, ActionType, Time, Settings, Customer, RecoveryCase, Value, Metadata,
}
use dunning_agent.World.{
  Request, Env, Exn, Result, ok, err, Exec, pure, ask, attempt, ◌>>=◌, ◌>>◌, log_action, save_case,
  save_customer,
}
use dunning_agent.PaymentLinks.{PaymentLink, create_recovery_link}
use dunning_agent.Mandate.{charge_mandate}

pub record TickResult : Type 0 where
  pub considered : ℕ
  pub contacted : ℕ
  pub linked : ℕ
  pub charged : ℕ
  pub stopped : ℕ
  pub needs_human : ℕ
  pub pending_cooldowns : List String
  pub waiting : ℕ
  pub failed : ℕ

abbrev pub new_result : TickResult
new_result = record {
  considered = 0;
  contacted = 0;
  linked = 0;
  charged = 0;
  stopped = 0;
  needs_human = 0;
  pending_cooldowns = [];
  waiting = 0;
  failed = 0;
}

-- The counter that `_record_delivery` is told to raise.
pub data Counter : Type 0 where
  count_contacted count_linked count_charged : Counter

abbrev raise_counter : Counter → TickResult → TickResult
raise_counter count_contacted r = record r { contacted = r.contacted + 1 }
raise_counter count_linked r = record r { linked = r.linked + 1 }
raise_counter count_charged r = record r { charged = r.charged + 1 }

-- `_record_delivery`
unfoldable pub record_delivery :
    Time → RecoveryCase → Customer → TickResult → Bool → Counter → Exec TickResult
record_delivery now case customer result true counter = do
  save_case (record case { delivery_failures = 0 })
  save_customer (record customer { last_contacted_at = some now })
  let raised = raise_counter counter result
  pure (record raised {
    pending_cooldowns = result.pending_cooldowns ++ customer.razorpay_customer_id ∷ [];
  })
record_delivery now case customer result false counter = do
  save_case (record case { delivery_failures = case.delivery_failures + 1 })
  pure (record result { failed = result.failed + 1 })

-- What every delivery writes first.
abbrev pub begin_attempt : Time → RecoveryCase → RecoveryCase
begin_attempt now case = record case { status = CaseStatus.in_progress; last_attempt_at = some now }

abbrev pub spend_attempt : RecoveryCase → RecoveryCase
spend_attempt case = record case { attempt_count = case.attempt_count + 1 }

abbrev error_row : Env → Exn → String → Metadata
error_row env e flag = ("error", Value.text (env.repr e)) ∷ (flag, Value.bool false) ∷ []

-- `_retry_mandate`, `_send_link` and `_contact`: the case afterwards, and whether it was delivered.
module _ (env : Env) (settings : Settings) (now : Time) (customer : Customer) where
  abbrev pub after_charge : RecoveryCase → Result Bool → Exec (RecoveryCase × Bool)
  after_charge case (ok true) = save_case (spend_attempt case) >> pure (spend_attempt case, true)
  after_charge case (ok false) = pure (case, false)
  after_charge case (err e) =
      log_action case.id ActionType.mandate_retried (error_row env e "charged")
      >> pure (case, false)

  unfoldable pub retry_mandate : RecoveryCase → Exec (RecoveryCase × Bool)
  retry_mandate case =
      let begun = begin_attempt now case in
      do
        save_case begun
        outcome ← attempt (charge_mandate env settings begun customer (now / 1_000_000))
        after_charge begun outcome

  abbrev pub after_link :
      RecoveryCase → Result (RecoveryCase × PaymentLink) → Exec (RecoveryCase × Bool)
  after_link case (ok (linked, _)) =
      save_case (spend_attempt linked) >> pure (spend_attempt linked, true)
  after_link case (err e) =
      log_action case.id ActionType.payment_link_created (error_row env e "created")
      >> pure (case, false)

  unfoldable pub send_link : RecoveryCase → Exec (RecoveryCase × Bool)
  send_link case =
      let begun = begin_attempt now case in
      do
        save_case begun
        outcome ← attempt (create_recovery_link env settings begun customer now)
        after_link begun outcome

  abbrev pub after_call : RecoveryCase → Result Metadata → Exec (RecoveryCase × Bool)
  after_call case (ok metadata) = do
    save_case (spend_attempt case)
    log_action case.id ActionType.voice_call metadata
    pure (spend_attempt case, true)
  after_call case (err e) =
      log_action case.id ActionType.voice_call (error_row env e "placed") >> pure (case, false)

  unfoldable pub contact : RecoveryCase → Exec (RecoveryCase × Bool)
  contact case =
      let begun = begin_attempt now case in
      do
        save_case begun
        outcome ← attempt (
            ask (Request.place_call begun.id customer.razorpay_customer_id)
              (env.on_place_call begun customer))
        after_call begun outcome
