-- ===== src/Orchestrator/Trail.antt =====
-- A tick of app/orchestrator.py writes by three means, so a relation that these keep is kept by it.
use dunning_agent.Prelude.{
  ℕ, ◌*◌, String, Bool, true, false, Option, none, some, List, [], ◌∷◌, refl, sym, subst,
}
use dunning_agent.Model.{Time, Settings, ActionType, Metadata, Customer, RecoveryCase}
use dunning_agent.Policy.{Action, Decision, decide}
use dunning_agent.World.{
  World, Db, Env, log_action, put_case, put_customer, save_case, save_customer,
}
use dunning_agent.World.Steps.{IsFrame, Steps, step_rules, Steps-bind}
use dunning_agent.Cache.{claim}
use dunning_agent.Cache.Laws.{claim-db}
use dunning_agent.Handlers.Laws.{AppendsOnly, AppendsOnly-IsFrame, append_none}
use dunning_agent.Orchestrator.{
  TickResult, Counter, record_delivery, retry_mandate, send_link, contact, deliver, deliver_to,
  park, close, act_on, act, is_elsewhere, cooldown_key, skip_or_act, process_case, process_cases,
  publish, run_once,
}
use dunning_agent.Orchestrator.Frames.{retry_mandate-Steps, send_link-Steps, contact-Steps}
use dunning_agent.Orchestrator.Cooldown.{is_elsewhere-db}

module _ {R : Db → Db → Type 0} (frame : IsFrame R)
    (logs : (id : ℕ) (type : ActionType) (metadata : Metadata)
      → Steps R (log_action id type metadata))
    (saves : (case : RecoveryCase) → Steps R (save_case case))
    (stamps : (customer : Customer) → Steps R (save_customer customer)) (env : Env)
    (settings : Settings) (now : Time) where
  record_delivery-Steps :
      (case : RecoveryCase) (customer : Customer) (result : TickResult) (delivered : Bool)
      (counter : Counter)
      → Steps R (record_delivery now case customer result delivered counter)
  unfolding record_delivery
  record_delivery-Steps case customer result true counter =
      search (step_rules, frame, saves, stamps) depth 8
  record_delivery-Steps case customer result false counter =
      search (step_rules, frame, saves) depth 8

  retry-Steps :
      (customer : Customer) (case : RecoveryCase)
      → Steps R (retry_mandate env settings now customer case)
  retry-Steps customer case =
      retry_mandate-Steps R frame logs (λ _. Unit) (λ c _. saves c) (λ id url t c _. tt)
        (λ c _. saves _) env settings now customer case tt

  link-Steps :
      (customer : Customer) (case : RecoveryCase)
      → Steps R (send_link env settings now customer case)
  link-Steps customer case =
      send_link-Steps R frame logs (λ _. Unit) (λ c _. saves c) (λ id url t c _. tt)
        (λ c _. saves _) env settings now customer case tt

  call-Steps :
      (customer : Customer) (case : RecoveryCase) → Steps R (contact env settings now customer case)
  call-Steps customer case =
      contact-Steps R frame logs (λ _. Unit) (λ c _. saves c) (λ id url t c _. tt) (λ c _. saves _)
        env settings now customer case tt

  deliver-Steps :
      (action : Action) (case : RecoveryCase) (customer : Customer) (result : TickResult)
      → Steps R (deliver env settings now action case customer result)
  unfolding deliver
  deliver-Steps Action.retry_mandate case customer result =
      search (step_rules, frame, retry-Steps, record_delivery-Steps) depth 8
  deliver-Steps Action.link case customer result =
      search (step_rules, frame, link-Steps, record_delivery-Steps) depth 8
  deliver-Steps _ case customer result =
      search (step_rules, frame, call-Steps, record_delivery-Steps) depth 8

  deliver_to-Steps :
      (action : Action) (case : RecoveryCase) (customer : Option Customer) (result : TickResult)
      → Steps R (deliver_to env settings now action case customer result)
  unfolding deliver_to
  deliver_to-Steps action case none result = search (step_rules, frame)
  deliver_to-Steps action case (some customer) result = deliver-Steps action case customer result

  act_on-Steps :
      (action : Action) (decision : Decision) (case : RecoveryCase) (customer : Option Customer)
      (result : TickResult)
      → Steps R (act_on env settings now action decision case customer result)
  unfolding act_on park close
  act_on-Steps Action.wait decision case customer result = search (step_rules, frame, saves) depth 8
  act_on-Steps Action.stop decision case customer result =
      search (step_rules, frame, saves, logs) depth 12
  act_on-Steps action decision case customer result =
      search (step_rules, frame, saves, logs, deliver_to-Steps) depth 8

  is_elsewhere-Steps : (customer : Option Customer) → Steps R (is_elsewhere env settings customer)
  is_elsewhere-Steps customer = record {
    at = λ w.
        subst (R w.db) (sym (is_elsewhere-db env settings now customer w)) (frame.reflexive w.db);
  }

  claim-Steps : (key : String) (ttl : ℕ) → Steps R (claim env settings key ttl)
  claim-Steps key ttl = record {
    at = λ w. subst (R w.db) (sym (claim-db env settings key ttl w)) (frame.reflexive w.db);
  }

  publish-Steps : (pending : List String) → Steps R (publish env settings pending)
  unfolding publish
  publish-Steps [] = search (step_rules, frame)
  publish-Steps (id ∷ pending) =
      let ttl = settings.customer_contact_cooldown_hours * 3600 in
      Steps-bind frame (claim env settings (cooldown_key id) ttl)
        (λ _. publish env settings pending) (claim-Steps (cooldown_key id) ttl)
        (λ _. publish-Steps pending)

  module _ (local_hour : String → Time → ℕ) where
    skip_or_act-Steps :
        (case : RecoveryCase) (customer : Option Customer) (result : TickResult) (elsewhere : Bool)
        → Steps R (skip_or_act env settings local_hour now case customer result elsewhere)
    unfolding act
    skip_or_act-Steps case customer result true = search (step_rules, frame)
    skip_or_act-Steps case customer result false =
        let decision = decide local_hour settings now case customer in
        act_on-Steps decision.action decision case customer result

    process_case-Steps :
        (case : RecoveryCase) (result : TickResult)
        → Steps R (process_case env settings local_hour now case result)
    unfolding process_case
    process_case-Steps case result =
        search (step_rules, frame, is_elsewhere-Steps, skip_or_act-Steps) depth 8

    process_cases-Steps :
        (cases : List RecoveryCase) (result : TickResult)
        → Steps R (process_cases env settings local_hour now cases result)
    unfolding process_cases
    process_cases-Steps [] result = search (step_rules, frame)
    process_cases-Steps (case ∷ cases) result =
        let rest = process_cases-Steps cases in
        search (step_rules, frame, process_case-Steps, rest) depth 8

    run_once-Steps :
        (before : RecoveryCase → RecoveryCase → Bool) (locked : ℕ → Bool)
        → Steps R (run_once env settings local_hour now before locked)
    unfolding run_once
    run_once-Steps before locked =
        search (step_rules, frame, process_cases-Steps, publish-Steps) depth 12

-- A tick only appends to the audit trail: its earlier rows stand unchanged, in their order, before
-- the new ones.
pub run_once-AppendsOnly :
    (env : Env) (settings : Settings) (local_hour : String → Time → ℕ) (now : Time)
    (before : RecoveryCase → RecoveryCase → Bool) (locked : ℕ → Bool) (w : World)
    → AppendsOnly w.db (run_once env settings local_hour now before locked w).1.db
unfolding log_action put_case put_customer
run_once-AppendsOnly env settings local_hour now before locked w =
    (run_once-Steps AppendsOnly-IsFrame (λ id type metadata. record { at = λ v. (_, refl) })
        (λ case. record { at = λ v. ([], append_none v.db.actions) })
        (λ customer. record { at = λ v. ([], append_none v.db.actions) }) env settings now
        local_hour before locked).at
      w
