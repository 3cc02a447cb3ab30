-- ===== src/Orchestrator/Outcome.antt =====
-- What one decision of app/orchestrator.py adds to the counters of a tick.
use mathlib.Core.Bool.{false≢true}
use dunning_agent.Prelude.{ℕ, ◌+◌, ◌/◌, Bool, true, false, Option, none, some, ◌≡◌, refl, arith}
use dunning_agent.Model.{Time, Settings, Metadata, Customer, RecoveryCase}
use dunning_agent.Policy.{Action, Decision, Reason, reachable_at_all}
use dunning_agent.Policy.Laws.{is_contact}
use dunning_agent.PaymentLinks.{PaymentLink, create_recovery_link}
use dunning_agent.Mandate.{charge_mandate}
use dunning_agent.World.{
  World, Env, Request, ask, save_case, log_action, Result, ok, err, Exec, ◌>>=◌,
}
use dunning_agent.World.Returns.{Returns, Returns-bind}
use dunning_agent.Orchestrator.{
  TickResult, begin_attempt, after_charge, after_link, after_call, act_on, unpark, Counter,
  count_contacted, count_linked, count_charged, record_delivery, retry_mandate, send_link, contact,
  deliver, deliver_to, park, close,
}

-- What became of the cases so far.
abbrev pub outcomes : TickResult → ℕ
outcomes r = r.contacted + r.linked + r.charged + r.stopped + r.waiting + r.failed

-- One more outcome, and no more cases.
abbrev pub OneMore : TickResult → TickResult → Type 0
OneMore before after =
    (outcomes after ≡ outcomes before + 1) × (after.considered ≡ before.considered)

module _ (env : Env) (settings : Settings) (now : Time) where
  record_delivery-OneMore :
      (case : RecoveryCase) (customer : Customer) (result : TickResult) (delivered : Bool)
      (counter : Counter) (w : World)
      → Returns (record_delivery now case customer result delivered counter w).0 (OneMore result)
  unfolding record_delivery
  record_delivery-OneMore case customer result true counter w = ground arith
  record_delivery-OneMore case customer result false counter w = ground arith

  after_charge_total :
      (case : RecoveryCase) (customer : Customer) (r : Result Bool) (w : World)
      → Returns (after_charge env settings now customer case r w).0 (λ _. Unit)
  unfolding log_action
  after_charge_total case customer (ok true) w = tt
  after_charge_total case customer (ok false) w = tt
  after_charge_total case customer (err e) w = tt

  after_link_total :
      (case : RecoveryCase) (customer : Customer) (r : Result (RecoveryCase × PaymentLink))
      (w : World)
      → Returns (after_link env settings now customer case r w).0 (λ _. Unit)
  unfolding log_action
  after_link_total case customer (ok (linked, link)) w = tt
  after_link_total case customer (err e) w = tt

  after_call_total :
      (case : RecoveryCase) (customer : Customer) (r : Result Metadata) (w : World)
      → Returns (after_call env settings now customer case r w).0 (λ _. Unit)
  unfolding log_action
  after_call_total case customer (ok metadata) w = tt
  after_call_total case customer (err e) w = tt

  module _ (case : RecoveryCase) (customer : Customer) (w : World) where
    abbrev begun : RecoveryCase
    begun = begin_attempt now case

    abbrev saved : World
    saved = (save_case begun w).1

    retry_mandate_total : Returns (retry_mandate env settings now customer case w).0 (λ _. Unit)
    unfolding retry_mandate
    retry_mandate_total =
        let (r, w') = charge_mandate env settings begun customer (now / 1_000_000) saved in
        after_charge_total begun customer r w'

    send_link_total : Returns (send_link env settings now customer case w).0 (λ _. Unit)
    unfolding send_link
    send_link_total =
        let (r, w') = create_recovery_link env settings begun customer now saved in
        after_link_total begun customer r w'

    contact_total : Returns (contact env settings now customer case w).0 (λ _. Unit)
    unfolding contact
    contact_total =
        let (r, w') =
          ask (Request.place_call case.id customer.razorpay_customer_id)
            (env.on_place_call begun customer) saved in
        after_call_total begun customer r w'

  delivered-OneMore :
      (m : Exec (RecoveryCase × Bool)) (counter : Counter) (customer : Customer)
      (result : TickResult) (w : World)
      → Returns (m w).0 (λ _. Unit)
      → Returns
          ((m >>= λ (after, delivered). record_delivery now after customer result delivered counter)
            w).0
          (OneMore result)
  delivered-OneMore m counter customer result w h =
      Returns-bind (λ _. Unit) (OneMore result) m
        (λ (after, delivered). record_delivery now after customer result delivered counter) w h
        λ (after, delivered) w' _.
          record_delivery-OneMore after customer result delivered counter w'

  deliver-OneMore :
      (action : Action) (case : RecoveryCase) (customer : Customer) (result : TickResult)
      (w : World)
      → Returns (deliver env settings now action case customer result w).0 (OneMore result)
  unfolding deliver
  deliver-OneMore Action.retry_mandate case customer result w =
      delivered-OneMore (retry_mandate env settings now customer case) count_charged customer result
        w (retry_mandate_total case customer w)
  deliver-OneMore Action.link case customer result w =
      delivered-OneMore (send_link env settings now customer case) count_linked customer result w
        (send_link_total case customer w)
  deliver-OneMore _ case customer result w =
      delivered-OneMore (contact env settings now customer case) count_contacted customer result w
        (contact_total case customer w)

  park-OneMore :
      (case : RecoveryCase) (until : Option Time) (result : TickResult) (w : World)
      → Returns (park env settings case until result w).0 (OneMore result)
  unfolding park
  park-OneMore case until result w = (omega arith, refl)

  close-OneMore :
      (case : RecoveryCase) (reason : Reason) (result : TickResult) (w : World)
      → Returns (close env settings case reason result w).0 (OneMore result)
  unfolding close log_action
  close-OneMore case reason result w = (omega arith, refl)

  deliver_to-OneMore :
      (action : Action) (case : RecoveryCase) (customer : Option Customer) (result : TickResult)
      (w : World)
      → reachable_at_all customer ≡ true
      → Returns (deliver_to env settings now action case customer result w).0 (OneMore result)
  unfolding deliver_to reachable_at_all
  deliver_to-OneMore action case none result w h = absurd (false≢true h)
  deliver_to-OneMore action case (some customer) result w h =
      deliver-OneMore action case customer result w

  -- A decision to act is one that the policy takes only where the customer can be reached.
  pub act_on-OneMore :
      (action : Action) (decision : Decision) (case : RecoveryCase) (customer : Option Customer)
      (result : TickResult) (w : World)
      → (is_contact action ≡ true → reachable_at_all customer ≡ true)
      → Returns (act_on env settings now action decision case customer result w).0 (OneMore result)
  unfolding act_on log_action
  act_on-OneMore Action.wait decision case customer result w h =
      park-OneMore case decision.retry_after result w
  act_on-OneMore Action.stop decision case customer result w h =
      close-OneMore (unpark case) decision.reason result _
  act_on-OneMore action decision case customer result w h =
      deliver_to-OneMore action (unpark case) customer result _ (h refl)
