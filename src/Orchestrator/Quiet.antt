-- ===== src/Orchestrator/Quiet.antt =====
-- The deliveries of app/orchestrator.py and the customers contacted so far.
use dunning_agent.Prelude.{◌+◌, Bool, true, false, Option, none, some, ◌≡◌, refl, sym, subst}
use dunning_agent.Model.{Time, Settings, Customer, RecoveryCase}
use dunning_agent.Policy.{Action, Decision}
use dunning_agent.Policy.Laws.{is_contact}
use dunning_agent.World.{World, Env, Exec, ◌>>=◌, log_action, put_case}
use dunning_agent.World.Post.{Ends, Post, Post-bind, Post-any}
use dunning_agent.World.Steps.{Steps}
use dunning_agent.Orchestrator.{
  TickResult, Counter, count_contacted, count_linked, count_charged, record_delivery, retry_mandate,
  send_link, contact, deliver, deliver_to, park, close, act_on, unpark,
}
use dunning_agent.Orchestrator.Frames.{retry_mandate-Steps, send_link-Steps, contact-Steps}
use dunning_agent.Prelude.Sets.{contains}
use dunning_agent.Orchestrator.Contacts.{
  SameCustomers, SameCustomers-IsFrame, IsQuiet, Quiet, record_delivery-Quiet,
}

-- No case of the customer has been delivered to so far.
abbrev pub Fresh : TickResult → Option Customer → Type 0
Fresh result none = Unit
Fresh result (some c) = contains c.razorpay_customer_id result.pending_cooldowns ≡ false

module _ (env : Env) (settings : Settings) (now : Time) where
  -- A delivery, and then its record.
  delivered-Quiet :
      (m : Exec (RecoveryCase × Bool)) (counter : Counter) (customer : Customer)
      (result : TickResult) (w : World)
      → Steps SameCustomers m
      → Quiet now result w
      → contains customer.razorpay_customer_id result.pending_cooldowns ≡ false
      → Post
          ((m >>= λ (after, delivered). record_delivery now after customer result delivered counter)
            w).0
          ((m >>= λ (after, delivered). record_delivery now after customer result delivered counter)
            w).1
          (Quiet now)
  delivered-Quiet m counter customer result w same q n =
      let (r, w') = m w in
      Post-bind (λ _ v. v.db.customers ≡ w.db.customers) (Quiet now) m
        (λ (after, delivered). record_delivery now after customer result delivered counter) w
        (Post-any (λ v. v.db.customers ≡ w.db.customers) r w' (same.at w))
        λ (after, delivered) v e.
          record_delivery-Quiet now after customer result delivered counter v
            (subst
              (IsQuiet now result.pending_cooldowns
                (result.contacted + result.linked + result.charged))
              (sym e) q)
            n

  deliver-Quiet :
      (action : Action) (case : RecoveryCase) (customer : Customer) (result : TickResult)
      (w : World)
      → Quiet now result w
      → contains customer.razorpay_customer_id result.pending_cooldowns ≡ false
      → Ends (deliver env settings now action case customer result) w (Quiet now)
  unfolding deliver log_action put_case
  deliver-Quiet Action.retry_mandate case customer result w q n =
      delivered-Quiet (retry_mandate env settings now customer case) count_charged customer result w
        (retry_mandate-Steps SameCustomers SameCustomers-IsFrame
          (λ id type metadata. record { at = λ v. refl }) (λ _. Unit)
          (λ c _. record { at = λ v. refl }) (λ id url t c _. tt) (λ c _. record { at = λ v. refl })
          env settings now customer case tt)
        q n
  deliver-Quiet Action.link case customer result w q n =
      delivered-Quiet (send_link env settings now customer case) count_linked customer result w
        (send_link-Steps SameCustomers SameCustomers-IsFrame
          (λ id type metadata. record { at = λ v. refl }) (λ _. Unit)
          (λ c _. record { at = λ v. refl }) (λ id url t c _. tt) (λ c _. record { at = λ v. refl })
          env settings now customer case tt)
        q n
  deliver-Quiet _ case customer result w q n =
      delivered-Quiet (contact env settings now customer case) count_contacted customer result w
        (contact-Steps SameCustomers SameCustomers-IsFrame
          (λ id type metadata. record { at = λ v. refl }) (λ _. Unit)
          (λ c _. record { at = λ v. refl }) (λ id url t c _. tt) (λ c _. record { at = λ v. refl })
          env settings now customer case tt)
        q n

  deliver_to-Quiet :
      (action : Action) (case : RecoveryCase) (customer : Option Customer) (result : TickResult)
      (w : World)
      → Quiet now result w
      → Fresh result customer
      → Ends (deliver_to env settings now action case customer result) w (Quiet now)
  unfolding deliver_to
  deliver_to-Quiet action case none result w q n = tt
  deliver_to-Quiet action case (some customer) result w q n =
      deliver-Quiet action case customer result w q n

  pub act_on-Quiet :
      (action : Action) (decision : Decision) (case : RecoveryCase) (customer : Option Customer)
      (result : TickResult) (w : World)
      → Quiet now result w
      → (is_contact action ≡ true → Fresh result customer)
      → Ends (act_on env settings now action decision case customer result) w (Quiet now)
  unfolding act_on park close log_action put_case
  act_on-Quiet Action.wait decision case customer result w q n = record {
    distinct = q.distinct;
    contacted = q.contacted;
    counted = q.counted;
  }
  act_on-Quiet Action.stop decision case customer result w q n = record {
    distinct = q.distinct;
    contacted = q.contacted;
    counted = q.counted;
  }
  act_on-Quiet action decision case customer result w q n =
      deliver_to-Quiet action (unpark case) customer result _ q (n refl)
