-- ===== src/Orchestrator/Cooldown.antt =====
-- The cooldown of a customer inside one tick of app/orchestrator.py.
use mathlib.Core.Bool.{false≢true}
use dunning_agent.Prelude.{
  ℕ, ◌+◌, ◌<◌, String, Bool, true, false, not, Option, none, some, List, [], ◌∷◌, ◌≡◌, refl, sym,
  ap, subst, ◌∙◌, length, arith, truthy, get_or, Bool-cases, inl, inr,
}
use dunning_agent.Prelude.Text.{strip}
use dunning_agent.Model.{Time, hours, Settings, Customer, RecoveryCase}
use dunning_agent.Policy.{decide}
use dunning_agent.Policy.Laws.{is_contact, Elapsed, decide-acts_iff}
use dunning_agent.World.{World, Env, ok, pure, ◌>>◌, get_customer}
use dunning_agent.World.Post.{Ends, Post, Post-bind, Post-any}
use dunning_agent.Cache.{is_empty}
use dunning_agent.Cache.Laws.{cache_total}
use dunning_agent.Orchestrator.{
  TickResult, new_result, act, consider, is_elsewhere, contacted_elsewhere, cooldown_key,
  skip_or_act, process_case, process_cases, publish, run_once, customer_for, claim_actionable_cases,
}
use dunning_agent.Prelude.Sets.{contains, IsDistinct}
use dunning_agent.Orchestrator.Contacts.{find_customer, find-id, IsQuiet, Quiet}
use dunning_agent.Orchestrator.Quiet.{Fresh, act_on-Quiet}

module _ (env : Env) (settings : Settings) (now : Time) where
  -- Where the policy acts, the cooldown of the customer is over, so nobody of this tick is reached.
  cooled-Fresh :
      (id : String) (c : Customer) (result : TickResult) (w : World)
      → 0 < settings.customer_contact_cooldown_hours
      → Quiet now result w
      → find_customer id w.db.customers ≡ some c
      → Elapsed c.last_contacted_at (hours settings.customer_contact_cooldown_hours) now
      → contains c.razorpay_customer_id result.pending_cooldowns ≡ false
  cooled-Fresh id c result w positive q found cooled =
      elim (Bool-cases (contains c.razorpay_customer_id result.pending_cooldowns)) [
        | inl e ↦
            let same = find-id id c w.db.customers found in
            let t =
              q.contacted c.razorpay_customer_id c e
                (ap (λ i. find_customer i w.db.customers) same ∙ found) in
            ground arith
        | inr e ↦ e
      ]

  pub is_elsewhere-db :
      (customer : Option Customer) (w : World) → (is_elsewhere env settings customer w).1.db ≡ w.db
  unfolding is_elsewhere contacted_elsewhere
  is_elsewhere-db none w = refl
  is_elsewhere-db (some c) w = elim (Bool-cases (is_empty (strip settings.redis_url))) [
    | inl e ↦ rw e refl
    | inr e ↦ rw e ((cache_total env settings (cooldown_key c.razorpay_customer_id) 0 w).4)
  ]

  -- The customer of a case is a row of the table.
  customer_for-found :
      (case : RecoveryCase) (w : World) (c : Customer)
      → customer_for case w.db ≡ some c
      → (id : String) × (find_customer id w.db.customers ≡ some c)
  unfolding customer_for get_customer
  customer_for-found case w c h = (
    get_or case.razorpay_customer_id "",
    elim (Bool-cases (not (truthy case.razorpay_customer_id))) [
      | inl e ↦ ground arith
      | inr e ↦ ground arith
    ],
  )

  module _ (local_hour : String → Time → ℕ)
      (positive : 0 < settings.customer_contact_cooldown_hours) where
    acting-Fresh :
        (case : RecoveryCase) (customer : Option Customer) (result : TickResult) (w : World)
        → customer_for case w.db ≡ customer
        → Quiet now result w
        → is_contact (decide local_hour settings now case customer).action ≡ true
        → Fresh result customer
    acting-Fresh case none result w found q acts = tt
    acting-Fresh case (some c) result w found q acts =
        let (id, there) = customer_for-found case w c found in
        cooled-Fresh id c result w positive q there
          (((decide-acts_iff local_hour settings now case (some c)).0 acts).1.cooled_down)

    skip_or_act-Quiet :
        (case : RecoveryCase) (customer : Option Customer) (result : TickResult) (elsewhere : Bool)
        (w : World)
        → customer_for case w.db ≡ customer
        → Quiet now result w
        → Ends
            (skip_or_act env settings local_hour now case customer result elsewhere)
            w
            (Quiet now)
    unfolding act
    skip_or_act-Quiet case customer result true w found q = record {
      distinct = q.distinct;
      contacted = q.contacted;
      counted = q.counted;
    }
    skip_or_act-Quiet case customer result false w found q =
        let decision = decide local_hour settings now case customer in
        act_on-Quiet env settings now decision.action decision case customer result w q
          (acting-Fresh case customer result w found q)

    process_case-Quiet :
        (case : RecoveryCase) (result : TickResult) (w : World)
        → Quiet now result w
        → Ends (process_case env settings local_hour now case result) w (Quiet now)
    unfolding process_case
    process_case-Quiet case result w q =
        let customer = customer_for case w.db in
        let (r, v) = is_elsewhere env settings customer w in
        let looked = consider result in
        let q' : Quiet now looked w = record {
          distinct = q.distinct;
          contacted = q.contacted;
          counted = q.counted;
        } in
        Post-bind (λ _ u. u.db ≡ w.db) (Quiet now) (is_elsewhere env settings customer)
          (skip_or_act env settings local_hour now case customer looked) w
          (Post-any (λ u. u.db ≡ w.db) r v (is_elsewhere-db customer w))
          λ elsewhere u e.
            skip_or_act-Quiet case customer looked elsewhere u (ap (customer_for case) e) (
              subst
                (λ d.
                  IsQuiet now looked.pending_cooldowns
                    (looked.contacted + looked.linked + looked.charged) d.customers)
                (sym e) q')

    process_cases-Quiet :
        (cases : List RecoveryCase) (result : TickResult) (w : World)
        → Quiet now result w
        → Ends (process_cases env settings local_hour now cases result) w (Quiet now)
    unfolding process_cases
    process_cases-Quiet [] result w q = q
    process_cases-Quiet (case ∷ cases) result w q =
        Post-bind (Quiet now) (Quiet now) (process_case env settings local_hour now case result)
          (process_cases env settings local_hour now cases) w (process_case-Quiet case result w q)
          (λ after v q'. process_cases-Quiet cases after v q')

    -- The customers of a tick's deliveries.
    abbrev Once : TickResult → Type 0
    Once r =
        IsDistinct r.pending_cooldowns
        × (length r.pending_cooldowns ≡ r.contacted + r.linked + r.charged)

    -- With a cooldown set, one tick reaches out to nobody twice, however many cases of a customer it
    -- works on: the customers of its deliveries, one entry for each delivery, are all different.
    pub run_once-one_contact :
        (before : RecoveryCase → RecoveryCase → Bool) (locked : ℕ → Bool) (w : World)
        (r : TickResult)
        → (run_once env settings local_hour now before locked w).0 ≡ ok r
        → IsDistinct r.pending_cooldowns
          × (length r.pending_cooldowns ≡ r.contacted + r.linked + r.charged)
    unfolding run_once
    run_once-one_contact before locked w r e =
        let cases = claim_actionable_cases before locked settings.worker_batch_size now w.db in
        let q : Quiet now new_result w = record {
          distinct = tt;
          contacted = λ id c h _. absurd (false≢true h);
          counted = refl;
        } in
        let whole =
          Post-bind (Quiet now) (λ last _. Once last)
            (process_cases env settings local_hour now cases new_result)
            (λ result. publish env settings result.pending_cooldowns >> pure result) w
            (process_cases-Quiet cases new_result w q)
            λ result v q'.
              let (p, u) = publish env settings result.pending_cooldowns v in
              Post-bind (λ _ _. Unit) (λ last _. Once last)
                (publish env settings result.pending_cooldowns) (λ _. pure result) v
                (Post-any (λ _. Unit) p u tt) (λ _ _ _. (q'.distinct, q'.counted)) in
        subst
          (λ o.
            Post o (run_once env settings local_hour now before locked w).1 (λ last _. Once last))
          e whole
