-- ===== src/Outcomes/Laws.antt =====
-- What the end of a call does for good: app/voice/outcomes.py, and the policy afterwards.
use mathlib.Core.Bool.{false≢true}
use dunning_agent.Prelude.{
  ℕ, String, Bool, true, false, some, List, [], ◌∷◌, ◌≡◌, ◌≢◌, refl, sym, ap, subst, ◌∙◌, arith,
  str_eq, eq_iff, find?, Bool-cases, inl, inr, ◌⊎◌,
}
use dunning_agent.Model.{Time, Settings, Customer, RecoveryCase, VoiceCall}
use dunning_agent.World.{
  World, Env, Result, log_action, put_case, put_customer, put_voice_call, get_customer,
  replace_where,
}
use dunning_agent.Policy.{Action, can_call, decide}
use dunning_agent.Policy.Laws.{is_contact, decide-acts_iff}
use dunning_agent.Policy.Deadlines.{decide-call}
use dunning_agent.Intents.{CallIntent, outcome_for, is_wrong_number}
use dunning_agent.Outcomes.{CallResult, apply_call_result, link_after, suppressed_customer}

find-replaced :
    (id : String) (new row : Customer) (rows : List Customer)
    → new.razorpay_customer_id ≡ id
    → find?
        (λ r. str_eq r.razorpay_customer_id id)
        (replace_where (λ r. str_eq r.razorpay_customer_id id) new rows)
      ≡ some row
    → row ≡ new
find-replaced id new row [] same h = ground arith
find-replaced id new row (r ∷ rows) same h =
    ground (arith, find-replaced id new row rows same, eq_iff new.razorpay_customer_id id)

suppressed_customer-id :
    (i : CallIntent) (now : Time) (c : Customer)
    → (suppressed_customer i now c).razorpay_customer_id ≡ c.razorpay_customer_id
unfolding suppressed_customer
suppressed_customer-id i now c = ground arith

-- A customer who has asked not to be contacted is not; one whose number is wrong is not called.
suppressed_customer-decide :
    (local_hour : String → Time → ℕ) (settings : Settings) (i : CallIntent) (now later : Time)
    (c : Customer) (case : RecoveryCase)
    → ((is_contact
            (decide local_hour settings later case (some (suppressed_customer i now c))).action
          ≡ false)
        ⊎ (is_wrong_number i ≡ true))
      × ((decide local_hour settings later case (some (suppressed_customer i now c))).action
          ≢ Action.call)
unfolding suppressed_customer can_call
suppressed_customer-decide local_hour settings i now later c case =
    let new = suppressed_customer i now c in
    (
      elim (Bool-cases (is_contact (decide local_hour settings later case (some new)).action)) [
        | inl h ↦ inr (
            ground
              (arith, ((decide-acts_iff local_hour settings later case (some new)).0 h).0.welcome))
        | inr h ↦ inl h
      ],
      λ h. ground (
        arith,
        ((decide-acts_iff local_hour settings later case (some new)).0 (ap is_contact h)).0.welcome,
        decide-call local_hour settings case (some new) later h,
      ),
    )

module _ (env : Env) (settings : Settings) (case : RecoveryCase) (call : VoiceCall)
    (result : CallResult) (customer : Customer) (has_client : Bool) (now : Time) (w : World) where
  abbrev applied : CallIntent → Result RecoveryCase × World
  applied i =
      apply_call_result env settings case call (record result { intent = i }) (some customer)
        has_client (some now) w

  suppressed-customers :
      (i : CallIntent)
      → (outcome_for i).suppress_contact ≡ true
      → (applied i).1.db.customers
        ≡ replace_where
            (λ row. str_eq row.razorpay_customer_id customer.razorpay_customer_id)
            (suppressed_customer i now customer)
            w.db.customers
  unfolding apply_call_result outcome_for log_action put_case put_customer put_voice_call link_after
      suppressed_customer
  suppressed-customers CallIntent.declined h = refl
  suppressed-customers CallIntent.wrong_number h = refl
  suppressed-customers CallIntent.dispute h = refl
  suppressed-customers _ h = absurd (false≢true h)

  -- A refusal is for good: once a call has ended in an intent that suppresses contact, the policy
  -- never again decides to reach out to that customer, by any case, at any time and under any
  -- settings. After a wrong number it may still write to the customer, and never calls.
  pub apply_call_result-suppressed :
      (after : Customer) (local_hour : String → Time → ℕ) (policy : Settings) (later : Time)
      (next : RecoveryCase)
      → (outcome_for result.intent).suppress_contact ≡ true
      → get_customer customer.razorpay_customer_id (applied result.intent).1.db ≡ some after
      → ((is_contact (decide local_hour policy later next (some after)).action ≡ false)
          ⊎ (is_wrong_number result.intent ≡ true))
        × ((decide local_hour policy later next (some after)).action ≢ Action.call)
  unfolding get_customer
  apply_call_result-suppressed after local_hour policy later next h found =
      let id = customer.razorpay_customer_id in
      let new = suppressed_customer result.intent now customer in
      let same =
        find-replaced id new after w.db.customers
          (suppressed_customer-id result.intent now customer)
          (ap (λ rows. find? (λ r. str_eq r.razorpay_customer_id id) rows)
              (sym (suppressed-customers result.intent h))
            ∙ found) in
      subst
        (λ c.
          ((is_contact (decide local_hour policy later next (some c)).action ≡ false)
            ⊎ (is_wrong_number result.intent ≡ true))
          × ((decide local_hour policy later next (some c)).action ≢ Action.call))
        (sym same)
        (suppressed_customer-decide local_hour policy result.intent now later customer next)
