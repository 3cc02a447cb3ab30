-- ===== src/Policy/Laws.antt =====
-- When `decide` of app/policy.py acts, waits and stops.
use dunning_agent.Prelude.{
  ℕ, ◌+◌, ◌≤◌, ◌<◌, String, Bool, true, false, Option, none, some, is_some, get_or, ◌≡◌, ◌↔◌, arith,
  ◌⊎◌, refl,
}
use dunning_agent.Model.{Time, hours, Settings, Customer, RecoveryCase}
use dunning_agent.Diagnosis.{RootCause, diagnose, defers_to_the_bank}
use dunning_agent.Policy.{
  Action, is_closed, is_configuration, reachable_at_all, refuses_contact, last_contacted, within,
  deferring_to_the_bank, is_within_backoff, intervention_for, within_contact_window, decide_open,
  decide,
}

-- The decisions that reach out to the customer.
abbrev pub is_contact : Action → Bool
is_contact Action.retry_mandate = true
is_contact Action.link = true
is_contact Action.call = true
is_contact _ = false

abbrev pub is_stop : Action → Bool
is_stop Action.stop = true
is_stop _ = false

contact-not_stop : (a : Action) → is_contact a ≡ true → is_stop a ≡ false
contact-not_stop a h = ground arith

-- A window that began at the given time, if ever, is over.
abbrev pub Elapsed : Option Time → ℕ → Time → Type 0
Elapsed none window now = Unit
Elapsed (some since) window now = since + window ≤ now

-- The case is one that the policy may work on at all: nothing closes it.
pub record IsWorkable (settings : Settings) (case : RecoveryCase) (customer : Option Customer)
    : Type 0 where
  pub unfinished : is_closed case.status ≡ false
  pub welcome : refuses_contact customer ≡ false
  pub budget : case.attempt_count < case.max_attempts
  pub deliverable : case.delivery_failures < settings.max_delivery_failures
  pub worthwhile : settings.min_recoverable_amount_paise ≤ case.original_amount
  pub theirs : is_configuration (diagnose case) ≡ false
  pub reachable : reachable_at_all customer ≡ true

module _ (local_hour : String → Time → ℕ) (settings : Settings) (now : Time) where
  -- Nothing asks to wait either.
  pub record IsTimely (case : RecoveryCase) (customer : Option Customer) : Type 0 where
    pub bank_done :
        (defers_to_the_bank (diagnose case) ≡ false)
        ⊎ (is_some case.halted_at ≡ true)
        ⊎ (get_or case.created_at now + hours settings.bank_retry_grace_hours ≤ now)
    pub backed_off : Elapsed case.last_attempt_at (hours settings.retry_backoff_hours) now
    pub cooled_down :
        Elapsed (last_contacted customer) (hours settings.customer_contact_cooldown_hours) now
    pub opened : settings.contact_window_start_hour ≤ local_hour settings.contact_timezone now
    pub not_over : local_hour settings.contact_timezone now < settings.contact_window_end_hour

  within-false_iff :
      (since : Option Time) (window : ℕ)
      → (within since window now ≡ false) ↔ Elapsed since window now
  within-false_iff none window = (λ _. tt, λ _. refl)
  within-false_iff (some since) window = ground arith

  intervention-is_contact :
      (case : RecoveryCase) (customer : Option Customer) (cause : RootCause)
      → is_contact (intervention_for case customer cause settings) ≡ true
  unfolding intervention_for
  intervention-is_contact case customer cause = ground arith

  decide_open-acts_iff :
      (case : RecoveryCase) (customer : Option Customer)
      → (is_contact (decide_open local_hour settings now case customer (diagnose case)).action
          ≡ true)
        ↔ IsTimely case customer
  unfolding decide_open deferring_to_the_bank is_within_backoff within_contact_window
  decide_open-acts_iff case customer = ground (
    arith,
    intervention-is_contact case customer (diagnose case),
    within-false_iff case.last_attempt_at (hours settings.retry_backoff_hours),
    within-false_iff (last_contacted customer) (hours settings.customer_contact_cooldown_hours),
  )

  pub decide_open-not_stop :
      (case : RecoveryCase) (customer : Option Customer) (cause : RootCause)
      → is_stop (decide_open local_hour settings now case customer cause).action ≡ false
  unfolding decide_open
  decide_open-not_stop case customer cause =
      ground (arith, intervention-is_contact case customer cause)

  pub decide-IsWorkable_iff :
      (case : RecoveryCase) (customer : Option Customer)
      → (is_stop (decide local_hour settings now case customer).action ≡ false)
        ↔ IsWorkable settings case customer
  unfolding decide
  decide-IsWorkable_iff case customer =
      ground (arith, decide_open-not_stop case customer (diagnose case))

  pub decide-workable :
      (case : RecoveryCase) (customer : Option Customer)
      → IsWorkable settings case customer
      → decide local_hour settings now case customer
        ≡ decide_open local_hour settings now case customer (diagnose case)
  unfolding decide
  decide-workable case customer w = ground arith

  -- The policy reaches out to a customer exactly when nothing closes the case and nothing asks to
  -- wait: unfinished, not refused, below both caps, worth the amount, not our own fault, reachable;
  -- the bank's grace, the case's backoff and the customer's cooldown over; inside the hours.
  pub decide-acts_iff :
      (case : RecoveryCase) (customer : Option Customer)
      → (is_contact (decide local_hour settings now case customer).action ≡ true)
        ↔ (IsWorkable settings case customer × IsTimely case customer)
  decide-acts_iff case customer = (
    λ h.
        let w =
          (decide-IsWorkable_iff case customer).0
            (contact-not_stop (decide local_hour settings now case customer).action h) in
        (w, (decide_open-acts_iff case customer).0 (rw (decide-workable case customer w) at h)),
    λ h. rw (decide-workable case customer h.0) ((decide_open-acts_iff case customer).1 h.1),
  )
