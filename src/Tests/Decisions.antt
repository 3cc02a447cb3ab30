-- ===== src/Tests/Decisions.antt =====
-- Decisions of app/policy.py, app/diagnosis.py and app/priority.py on concrete cases.
use dunning_agent.Prelude.{◌*◌, ◌/◌, ℕ, ◌<◌, true, ◌≡◌, ◌≢◌, ◌↔◌, ◌⊎◌, refl, arith, some, none, ltb}
use dunning_agent.Prelude.Text.{codes}
use dunning_agent.Model.{RecoveryCase, hours}
use dunning_agent.Diagnosis.{RootCause, diagnose, classify, by_reason, by_source, lookup, normalise}
use dunning_agent.Diagnosis.Laws.{classify-eq-configuration_iff}
use dunning_agent.Priority.{Scale}
use dunning_agent.Policy.{
  decide, can_call, grace_expires_at, reachable_at_all, decide_open, deferring_to_the_bank,
  is_within_backoff, within_contact_window, intervention_for,
}
use dunning_agent.Policy.Laws.{is_contact, IsWorkable, IsTimely, decide-acts_iff}
use dunning_agent.Policy.Deadlines.{decide-stop_permanent, decide-parked, decide-call}
use dunning_agent.Tests.Fixtures.{settings, noon, today, customer, expired_case, funds_case}

decide-acts_iff_example :
    (is_contact (decide noon settings today expired_case (some customer)).action ≡ true) ↔ (
      IsWorkable settings expired_case (some customer)
      × IsTimely noon settings today expired_case (some customer))
decide-acts_iff_example = decide-acts_iff noon settings today expired_case (some customer)

abbrev spent_case : RecoveryCase
spent_case = record expired_case { attempt_count = 3 }

decide-stop_permanent_example :
    decide noon settings (hours 600000) spent_case (some customer)
    ≡ decide noon settings today spent_case (some customer)
unfolding decide
decide-stop_permanent_example =
    decide-stop_permanent noon settings spent_case (some customer) today (hours 600000) refl

-- The bank failed, and may retry for a day.
abbrev bank_case : RecoveryCase
bank_case = record expired_case { failure_source = some "bank"; failure_reason_code = none }

-- The bank's grace of the case ends 14 hours later.
decide-parked_example :
    (today < hours 500014)
    × ((decide noon settings (hours 500014) bank_case (some customer)).reason
        ≢ (decide noon settings today bank_case (some customer)).reason)
unfolding decide diagnose classify by_reason by_source normalise reachable_at_all decide_open
    deferring_to_the_bank is_within_backoff within_contact_window intervention_for grace_expires_at
    can_call
decide-parked_example =
    decide-parked noon settings bank_case (some customer) today (hours 500014) (hours 500014) refl
      refl (omega arith)

decide-call_example :
    (can_call (some customer) ≡ true)
    × ((RootCause.customer_instrument ≡ RootCause.customer_instrument) ⊎ (0 < 0))
unfolding decide diagnose classify by_reason by_source normalise reachable_at_all decide_open
    deferring_to_the_bank is_within_backoff within_contact_window intervention_for grace_expires_at
    can_call
decide-call_example = decide-call noon settings expired_case (some customer) today refl

classify-eq-configuration_iff_example :
    (classify (some "Business") none ≡ RootCause.configuration) ↔ (
      (lookup by_reason (normalise none) ≡ none) × (normalise (some "Business") ≡ codes "business"))
classify-eq-configuration_iff_example = classify-eq-configuration_iff (some "Business") none

-- Whole numbers for scores, and the rupees for their logarithm.
abbrev scaled : Scale
scaled = record {
  Score = ℕ;
  hundredths = λ n. n;
  log1p_rupees = λ n. n / 100;
  times = λ a b. a * b;
  less = ltb;
}

-- The instrument of the one is dead, and it was opened earlier and owes as much.
abbrev newer_case : RecoveryCase
newer_case = record funds_case { created_at = some today }
