-- ===== src/Priority/Laws.antt =====
-- What the tier of app/priority.py turns on.
use dunning_agent.Prelude.{ℕ, ◌≤◌, String, true, false, Option, ◌≡◌, ◌↔◌, ◌⊎◌, arith}
use dunning_agent.Diagnosis.{RootCause, classify, normalise}
use dunning_agent.Priority.{
  mandate_broken, payment_attempted, background, in_the_flow, is_instrument, tier_from, Scale,
}

-- The tier is the most urgent exactly when the instrument is dead, and never the tier that is kept
-- for abandoned checkouts; with a live instrument a failure in the payment flow is the second tier.
tier_from_cases :
    (source reason_code step : Option String)
    → ((tier_from source reason_code step ≡ mandate_broken)
        ↔ (classify source reason_code ≡ RootCause.customer_instrument))
      × ((tier_from source reason_code step ≡ payment_attempted) ↔ (
          (classify source reason_code ≡ RootCause.customer_funds)
          ⊎ (classify source reason_code ≡ RootCause.customer_action)
          ⊎ ((in_the_flow (normalise step) ≡ true)
              × (is_instrument (classify source reason_code) ≡ false))))
      × ((tier_from source reason_code step ≡ mandate_broken)
          ⊎ (tier_from source reason_code step ≡ payment_attempted)
          ⊎ (tier_from source reason_code step ≡ background))
unfolding tier_from
tier_from_cases source reason_code step = ground arith

-- What the ordering relies on of the floats: literals and logarithms keep the order of their
-- numbers, and so does a product of floats that are not negative, rounded as it is.
pub record IsMonotone (scale : Scale) : Type 0 where
  pub hundredths_le :
      (m n : ℕ) → m ≤ n → scale.less (scale.hundredths n) (scale.hundredths m) ≡ false
  pub log1p_rupees_le :
      (m n : ℕ) → m ≤ n → scale.less (scale.log1p_rupees n) (scale.log1p_rupees m) ≡ false
  pub times_le :
      (a a' b b' : scale.Score)
      → scale.less a' a ≡ false
      → scale.less b' b ≡ false
      → scale.less (scale.times a' b') (scale.times a b) ≡ false
