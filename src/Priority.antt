-- ===== src/Priority.antt =====
-- app/priority.py: the tier of a case and the score that orders the queue. There are no floats
-- here: the scores are taken as a parameter, `Scale`, with the operations that the code uses on them.
pub mod Laws
use dunning_agent.Prelude.{
  ℕ, ◌+◌, String, Bool, true, false, ◌&&◌, ◌||◌, not, Option, none, some, List, [], ◌∷◌, ◌==◌, leb,
  is_some, if◌then◌else◌, ltb, get_or,
}
use dunning_agent.Prelude.Text.{Codes, codes, codes_eq}
use dunning_agent.Model.{RecoveryCase}
use dunning_agent.Diagnosis.{RootCause, classify, normalise}

-- `Priority`, by its numbers: `Priority.MANDATE_BROKEN` is 1.
abbrev pub mandate_broken : ℕ
mandate_broken = 1

abbrev pub payment_attempted : ℕ
payment_attempted = 2

abbrev pub checkout_abandoned : ℕ
checkout_abandoned = 3

abbrev pub background : ℕ
background = 4

-- `step in IN_THE_FLOW`
unfoldable pub in_the_flow : Codes → Bool
in_the_flow step =
    codes_eq step (codes "payment_authentication") || codes_eq step (codes "payment_authorization")

-- The last two tests of `tier_from`, by cause.
abbrev tier_of_cause : RootCause → ℕ
tier_of_cause RootCause.customer_funds = payment_attempted
tier_of_cause RootCause.customer_action = payment_attempted
tier_of_cause _ = background

abbrev pub is_instrument : RootCause → Bool
is_instrument RootCause.customer_instrument = true
is_instrument _ = false

unfoldable pub tier_from : Option String → Option String → Option String → ℕ
tier_from source reason_code step =
    let cause = classify source reason_code in
    if is_instrument cause
    then mandate_broken
    else if in_the_flow (normalise step)
    then payment_attempted
    else tier_of_cause cause

unfoldable pub tier_for : RecoveryCase → ℕ
tier_for case = tier_from case.failure_source case.failure_reason_code case.failure_step

-- Scores, the floats that are not negative. `hundredths n` is the literal n / 100, as 0.35 is that of
-- 35, and `log1p_rupees n` is `math.log1p(max(n, 0) / 100)` of an amount in paise.
pub record Scale : Type 1 where
  pub Score : Type 0
  pub hundredths : ℕ → Score
  pub log1p_rupees : ℕ → Score
  pub times : Score → Score → Score
  pub less : Score → Score → Bool

-- TIER_WEIGHTS, in hundredths
abbrev tier_weights : List (ℕ × ℕ)
tier_weights =
    (mandate_broken, 100)
    ∷ (payment_attempted, 70)
    ∷ (checkout_abandoned, 50)
    ∷ (background, 35)
    ∷ []

-- HALTED_BOOST, in hundredths
abbrev halted_boost : ℕ
halted_boost = 120

abbrev weight_in : ℕ → List (ℕ × ℕ) → Option ℕ
weight_in tier [] = none
weight_in tier ((t, weight) ∷ weights) =
    let rest = weight_in tier weights in if t == tier then some weight else rest

-- `TIER_WEIGHTS.get(tier, TIER_WEIGHTS[BACKGROUND])`
unfoldable pub tier_weight : ℕ → ℕ
tier_weight tier =
    get_or (weight_in tier tier_weights) (get_or (weight_in background tier_weights) 0)

unfoldable pub boost_for : Bool → ℕ
boost_for halted = if halted then halted_boost else 100

module _ (scale : Scale) where
  open scale use {Score, hundredths, log1p_rupees, times, less}

  unfoldable pub score : ℕ → ℕ → Bool → Score
  score tier amount_paise halted =
      times (times (hundredths (tier_weight tier)) (log1p_rupees amount_paise))
        (hundredths (boost_for halted))

  unfoldable pub score_for : RecoveryCase → Score
  score_for case = score case.priority_tier case.original_amount (is_some case.halted_at)

  -- `ORDER BY score DESC, created_at`, with the score as `score_expression` renders it.
  unfoldable pub goes_before : RecoveryCase → RecoveryCase → Bool
  goes_before a b =
      if less (score_for b) (score_for a)
      then true
      else if less (score_for a) (score_for b)
      then false
      else leb (get_or a.created_at 0) (get_or b.created_at 0)
