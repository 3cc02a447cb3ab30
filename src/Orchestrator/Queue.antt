-- ===== src/Orchestrator/Queue.antt =====
-- The claim of app/orchestrator.py: `_claim_actionable_cases` and `_customer_for`.
use dunning_agent.Prelude.{
  ℕ, Bool, true, ◌&&◌, not, Option, none, some, List, leb, truthy, get_or, filter, sort_by, take,
  if◌then◌else◌,
}
use dunning_agent.Model.{is_unfinished, Time, Customer, RecoveryCase}
use dunning_agent.World.{Db, get_customer}

-- `next_eligible_at IS NULL OR next_eligible_at <= now`
abbrev is_due : Option Time → Time → Bool
is_due none now = true
is_due (some t) now = leb t now

unfoldable pub is_actionable : Time → RecoveryCase → Bool
is_actionable now case = is_unfinished case.status && is_due case.next_eligible_at now

module _ (before : RecoveryCase → RecoveryCase → Bool) where
  unfoldable pub claim_actionable_cases : (ℕ → Bool) → ℕ → Time → Db → List RecoveryCase
  claim_actionable_cases locked limit now db =
      take limit
        (sort_by before (filter (λ case. is_actionable now case && not (locked case.id)) db.cases))

unfoldable pub customer_for : RecoveryCase → Db → Option Customer
customer_for case db =
    if not (truthy case.razorpay_customer_id)
    then none
    else get_customer (get_or case.razorpay_customer_id "") db
