-- ===== src/Store/Laws.antt =====
-- What app/store.py does with a payment that comes twice.
use dunning_agent.Prelude.{
  ℕ, String, true, Option, none, List, [], ◌∷◌, ◌++◌, ◌≡◌, refl, ap, ◌∙◌, arith, eq_iff, Bool-cases,
  inl, inr,
}
use dunning_agent.Model.{CaseSource, Time, RecoveryCase}
use dunning_agent.World.{Db, World, Env, PaymentEntity, ok}
use dunning_agent.Store.{has_case, insert_case, new_case, open_recovery_case}

has_case-append :
    (case : RecoveryCase) (cases : List RecoveryCase)
    → has_case case.razorpay_payment_id (cases ++ case ∷ []) ≡ true
has_case-append case [] = ground (arith, eq_iff case.razorpay_payment_id case.razorpay_payment_id)
has_case-append case (row ∷ cases) = ground (arith, has_case-append case cases)

has_case-insert :
    (case : RecoveryCase) (d : Db)
    → has_case case.razorpay_payment_id (insert_case case d).cases ≡ true
has_case-insert case d = elim (Bool-cases (has_case case.razorpay_payment_id d.cases)) [
  | inl e ↦ rw e e
  | inr e ↦ rw e (has_case-append case d.cases)
]

-- Opening a case is safe to replay: whatever else a second delivery of a payment with the same
-- identifier says, its amount, error and invoice included, it opens no second case and changes none.
pub open_recovery_case_twice :
    (env env' : Env) (payment payment' : PaymentEntity) (w : World)
    (subscription subscription' customer customer' : Option String) (source source' : CaseSource)
    (tier tier' : Option ℕ) (next next' : Option Time)
    → payment'.id ≡ payment.id
    → let first = open_recovery_case env payment subscription customer source tier next w in
      let second =
        open_recovery_case env' payment' subscription' customer' source' tier' next' first.1 in
      (second.0 ≡ ok none) × (second.1.db.cases ≡ first.1.db.cases)
unfolding open_recovery_case
open_recovery_case_twice env env' payment payment' w subscription subscription' customer customer'
      source source' tier tier' next next' same =
    let case =
      new_case w.db.next_case_id (env.clock w.reads) payment subscription customer source tier
        next in
    let known : has_case payment'.id (insert_case case w.db).cases ≡ true =
      ap (λ id. has_case id (insert_case case w.db).cases) same ∙ has_case-insert case w.db in
    rw known (refl, refl)
