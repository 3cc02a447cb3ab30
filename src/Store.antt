-- ===== src/Store.antt =====
-- app/store.py: the writes that the webhook handlers share. Each one may be replayed.
-- (`log_action` is in World/Monad.)
pub mod Laws
use dunning_agent.Prelude.{
  ℕ, ◌+◌, String, Bool, true, false, ◌&&◌, Option, none, some, List, [], ◌∷◌, ◌++◌, ltb, str_eq,
  truthy, get_or, any, filter, sort_by, map, if◌then◌else◌,
}
use dunning_agent.Model.{
  CaseStatus, CaseSource, is_unfinished, Time, Customer, Subscription, Payment, RecoveryCase,
  Metadata,
}
use dunning_agent.Priority.{tier_from}
use dunning_agent.World.{
  CustomerEntity, SubscriptionEntity, PaymentEntity, Db, Env, Exec, pure, gets, modify, utcnow,
  ◌>>=◌, ◌>>◌, save_case,
}

-- A nullable text equals a text.
abbrev pub holds : Option String → String → Bool
holds none s = false
holds (some t) s = str_eq t s

-- INSERT ... ON CONFLICT DO UPDATE: the rows that pass the test are refreshed, or a new one is added.
abbrev pub upsert : {A : Type 0} → (A → Bool) → (A → A) → A → List A → List A
upsert same refresh new rows =
    if any same rows
    then map (λ row. if same row then refresh row else row) rows
    else rows ++ new ∷ []

-- The columns that Razorpay does not know keep their defaults.
abbrev pub new_customer : CustomerEntity → Customer
new_customer entity = record {
  razorpay_customer_id = entity.id;
  name = entity.name;
  phone = entity.contact;
  email = entity.email;
  preferred_language = "hi";
  do_not_contact = false;
  do_not_contact_reason = none;
  do_not_contact_at = none;
  phone_is_wrong = false;
  last_contacted_at = none;
}

abbrev pub refreshed : CustomerEntity → Customer → Customer
refreshed entity customer = record customer {
  name = entity.name;
  phone = entity.contact;
  email = entity.email;
}

unfoldable pub upsert_customer : CustomerEntity → Exec (Unit {0})
upsert_customer entity = modify λ db. record db {
  customers =
      upsert (λ row. str_eq row.razorpay_customer_id entity.id) (refreshed entity)
        (new_customer entity) db.customers;
}

abbrev subscription_row : SubscriptionEntity → Subscription
subscription_row entity = record {
  razorpay_subscription_id = entity.id;
  razorpay_customer_id = entity.customer_id;
  razorpay_plan_id = entity.plan_id;
  status = entity.status;
}

unfoldable pub upsert_subscription : SubscriptionEntity → Exec (Unit {0})
upsert_subscription entity = modify λ db. record db {
  subscriptions =
      upsert (λ row. str_eq row.razorpay_subscription_id entity.id) (λ _. subscription_row entity)
        (subscription_row entity) db.subscriptions;
}

-- `entity.get("notes") or None`
abbrev some_notes : Option Metadata → Option Metadata
some_notes none = none
some_notes (some []) = none
some_notes (some (n ∷ ns)) = some (n ∷ ns)

abbrev payment_row : PaymentEntity → Option String → Option String → Payment
payment_row entity subscription_id customer_id = record {
  razorpay_payment_id = entity.id;
  razorpay_invoice_id = entity.invoice_id;
  razorpay_subscription_id = subscription_id;
  razorpay_customer_id = customer_id;
  razorpay_order_id = entity.order_id;
  amount = get_or entity.amount 0;
  currency = get_or entity.currency "INR";
  status = get_or entity.status "failed";
  method = entity.method;
  error_code = entity.error_code;
  error_description = entity.error_description;
  error_reason = entity.error_reason;
  error_source = entity.error_source;
  error_step = entity.error_step;
  notes = some_notes entity.notes;
}

unfoldable pub upsert_payment : PaymentEntity → Option String → Option String → Exec (Unit {0})
upsert_payment entity subscription_id customer_id =
    let new = payment_row entity subscription_id customer_id in
    modify λ db. record db {
      payments =
          upsert (λ row. str_eq row.razorpay_payment_id entity.id) (λ _. new) new db.payments;
    }

-- ORDER BY created_at
abbrev is_older : RecoveryCase → RecoveryCase → Bool
is_older a b = ltb (get_or a.created_at 0) (get_or b.created_at 0)

unfoldable pub get_open_cases_for_subscription : String → Db → List RecoveryCase
get_open_cases_for_subscription subscription_id db = sort_by is_older (
    filter
      (λ case. holds case.razorpay_subscription_id subscription_id && is_unfinished case.status)
      db.cases)

-- LIMIT 1
abbrev pub first : {A : Type 0} → List A → Option A
first [] = none
first (a ∷ rest) = some a

unfoldable pub get_open_case_for_invoice : String → Db → Option RecoveryCase
get_open_case_for_invoice invoice_id db = first (
    sort_by is_older (
      filter (λ case. holds case.razorpay_invoice_id invoice_id && is_unfinished case.status)
        db.cases))

-- `a or b`
abbrev either_text : Option String → Option String → Option String
either_text a b = if truthy a then a else b

-- The row that `open_recovery_case` inserts, with the defaults of app/models.py.
abbrev pub new_case :
    ℕ
    → Time
    → PaymentEntity
    → Option String
    → Option String
    → CaseSource
    → Option ℕ
    → Option Time
    → RecoveryCase
new_case id created payment subscription_id customer_id source priority_tier next_eligible_at =
    record {
      id = id;
      razorpay_payment_id = payment.id;
      razorpay_invoice_id = payment.invoice_id;
      razorpay_subscription_id = subscription_id;
      razorpay_customer_id = customer_id;
      razorpay_order_id = payment.order_id;
      original_amount = get_or payment.amount 0;
      currency = get_or payment.currency "INR";
      failure_code = payment.error_code;
      failure_reason = either_text payment.error_description payment.error_reason;
      failure_source = payment.error_source;
      failure_reason_code = payment.error_reason;
      failure_step = payment.error_step;
      priority_tier =
          get_or priority_tier
            (tier_from payment.error_source payment.error_reason payment.error_step);
      status = CaseStatus.open_case;
      source = source;
      attempt_count = 0;
      max_attempts = 3;
      delivery_failures = 0;
      last_attempt_at = none;
      next_eligible_at = next_eligible_at;
      halted_at = none;
      promised_at = none;
      promise_due_at = none;
      recovered_payment_id = none;
      recovered_amount = none;
      recovered_at = none;
      payment_link_id = none;
      payment_link_url = none;
      payment_link_sent_at = none;
      created_at = some created;
    }

-- Whether a case has the payment already.
abbrev pub has_case : String → List RecoveryCase → Bool
has_case payment_id cases = any (λ row. str_eq row.razorpay_payment_id payment_id) cases

-- The identifier comes from a sequence, which moves on a conflict too.
abbrev pub insert_case : RecoveryCase → Db → Db
insert_case case db =
    let moved = record db { next_case_id = db.next_case_id + 1 } in
    if has_case case.razorpay_payment_id db.cases
    then moved
    else (record moved { cases = db.cases ++ case ∷ [] })

abbrev unless_known : RecoveryCase → Bool → Option RecoveryCase
unless_known case true = none
unless_known case false = some case

-- ON CONFLICT DO NOTHING: the case that was opened, or `none` where the payment has one. The
-- database's clock gives `created_at`.
unfoldable pub open_recovery_case :
    Env
    → PaymentEntity
    → Option String
    → Option String
    → CaseSource
    → Option ℕ
    → Option Time
    → Exec (Option RecoveryCase)
open_recovery_case env payment subscription_id customer_id source priority_tier next_eligible_at =
    do
      created ← utcnow env
      id ← gets (λ db. db.next_case_id)
      known ← gets (λ db. has_case payment.id db.cases)
      let case =
          new_case id created payment subscription_id customer_id source priority_tier
            next_eligible_at
      modify (insert_case case)
      pure (unless_known case known)

abbrev is_recovered : CaseStatus → Bool
is_recovered CaseStatus.recovered = true
is_recovered _ = false

abbrev recovered_case : String → ℕ → Time → RecoveryCase → RecoveryCase
recovered_case payment_id amount now case = record case {
  status = CaseStatus.recovered;
  recovered_payment_id = some payment_id;
  recovered_amount = some amount;
  recovered_at = some now;
}

abbrev pub recover_unless : Env → RecoveryCase → String → ℕ → Bool → Exec Bool
recover_unless env case payment_id amount true = pure false
recover_unless env case payment_id amount false = do
  now ← utcnow env
  save_case (recovered_case payment_id amount now case)
  pure true

-- False where the case was recovered already.
unfoldable pub mark_recovered : Env → RecoveryCase → String → ℕ → Exec Bool
mark_recovered env case payment_id amount =
    recover_unless env case payment_id amount (is_recovered case.status)
