-- ===== src/Tests/Fixtures.antt =====
-- Rows, settings and an environment for the runs of the other modules.
use dunning_agent.Prelude.{ℕ, ◌+◌, String, true, false, none, some, [], ◌∷◌}
use dunning_agent.Prelude.Text.{codes}
use dunning_agent.Model.{CaseStatus, CaseSource, Time, hours, Settings, Customer, RecoveryCase}
use dunning_agent.World.{
  Db, World, RedisMemo, Env, razorpay_error, other_error, ok, err, PaymentEntity, Token,
}
use dunning_agent.Handlers.{Event}

abbrev pub settings : Settings
settings = record {
  redis_url = codes "";
  redis_event_ttl_seconds = 86400;
  min_recoverable_amount_paise = 10000;
  retry_backoff_hours = 24;
  contact_window_start_hour = 9;
  contact_window_end_hour = 20;
  contact_timezone = "Asia/Kolkata";
  checkout_grace_minutes = 20;
  webhook_max_attempts = 5;
  max_delivery_failures = 5;
  mandate_retry_enabled = false;
  customer_contact_cooldown_hours = 24;
  bank_retry_grace_hours = 24;
  payment_reference_namespace = codes "";
  payment_link_expiry_hours = 72;
  promise_window_hours = 24;
  worker_batch_size = 10;
  company_name = "Acme";
}

abbrev pub retrying : Settings
retrying = record settings { mandate_retry_enabled = true }

abbrev pub noon : String → Time → ℕ
noon zone now = 12

abbrev pub today : Time
today = hours 500000

abbrev pub customer : Customer
customer = record {
  razorpay_customer_id = "cust_1";
  name = some "Asha";
  phone = some "+919876543210";
  email = some "asha@example.com";
  preferred_language = "hi";
  do_not_contact = false;
  do_not_contact_reason = none;
  do_not_contact_at = none;
  phone_is_wrong = false;
  last_contacted_at = none;
}

-- An expired card: the instrument is dead.
abbrev pub expired_case : RecoveryCase
expired_case = record {
  id = 7;
  razorpay_payment_id = "pay_7";
  razorpay_invoice_id = some "inv_7";
  razorpay_subscription_id = some "sub_1";
  razorpay_customer_id = some "cust_1";
  razorpay_order_id = none;
  original_amount = 49900;
  currency = "INR";
  failure_code = none;
  failure_reason = none;
  failure_source = some "customer";
  failure_reason_code = some "card_expired";
  failure_step = none;
  priority_tier = 1;
  status = CaseStatus.open_case;
  source = CaseSource.razorpay;
  attempt_count = 0;
  max_attempts = 3;
  delivery_failures = 0;
  last_attempt_at = none;
  next_eligible_at = none;
  halted_at = none;
  promised_at = none;
  promise_due_at = none;
  recovered_payment_id = none;
  recovered_amount = none;
  recovered_at = none;
  payment_link_id = none;
  payment_link_url = none;
  payment_link_sent_at = none;
  created_at = some (hours 499990);
}

-- Another case of the same customer.
abbrev second_case : RecoveryCase
second_case = record expired_case { id = 8; razorpay_payment_id = "pay_8" }

-- Too little money.
abbrev pub funds_case : RecoveryCase
funds_case = record expired_case {
  failure_reason_code = some "insufficient_funds";
  priority_tier = 2;
}

abbrev pub db : Db
db = record {
  customers = customer ∷ [];
  subscriptions = [];
  payments = [];
  cases = expired_case ∷ second_case ∷ [];
  actions = [];
  voice_calls = [];
  next_case_id = 9;
  next_call_id = 1;
}

abbrev pub world : World
world = record { db = db; sent = []; reads = 0; redis = RedisMemo.unbuilt }

abbrev pub token : Token
token = record {
  id = "token_1";
  recurring = true;
  status = some "confirmed";
  expired_at = none;
  max_amount = some 100000;
  used_at = some 5;
}

abbrev pub env : Env
env = record {
  clock = λ n. today + n;
  on_fetch_invoice =
      λ _ _. ok (record { subscription_id = some "sub_1"; customer_id = some "cust_1" });
  on_fetch_customer = λ id _.
      ok (record { id = id; name = some "Asha"; contact = some "+919876543210"; email = none });
  on_fetch_subscription = λ id _. ok (record {
    id = id;
    customer_id = some "cust_1";
    plan_id = none;
    status = some "active";
    short_url = none;
    auth_attempts = none;
  });
  on_fetch_customer_tokens = λ _ _. ok (token ∷ []);
  on_create_payment_link = λ payload _. ok (record {
    id = "plink_1";
    short_url = "https://rzp.io/i/1";
    reference_id = some payload.reference_id;
    notes = none;
  });
  on_notify_payment_link = λ _ _ _. ok tt;
  on_create_order = λ _ _. ok "order_1";
  on_create_recurring_payment = λ _ _. ok (some "pay_9");
  on_place_call = λ _ _ _. ok [];
  on_send_sms = λ _ _ _. ok none;
  on_build_redis = λ _. ok tt;
  on_redis_set = λ _ _ _. ok true;
  on_redis_delete = λ _ _. ok tt;
  on_redis_exists = λ _ _. ok false;
  repr = λ _. "error";
}

-- Razorpay refuses every invoice, and Redis fails on every command.
abbrev pub failing_env : Env
failing_env = record env {
  on_fetch_invoice = λ _ _. err (razorpay_error 404);
  on_redis_set = λ _ _ _. err other_error;
  on_redis_exists = λ _ _. err other_error;
}

abbrev pub payment : PaymentEntity
payment = record {
  id = "pay_7";
  invoice_id = some "inv_7";
  order_id = none;
  amount = some 49900;
  currency = some "INR";
  status = some "failed";
  method = some "card";
  error_code = none;
  error_description = none;
  error_reason = some "card_expired";
  error_source = some "customer";
  error_step = none;
  contact = none;
  email = none;
  notes = none;
}

abbrev pub event : Event
event = record {
  razorpay_event_id = "evt_1";
  payment = some payment;
  subscription = none;
  order_id = none;
  payment_link = none;
}
