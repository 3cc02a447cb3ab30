-- ===== src/Model/Config.antt =====
-- app/config.py: the settings that the recovery loop reads, and datetimes.
use dunning_agent.Prelude.{ℕ, ◌*◌, Bool, String}
use dunning_agent.Prelude.Text.{Codes}

-- A datetime: the microseconds since the epoch, which is the resolution of Python's datetimes.
abbrev pub Time : Type 0
Time = ℕ

-- `timedelta(hours=h)`, `timedelta(minutes=m)`, `timedelta(seconds=s)`
abbrev pub hours : ℕ → ℕ
hours h = h * 3_600_000_000

abbrev pub minutes : ℕ → ℕ
minutes m = m * 60_000_000

abbrev pub seconds : ℕ → ℕ
seconds s = s * 1_000_000

pub record Settings : Type 0 where
  pub redis_url : Codes
  pub redis_event_ttl_seconds : ℕ
  pub min_recoverable_amount_paise : ℕ
  pub retry_backoff_hours : ℕ
  pub contact_window_start_hour : ℕ
  pub contact_window_end_hour : ℕ
  pub contact_timezone : String
  pub checkout_grace_minutes : ℕ
  pub webhook_max_attempts : ℕ
  pub max_delivery_failures : ℕ
  pub mandate_retry_enabled : Bool
  pub customer_contact_cooldown_hours : ℕ
  pub bank_retry_grace_hours : ℕ
  pub payment_reference_namespace : Codes
  pub payment_link_expiry_hours : ℕ
  pub promise_window_hours : ℕ
  pub worker_batch_size : ℕ
  pub company_name : String
