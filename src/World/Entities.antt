-- ===== src/World/Entities.antt =====
-- The entities of Razorpay's API that the program reads (as dictionaries, by key) and the requests
-- that the program makes: app/razorpay/client.py, app/channels.py.
use dunning_agent.Prelude.{ℕ, String, Bool, Option}
use dunning_agent.Prelude.Text.{Codes}
use dunning_agent.Model.{Metadata}

pub record InvoiceEntity : Type 0 where
  pub subscription_id : Option String
  pub customer_id : Option String

pub record CustomerEntity : Type 0 where
  pub id : String
  pub name : Option String
  pub contact : Option String
  pub email : Option String

pub record SubscriptionEntity : Type 0 where
  pub id : String
  pub customer_id : Option String
  pub plan_id : Option String
  pub status : Option String
  pub short_url : Option String
  pub auth_attempts : Option ℕ

-- A missing or empty key of the payment is `none`; `notes` is `none` where it is no object.
pub record PaymentEntity : Type 0 where
  pub id : String
  pub invoice_id : Option String
  pub order_id : Option String
  pub amount : Option ℕ
  pub currency : Option String
  pub status : Option String
  pub method : Option String
  pub error_code : Option String
  pub error_description : Option String
  pub error_reason : Option String
  pub error_source : Option String
  pub error_step : Option String
  pub contact : Option String
  pub email : Option String
  pub notes : Option Metadata

pub record LinkEntity : Type 0 where
  pub id : String
  pub short_url : String
  pub reference_id : Option Codes
  pub notes : Option Metadata

-- A saved instrument; `status` is `recurring_details.status`.
pub record Token : Type 0 where
  pub id : String
  pub recurring : Bool
  pub status : Option String
  pub expired_at : Option ℕ
  pub max_amount : Option ℕ
  pub used_at : Option ℕ

pub record LinkPayload : Type 0 where
  pub amount : ℕ
  pub currency : String
  pub company_name : String  -- in the description
  pub reference_id : Codes
  pub expire_by : ℕ
  pub recovery_case_id : Codes
  pub failed_payment_id : String
  pub notify_sms : Bool
  pub notify_email : Bool
  pub name : Option String
  pub contact : Option String
  pub email : Option String

pub record OrderPayload : Type 0 where
  pub amount : ℕ
  pub currency : String
  pub receipt : Codes
  pub recovery_case_id : Codes

pub record ChargePayload : Type 0 where
  pub email : Option String
  pub contact : Option String
  pub amount : ℕ
  pub currency : String
  pub order_id : String
  pub customer_id : String
  pub token : String
  pub company_name : String  -- in the description
  pub recovery_case_id : Codes

-- What leaves the program.
pub data Request : Type 0 where
  fetch_invoice fetch_customer fetch_subscription fetch_customer_tokens : String → Request
  create_payment_link : LinkPayload → Request
  notify_payment_link : String → String → Request
  create_order : OrderPayload → Request
  create_recurring_payment : ChargePayload → Request
  place_call : ℕ → String → Request
  send_sms : String → String → Request
  build_redis : Request
  redis_set : String → ℕ → Request
  redis_delete redis_exists : String → Request
