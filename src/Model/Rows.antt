-- ===== src/Model/Rows.antt =====
-- app/models.py: one record for each table that the recovery loop works on. A nullable column is
-- an Option. Timestamps that the database fills in by itself are left out, but for `created_at` of
-- the two tables that are read by age.
use dunning_agent.Prelude.{ℕ, Bool, String, Option, List}
use dunning_agent.Model.Constants.{CaseStatus, CaseSource, ActionType, CallStatus}
use dunning_agent.Prelude.Text.{Codes}
use dunning_agent.Model.Config.{Time}

-- The values of an audit row's metadata.
pub data Value : Type 0 where
  null : Value
  bool : Bool → Value
  num : ℕ → Value
  text : String → Value
  texts : List String → Value
  chars : Codes → Value

abbrev pub Metadata : Type 0
Metadata = List (String × Value)

pub record Customer : Type 0 where
  pub razorpay_customer_id : String
  pub name : Option String
  pub phone : Option String
  pub email : Option String
  pub preferred_language : String
  pub do_not_contact : Bool
  pub do_not_contact_reason : Option String
  pub do_not_contact_at : Option Time
  pub phone_is_wrong : Bool
  pub last_contacted_at : Option Time

pub record Subscription : Type 0 where
  pub razorpay_subscription_id : String
  pub razorpay_customer_id : Option String
  pub razorpay_plan_id : Option String
  pub status : Option String

pub record Payment : Type 0 where
  pub razorpay_payment_id : String
  pub razorpay_invoice_id : Option String
  pub razorpay_subscription_id : Option String
  pub razorpay_customer_id : Option String
  pub razorpay_order_id : Option String
  pub amount : ℕ
  pub currency : String
  pub status : String
  pub method : Option String
  pub error_code : Option String
  pub error_description : Option String
  pub error_reason : Option String
  pub error_source : Option String
  pub error_step : Option String
  pub notes : Option Metadata

pub record RecoveryCase : Type 0 where
  pub id : ℕ
  pub razorpay_payment_id : String
  pub razorpay_invoice_id : Option String
  pub razorpay_subscription_id : Option String
  pub razorpay_customer_id : Option String
  pub razorpay_order_id : Option String
  pub original_amount : ℕ
  pub currency : String
  pub failure_code : Option String
  pub failure_reason : Option String
  pub failure_source : Option String
  pub failure_reason_code : Option String
  pub failure_step : Option String
  pub priority_tier : ℕ
  pub status : CaseStatus
  pub source : CaseSource
  pub attempt_count : ℕ
  pub max_attempts : ℕ
  pub delivery_failures : ℕ
  pub last_attempt_at : Option Time
  pub next_eligible_at : Option Time
  pub halted_at : Option Time
  pub promised_at : Option Time
  pub promise_due_at : Option Time
  pub recovered_payment_id : Option String
  pub recovered_amount : Option ℕ
  pub recovered_at : Option Time
  pub payment_link_id : Option String
  pub payment_link_url : Option String
  pub payment_link_sent_at : Option Time
  pub created_at : Option Time

pub record RecoveryAction : Type 0 where
  pub recovery_case_id : ℕ
  pub action_type : ActionType
  pub metadata_json : Metadata

pub record VoiceCall : Type 0 where
  pub id : ℕ
  pub recovery_case_id : ℕ
  pub provider : String
  pub room_name : Option String
  pub call_id : Option String
  pub dialled_number : Option String
  pub status : CallStatus
  pub answered_at : Option Time
  pub ended_at : Option Time
  pub duration_seconds : Option ℕ
  pub detected_intent : Option String
  pub final_node_id : Option String
  pub transitions : Option (List Metadata)
  pub transcript : Option String
  pub error : Option String
