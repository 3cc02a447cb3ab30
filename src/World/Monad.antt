-- ===== src/World/Monad.antt =====
-- The state of a run, exceptions, and the environment. The answers of the outside are functions of
-- the requests made before, so that one question may be answered differently each time.
use dunning_agent.Prelude.{Bool, ℕ, ◌+◌, String, Option, List, [], ◌∷◌, ◌++◌}
use dunning_agent.Model.{
  Time, Customer, Subscription, Payment, RecoveryCase, RecoveryAction, VoiceCall, ActionType,
  Metadata,
}
use dunning_agent.World.Entities.{
  InvoiceEntity, CustomerEntity, SubscriptionEntity, LinkEntity, Token, LinkPayload, OrderPayload,
  ChargePayload, Request,
}

-- The tables. `next_case_id` and `next_call_id` are the sequences of their keys.
pub record Db : Type 0 where
  pub customers : List Customer
  pub subscriptions : List Subscription
  pub payments : List Payment
  pub cases : List RecoveryCase
  pub actions : List RecoveryAction
  pub voice_calls : List VoiceCall
  pub next_case_id : ℕ
  pub next_call_id : ℕ

-- The module variables `_client` and `_unavailable` of app/cache.py.
pub data RedisMemo : Type 0 where
  unbuilt built unavailable : RedisMemo

pub record World : Type 0 where
  pub db : Db
  pub sent : List Request
  pub reads : ℕ
  pub redis : RedisMemo

-- `razorpay_error status` is `RazorpayError`; `other_error` is any other exception.
pub data Exn : Type 0 where
  razorpay_error : ℕ → Exn
  key_error other_error : Exn

pub data Result (A : Type 0) : Type 0 where
  ok : A → Result A
  err : Exn → Result A

abbrev pub Exec : Type 0 → Type 0
Exec A = World → Result A × World

abbrev pub Answer : Type 0 → Type 0
Answer A = List Request → Result A

-- The clock, and what the methods of `RazorpayClient`, the contact channel and the SMS sender answer.
pub record Env : Type 0 where
  pub clock : ℕ → Time
  pub on_fetch_invoice : String → Answer InvoiceEntity
  pub on_fetch_customer : String → Answer CustomerEntity
  pub on_fetch_subscription : String → Answer SubscriptionEntity
  pub on_fetch_customer_tokens : String → Answer (List Token)
  pub on_create_payment_link : LinkPayload → Answer LinkEntity
  pub on_notify_payment_link : String → String → Answer (Unit {0})
  pub on_create_order : OrderPayload → Answer String
  pub on_create_recurring_payment : ChargePayload → Answer (Option String)
  pub on_place_call : RecoveryCase → Customer → Answer Metadata
  pub on_send_sms : String → String → Answer (Option String)
  pub on_build_redis : Answer (Unit {0})
  pub on_redis_set : String → ℕ → Answer Bool
  pub on_redis_delete : String → Answer (Unit {0})
  pub on_redis_exists : String → Answer Bool
  pub repr : Exn → String  -- Python's `repr(exc)`

module _ {A : Type 0} where
  abbrev pub pure : A → Exec A
  pure a w = (ok a, w)

  abbrev pub raise : Exn → Exec A
  raise e w = (err e, w)

  abbrev pub gets : (Db → A) → Exec A
  gets f w = (ok (f w.db), w)

  -- One request to the outside.
  abbrev pub ask : Request → Answer A → Exec A
  ask request answer w = (answer w.sent, record w { sent = request ∷ w.sent })

  -- `try: m except Exception`: the outcome as a value, with the state that `m` left.
  abbrev pub attempt : Exec A → Exec (Result A)
  attempt m w = let (r, w') = m w in (ok r, w')

abbrev pub modify : (Db → Db) → Exec (Unit {0})
modify f w = (ok tt, record w { db = f w.db })

-- `utcnow()`
abbrev pub utcnow : Env → Exec Time
utcnow env w = (ok (env.clock w.reads), record w { reads = w.reads + 1 })

abbrev pub set_memo : RedisMemo → Exec (Unit {0})
set_memo memo w = (ok tt, record w { redis = memo })

abbrev pub get_memo : Exec RedisMemo
get_memo w = (ok w.redis, w)

module _ {A B : Type 0} where
  abbrev pub continue : Result A → (A → Exec B) → Exec B
  continue (ok a) f w = f a w
  continue (err e) f w = (err e, w)

  infixl 10 ◌>>=◌ ◌>>◌
  abbrev pub ◌>>=◌ : Exec A → (A → Exec B) → Exec B
  ◌>>=◌ m f w = let (r, w') = m w in continue r f w'

  abbrev pub ◌>>◌ : Exec A → Exec B → Exec B
  m >> n = m >>= λ _. n

-- `for x in xs: body(x)`
abbrev pub for_each : {A : Type 0} → List A → (A → Exec (Unit {0})) → Exec (Unit {0})
for_each [] body = pure tt
for_each (x ∷ xs) body = body x >> for_each xs body

-- `log_action` of app/store.py: one more row of the audit trail.
unfoldable pub log_action : ℕ → ActionType → Metadata → Exec (Unit {0})
log_action case_id action_type metadata = modify λ db. record db {
  actions =
      db.actions
      ++ record { recovery_case_id = case_id; action_type = action_type; metadata_json = metadata }
        ∷ [];
}
