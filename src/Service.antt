-- ===== src/Service.antt =====
-- The ways into the program: app/webhooks/router.py, app/webhooks/pubsub_router.py, app/events.py,
-- app/razorpay/signature.py, and the pass of app/worker.py.
pub mod Deliveries
use dunning_agent.Prelude.{
  ℕ, ◌+◌, String, Bool, true, false, ◌&&◌, ◌||◌, not, Option, none, some, List, [], ◌∷◌, ◌++◌, ◌==◌,
  str_eq, if◌then◌else◌, drop, truthy, get_or,
}
use dunning_agent.Prelude.Text.{Codes, codes, codes_eq, strip, lower}
use dunning_agent.Model.{Settings}
use dunning_agent.World.{World, Env, Exn, Result, ok, err}
use dunning_agent.Handlers.{Event, EventName}
use dunning_agent.PaymentLinks.{starts_with}
use dunning_agent.Processor.{WebhookEvent, Inbox, process_event, record_event}

-- The module variables `_publisher` and `_unavailable` of app/events.py.
pub data Publisher : Type 0 where
  unbuilt built unavailable : Publisher

pub record Service : Type 0 where
  pub inbox : Inbox
  pub publisher : Publisher
  pub published : List ℕ

-- What Pub/Sub answers: to the building of its client, and to a message.
pub record Broker : Type 0 where
  pub topic : Codes
  pub on_build : Result (Unit {0})
  pub on_publish : ℕ → Result (Unit {0})

abbrev after_build : Result (Unit {0}) → Service → Bool × Service
after_build (ok _) s = (true, record s { publisher = built })
after_build (err _) s = (false, record s { publisher = unavailable })

-- `_client`: true where it returns a publisher.
unfoldable pub client : Broker → Service → Bool × Service
client broker s = elim s.publisher [
  | unavailable ↦ (false, s)
  | built ↦ (true, s)
  | unbuilt ↦ elim (strip broker.topic) [
    | [] ↦ (false, record s { publisher = unavailable })
    | (c ∷ topic) ↦ after_build broker.on_build s
  ]
]

abbrev after_publish : ℕ → Result (Unit {0}) → Service → Bool × Service
after_publish pk (ok _) s = (true, record s { published = pk ∷ s.published })
after_publish pk (err _) s = (false, s)

-- `announce_event`
unfoldable pub announce_event : Broker → ℕ → Service → Bool × Service
announce_event broker pk s =
    let (has_client, s') = client broker s in
    if has_client then after_publish pk (broker.on_publish pk) s' else (false, s')

-- `json.loads(raw_body)` and `payload.get("event")`.
pub data Body : Type 0 where
  malformed unnamed : Body
  named : EventName → Event → Body

-- The five answers; an exception of the database is a 500. An accepted event is processed in the
-- background once the answer is out.
pub data Response : Type 0 where
  invalid_signature malformed_body missing_event duplicate : Response
  accepted : ℕ → Response
  server_error : Exn → Response

pub record WebhookRequest : Type 0 where
  pub raw_body : Codes
  pub signature : Option Codes  -- X-Razorpay-Signature
  pub event_id : Option String  -- X-Razorpay-Event-Id

-- `hmac secret body` is the hexadecimal HMAC-SHA256, `digest body` the hexadecimal SHA-256.
module _ (hmac : Codes → Codes → Codes) (digest : Codes → String) (loads : Codes → Body) where
  -- `verify_webhook_signature`
  unfoldable pub verify_webhook_signature : Codes → Option Codes → Codes → Bool
  verify_webhook_signature raw_body none secret = false
  verify_webhook_signature raw_body (some []) secret = false
  verify_webhook_signature raw_body (some (c ∷ signature)) [] = false
  verify_webhook_signature raw_body (some (c ∷ signature)) (s ∷ secret) =
      codes_eq (hmac (s ∷ secret) raw_body) (c ∷ signature)

  -- `x_razorpay_event_id or hashlib.sha256(raw_body).hexdigest()`
  abbrev pub event_id_of : WebhookRequest → String
  event_id_of request =
      if truthy request.event_id then get_or request.event_id "" else digest request.raw_body

  module _ (env : Env) (settings : Settings) (secret : Codes) (broker : Broker)
      (trouble : Option Exn) where
    abbrev answer : Result (Option WebhookEvent) → Service → Response × Service
    answer (err e) s = (server_error e, s)
    answer (ok none) s = (duplicate, s)
    answer (ok (some event)) s = (accepted event.id, (announce_event broker event.id s).1)

    unfoldable pub receive : WebhookRequest → Body → Service → Response × Service
    receive request malformed s = (malformed_body, s)
    receive request unnamed s = (missing_event, s)
    receive request (named name payload) s =
        let (r, inbox) =
          record_event env settings trouble (event_id_of request) name payload s.inbox in
        answer r (record s { inbox = inbox })

    -- `razorpay_webhook`
    unfoldable pub razorpay_webhook : WebhookRequest → Service → Response × Service
    razorpay_webhook request s =
        if verify_webhook_signature request.raw_body request.signature secret
        then receive request (loads request.raw_body) s
        else (invalid_signature, s)

-- The answers of the push endpoint.
pub data PushResponse : Type 0 where
  not_configured unauthenticated invalid_token wrong_principal acknowledged : PushResponse

-- The claims that google.oauth2 reads from a token.
pub record Claims : Type 0 where
  pub email : Option Codes
  pub email_verified : Bool

-- `message.data`, decoded: absent, unreadable, or the key of an envelope.
pub data Message : Type 0 where
  no_data unreadable : Message
  key : ℕ → Message

-- `verify_oauth2_token token` is `none` where it raises.
module _ (service_account : Codes) (verify_oauth2_token : Codes → Option Claims) where
  abbrev after_space : Codes → Codes
  after_space [] = []
  after_space (c ∷ text) = let rest = after_space text in if c == b' ' then text else rest

  abbrev is_ours : Claims → Bool
  is_ours claims = elim claims.email [
    | none ↦ false
    | some email ↦ codes_eq email (strip service_account) && claims.email_verified
  ]

  abbrev pub of_claims : Option Claims → PushResponse
  of_claims none = invalid_token
  of_claims (some claims) = if is_ours claims then acknowledged else wrong_principal

  abbrev of_header : Option Codes → PushResponse
  of_header none = unauthenticated
  of_header (some authorization) =
      if starts_with (lower authorization) (codes "bearer ")
      then of_claims (verify_oauth2_token (after_space authorization))
      else unauthenticated

  -- `_verify_push_token`; `acknowledged` is that it raises nothing.
  unfoldable pub verify_push_token : Option Codes → PushResponse
  verify_push_token authorization = elim (strip service_account) [
    | [] ↦ not_configured
    | (c ∷ account) ↦ of_header authorization
  ]

  module _ (env : Env) (settings : Settings) (traceback : Exn → String) where
    abbrev handle : PushResponse → Message → Inbox → PushResponse × Inbox
    handle acknowledged (key pk) inbox =
        (acknowledged, process_event env settings traceback pk inbox)
    handle response message inbox = (response, inbox)

    -- `pubsub_push`
    unfoldable pub pubsub_push : Option Codes → Message → Inbox → PushResponse × Inbox
    pubsub_push authorization message inbox = handle (verify_push_token authorization) message inbox
