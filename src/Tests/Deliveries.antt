-- ===== src/Tests/Deliveries.antt =====
-- A webhook of app/webhooks/router.py that Razorpay delivers twice, and a push of
-- app/webhooks/pubsub_router.py.
use dunning_agent.Prelude.{String, true, Option, none, some, [], ◌≡◌, refl}
use dunning_agent.Prelude.Text.{Codes, codes, strip, lstrip, rstrip, lower, lower_code}
use dunning_agent.PaymentLinks.{starts_with}
use dunning_agent.World.{ok}
use dunning_agent.Cache.{seen, claim, redis}
use dunning_agent.Handlers.{EventName}
use dunning_agent.Processor.{record_event, record_unless, commit_event}
use dunning_agent.Service.{
  Service, Publisher, Broker, Body, named, accepted, duplicate, WebhookRequest, razorpay_webhook,
  receive, verify_webhook_signature, announce_event, client, Claims, verify_push_token,
  acknowledged,
}
use dunning_agent.Service.Deliveries.{razorpay_webhook_twice}
use dunning_agent.Tests.Fixtures.{env, failing_env, settings, world, event}

abbrev hmac : Codes → Codes → Codes
hmac secret body = secret

abbrev digest : Codes → String
digest body = "digest"

abbrev loads : Codes → Body
loads body = named EventName.payment_failed event

abbrev broker : Broker
broker = record { topic = codes "events"; on_build = ok tt; on_publish = λ pk. ok tt }

abbrev service : Service
service = record {
  inbox = record { world = world; events = []; next_id = 1 };
  publisher = Publisher.unbuilt;
  published = [];
}

abbrev request : WebhookRequest
request = record {
  raw_body = codes "{}";
  signature = some (codes "secret");
  event_id = some "evt_1";
}

first_accepted :
    (razorpay_webhook hmac digest loads env settings (codes "secret") broker none request service).0
    ≡ accepted 1
unfolding razorpay_webhook receive verify_webhook_signature record_event record_unless commit_event
    seen claim redis announce_event client strip lstrip rstrip
first_accepted = refl

razorpay_webhook_twice_example :
    let s' =
      (razorpay_webhook hmac digest loads env settings
        (codes "secret")
        broker
        none
        request
        service).1 in
    let (again, s'') =
      razorpay_webhook hmac digest loads failing_env settings
        (codes "secret")
        broker
        none
        request
        s' in
    (again ≡ duplicate) × (s''.inbox.events ≡ s'.inbox.events)
razorpay_webhook_twice_example =
    razorpay_webhook_twice hmac digest loads settings (codes "secret") broker broker request env
      failing_env none 1 service first_accepted

abbrev verify_oauth2_token : Codes → Option Claims
verify_oauth2_token token = some (record { email = some (codes "push@x"); email_verified = true })

push_accepted :
    verify_push_token (codes " push@x ") verify_oauth2_token (some (codes "Bearer abc"))
    ≡ acknowledged
unfolding verify_push_token strip lstrip rstrip lower lower_code starts_with
push_accepted = refl
