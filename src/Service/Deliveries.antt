-- ===== src/Service/Deliveries.antt =====
-- app/webhooks/router.py: a webhook that is delivered again.
use dunning_agent.Prelude.{
  ℕ, String, true, Option, none, some, List, [], ◌∷◌, ◌++◌, ◌≡◌, refl, ap, ◌∙◌, arith, any, str_eq,
  eq_iff, Bool-cases, Option-cases, inl, inr,
}
use dunning_agent.Prelude.Text.{Codes}
use dunning_agent.Model.{Settings}
use dunning_agent.World.{Env, Exn, ok}
use dunning_agent.World.Returns.{Returns-ok}
use dunning_agent.Cache.Laws.{cache_total}
use dunning_agent.Calls.Links.{Result-cases}
use dunning_agent.Handlers.{Event, EventName}
use dunning_agent.Processor.{
  WebhookEvent, Inbox, record_event, record_unless, commit_event, is_known, webhook_key,
}
use dunning_agent.Service.{
  Service, Broker, Body, malformed, unnamed, named, accepted, duplicate, WebhookRequest, client,
  announce_event, verify_webhook_signature, event_id_of, receive, razorpay_webhook,
}

is_known-snoc :
    (env : Env) (settings : Settings) (trouble : Option Exn) (id : String)
    (events : List WebhookEvent) (event : WebhookEvent)
    → event.razorpay_event_id ≡ id
    → is_known env settings trouble id (events ++ event ∷ []) ≡ true
is_known-snoc env settings trouble id [] event e = ground (arith, eq_iff event.razorpay_event_id id)
is_known-snoc env settings trouble id (x ∷ events) event e =
    ground (arith, is_known-snoc env settings trouble id events event e)

module _ (env : Env) (settings : Settings) (id : String) (name : EventName) (payload : Event)
    (inbox : Inbox) where
  -- A known identifier is refused, with the cache or without it.
  record_event-known :
      (any (λ (row : WebhookEvent). str_eq row.razorpay_event_id id) inbox.events ≡ true)
      → ((record_event env settings none id name payload inbox).0 ≡ ok none)
        × ((record_event env settings none id name payload inbox).1.events ≡ inbox.events)
  unfolding record_event record_unless commit_event
  record_event-known known =
      let total =
        (cache_total env settings (webhook_key id) settings.redis_event_ttl_seconds
          inbox.world).0 in
      let (b, e, _) = Returns-ok (λ _. Unit) _ total in
      elim (Bool-cases b) [ inl t ↦ rw (e, t) (refl, refl) | inr f ↦ rw (e, f, known) (refl, refl) ]

  -- An event that is recorded is known from then on.
  record_event-recorded :
      (trouble : Option Exn) (event : WebhookEvent)
      → (record_event env settings trouble id name payload inbox).0 ≡ ok (some event)
      → any
          (λ (row : WebhookEvent). str_eq row.razorpay_event_id id)
          (record_event env settings trouble id name payload inbox).1.events
        ≡ true
  unfolding record_event record_unless commit_event
  record_event-recorded trouble event h =
      let total =
        (cache_total env settings (webhook_key id) settings.redis_event_ttl_seconds
          inbox.world).0 in
      let (b, e, _) = Returns-ok (λ _. Unit) _ total in
      elim (Bool-cases b) [
        | inl t ↦ cc (rw (e, t) at h)
        | inr f ↦ elim (Option-cases trouble) [
          | inr (x, t) ↦ cc (rw (e, f, t) at h)
          | inl t ↦
              elim (Bool-cases
                (any (λ (row : WebhookEvent). str_eq row.razorpay_event_id id) inbox.events)) [
                  | inl k ↦ cc (rw (e, f, t, k) at h)
                  | inr k ↦ rw (e, f, t, k) (is_known-snoc env settings none id inbox.events _ refl)
                ]
        ]
      ]

announce_event-inbox :
    (broker : Broker) (pk : ℕ) (s : Service) → (announce_event broker pk s).1.inbox ≡ s.inbox
unfolding announce_event client
announce_event-inbox broker pk s = ground arith

module _ (hmac : Codes → Codes → Codes) (digest : Codes → String) (loads : Codes → Body)
    (settings : Settings) (secret : Codes) (broker broker' : Broker)
    (request : WebhookRequest) where
  abbrev IsKnown : Service → Type 0
  IsKnown s =
      any
        (λ (row : WebhookEvent).
          str_eq row.razorpay_event_id (event_id_of hmac digest loads request))
        s.inbox.events
      ≡ true

  receive-known :
      (env : Env) (name : EventName) (payload : Event) (s : Service)
      → IsKnown s
      → ((receive hmac digest loads env settings secret broker' none request
            (named name payload)
            s).0
          ≡ duplicate)
        × ((receive hmac digest loads env settings secret broker' none request
              (named name payload)
              s).1.inbox.events
            ≡ s.inbox.events)
  unfolding receive
  receive-known env name payload s known =
      let (e, same) =
        record_event-known env settings (event_id_of hmac digest loads request) name payload s.inbox
          known in
      rw e (refl, same)

  receive-accepted :
      (env : Env) (trouble : Option Exn) (name : EventName) (payload : Event) (pk : ℕ) (s : Service)
      → (receive hmac digest loads env settings secret broker trouble request
          (named name payload)
          s).0
        ≡ accepted pk
      → IsKnown
          (receive hmac digest loads env settings secret broker trouble request
            (named name payload)
            s).1
  unfolding receive
  receive-accepted env trouble name payload pk s h =
      let id = event_id_of hmac digest loads request in
      elim (Result-cases (record_event env settings trouble id name payload s.inbox).0) [
        | inr (e, p) ↦ cc (rw p at h)
        | inl (none, p) ↦ cc (rw p at h)
        | inl (some event, p) ↦
            let recorded =
              record_event-recorded env settings id name payload s.inbox trouble event p in
            rw p (
              ap
                (λ (i : Inbox).
                  any (λ (row : WebhookEvent). str_eq row.razorpay_event_id id) i.events)
                (announce_event-inbox broker event.id _)
              ∙ recorded)
      ]

  -- A webhook that was accepted is answered as a duplicate when Razorpay delivers it again, and adds no
  -- second envelope: with the cache or without it, and whatever became of the announcement.
  pub razorpay_webhook_twice :
      (env env' : Env) (trouble : Option Exn) (pk : ℕ) (s : Service)
      → (razorpay_webhook hmac digest loads env settings secret broker trouble request s).0
        ≡ accepted pk
      → let s' =
          (razorpay_webhook hmac digest loads env settings secret broker trouble request s).1 in
        let (again, s'') =
          razorpay_webhook hmac digest loads env' settings secret broker' none request s' in
        (again ≡ duplicate) × (s''.inbox.events ≡ s'.inbox.events)
  unfolding razorpay_webhook
  razorpay_webhook_twice env env' trouble pk s h =
      elim (Bool-cases
        (verify_webhook_signature hmac digest loads request.raw_body request.signature secret)) [
          | inr f ↦ cc (rw f at h)
          | inl v ↦ rw v (received_twice (loads request.raw_body) (rw v at h))
        ]
    where
      received_twice :
          (body : Body)
          → (receive hmac digest loads env settings secret broker trouble request body s).0
            ≡ accepted pk
          → ((receive hmac digest loads env' settings secret broker' none request body
                (receive hmac digest loads env settings secret broker trouble request body s).1).0
              ≡ duplicate)
            × ((receive hmac digest loads env' settings secret broker' none request body
                  (receive hmac digest loads env settings secret broker trouble request body
                    s).1).1.inbox.events
                ≡ (receive hmac digest loads env settings secret broker trouble request body
                    s).1.inbox.events)
      received_twice malformed e = unfold receive in cc
      received_twice unnamed e = unfold receive in cc
      received_twice (named name payload) e =
          receive-known env' name payload
            (receive hmac digest loads env settings secret broker trouble request
              (named name payload) s).1
            (receive-accepted env trouble name payload pk s e)
