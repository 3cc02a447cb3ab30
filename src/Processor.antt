-- ===== src/Processor.antt =====
-- app/webhooks/processor.py: the inbox of webhook envelopes, and how each is handled, retried or
-- buried. A handler that raises leaves no trace in the tables: its session is rolled back.
pub mod Laws
pub mod Attempts
pub mod Retries
pub mod Exhausted
use Prim.Native.String.{◌++◌ as text_append}
use dunning_agent.Prelude.{
  ℕ, ◌+◌, String, Bool, true, false, ◌&&◌, ◌||◌, not, Option, none, some, List, [], ◌∷◌, ◌++◌, ◌==◌,
  ltb, leb, str_eq, any, find?, filter, sort_by, take, map, length, is_some, if◌then◌else◌,
}
use dunning_agent.Model.{Time, seconds, Settings}
use dunning_agent.World.{World, Env, Exn, razorpay_error, Result, ok, err, Exec, utcnow}
use dunning_agent.Cache.{seen, forget}
use dunning_agent.Handlers.{Event, EventName, handler_for}

pub record WebhookEvent : Type 0 where
  pub id : ℕ
  pub razorpay_event_id : String
  pub event : EventName
  pub payload : Event
  pub processed_at : Option Time
  pub processing_error : Option String
  pub attempt_count : ℕ
  pub dead_at : Option Time
  pub created_at : Time

-- The table of envelopes beside the rest.
pub record Inbox : Type 0 where
  pub world : World
  pub events : List WebhookEvent
  pub next_id : ℕ

abbrev pub webhook_key : String → String
webhook_key razorpay_event_id = text_append "webhook:" razorpay_event_id

abbrev pub put_event : WebhookEvent → List WebhookEvent → List WebhookEvent
put_event event rows = map (λ row. if row.id == event.id then event else row) rows

unfoldable pub get_event : ℕ → List WebhookEvent → Option WebhookEvent
get_event pk rows = find? (λ row. row.id == pk) rows

-- `utcnow()`
abbrev pub now_of : Env → World → Time
now_of env w = env.clock w.reads

abbrev pub tick_clock : World → World
tick_clock w = record w { reads = w.reads + 1 }

unfoldable pub is_retryable : Exn → Bool
is_retryable (razorpay_error status) =
    if status == 408 || status == 429 then true else not (leb 400 status && ltb status 500)
is_retryable _ = true

abbrev failed_once : String → WebhookEvent → WebhookEvent
failed_once error event = record event {
  attempt_count = event.attempt_count + 1;
  processing_error = some error;
}

abbrev bury : Time → WebhookEvent → WebhookEvent
bury now event = record event { dead_at = some now }

abbrev pub after_failure : Settings → String → Bool → Time → WebhookEvent → WebhookEvent
after_failure settings error retryable now event =
    let failed = failed_once error event in
    if not retryable || leb settings.webhook_max_attempts (event.attempt_count + 1)
    then bury now failed
    else failed

abbrev pub record_failure_on : Env → Settings → String → Bool → Option WebhookEvent → Inbox → Inbox
record_failure_on env settings error retryable none inbox = inbox
record_failure_on env settings error retryable (some event) inbox = record inbox {
  events =
      put_event (after_failure settings error retryable (now_of env inbox.world) event)
        inbox.events;
  world = tick_clock inbox.world;
}

-- `_record_failure`
unfoldable pub record_failure : Env → Settings → ℕ → String → Bool → Inbox → Inbox
record_failure env settings pk error retryable inbox =
    record_failure_on env settings error retryable (get_event pk inbox.events) inbox

abbrev pub close_event : Time → WebhookEvent → WebhookEvent
close_event now event = record event { processed_at = some now; processing_error = none }

-- An event that nothing acts on is only marked.
abbrev pub skip_event : Time → WebhookEvent → WebhookEvent
skip_event now event = record event { processed_at = some now }

-- The rollback: the tables as they were. What was sent outside stays sent.
abbrev pub rolled_back : Inbox → World → Inbox
rolled_back inbox w = record inbox { world = record w { db = inbox.world.db } }

-- `traceback e` is `traceback.format_exc(limit=5)`.
module _ (env : Env) (settings : Settings) (traceback : Exn → String) where
  unfoldable pub settle : WebhookEvent → Inbox → Result (Unit {0}) → World → Inbox
  settle event inbox (ok _) w = record inbox {
    events = put_event (close_event (now_of env w) event) inbox.events;
    world = tick_clock w;
  }
  settle event inbox (err e) w =
      record_failure env settings event.id (traceback e) (is_retryable e) (rolled_back inbox w)

  unfoldable pub dispatch : WebhookEvent → Option (Event → Exec (Unit {0})) → Inbox → Inbox
  dispatch event none inbox = record inbox {
    events = put_event (skip_event (now_of env inbox.world) event) inbox.events;
    world = tick_clock inbox.world;
  }
  dispatch event (some handler) inbox =
      let payload = record event.payload { razorpay_event_id = event.razorpay_event_id } in
      let (r, w) = handler payload inbox.world in settle event inbox r w

  unfoldable pub process_unless : WebhookEvent → Option Time → Inbox → Inbox
  process_unless event (some _) inbox = inbox
  process_unless event none inbox = dispatch event (handler_for env settings event.event) inbox

  unfoldable pub process_found : Option WebhookEvent → Inbox → Inbox
  process_found none inbox = inbox
  process_found (some event) inbox = process_unless event event.processed_at inbox

  unfoldable pub process_event : ℕ → Inbox → Inbox
  process_event pk inbox = process_found (get_event pk inbox.events) inbox

  unfoldable pub process_events : List ℕ → Inbox → Inbox
  process_events [] inbox = inbox
  process_events (pk ∷ pks) inbox = process_events pks (process_event pk inbox)

-- ORDER BY id
abbrev is_earlier : WebhookEvent → WebhookEvent → Bool
is_earlier a b = ltb a.id b.id

-- `created_at < now - older_than_seconds`
unfoldable pub is_replayable : Time → ℕ → WebhookEvent → Bool
is_replayable now older_than_seconds event =
    not (is_some event.processed_at)
    && (not (is_some event.dead_at) && ltb (event.created_at + seconds older_than_seconds) now)

unfoldable pub replay_batch : Time → ℕ → ℕ → List WebhookEvent → List ℕ
replay_batch now limit older_than_seconds events =
    map (λ event. event.id)
      (take limit (sort_by is_earlier (filter (is_replayable now older_than_seconds) events)))

unfoldable pub replay_unprocessed : Env → Settings → (Exn → String) → ℕ → ℕ → Inbox → ℕ × Inbox
replay_unprocessed env settings traceback limit older_than_seconds inbox =
    let started = record inbox { world = tick_clock inbox.world } in
    let batch = replay_batch (now_of env inbox.world) limit older_than_seconds inbox.events in
    (length batch, process_events env settings traceback batch started)

abbrev pub revive : WebhookEvent → WebhookEvent
revive event = record event { dead_at = none; attempt_count = 0 }

unfoldable pub put_events : List WebhookEvent → List WebhookEvent → List WebhookEvent
put_events [] rows = rows
put_events (event ∷ events) rows = put_events events (put_event (revive event) rows)

unfoldable pub dead_batch : ℕ → List WebhookEvent → List WebhookEvent
dead_batch limit events =
    take limit (sort_by is_earlier (filter (λ event. is_some event.dead_at) events))

unfoldable pub requeue_dead : ℕ → Inbox → ℕ × Inbox
requeue_dead limit inbox =
    let batch = dead_batch limit inbox.events in
    (length batch, record inbox { events = put_events batch inbox.events })

-- The INSERT of `record_event` and its two ways to fail. `trouble` is an exception of the commit
-- that is no conflict.
module _ (env : Env) (settings : Settings) (trouble : Option Exn) where
  abbrev pub received : String → EventName → Event → Inbox → WebhookEvent
  received razorpay_event_id name payload inbox = record {
    id = inbox.next_id;
    razorpay_event_id = razorpay_event_id;
    event = name;
    payload = payload;
    processed_at = none;
    processing_error = none;
    attempt_count = 0;
    dead_at = none;
    created_at = now_of env inbox.world;
  }

  abbrev pub is_known : String → List WebhookEvent → Bool
  is_known razorpay_event_id events =
      any (λ row. str_eq row.razorpay_event_id razorpay_event_id) events

  unfoldable pub commit_event :
      WebhookEvent → Bool → Option Exn → Inbox → Result (Option WebhookEvent) × Inbox
  commit_event event known (some e) inbox = (
    err e,
    record inbox {
      world = (forget env settings (webhook_key event.razorpay_event_id) inbox.world).1;
    },
  )
  commit_event event true none inbox = (ok none, inbox)
  commit_event event false none inbox = (
    ok (some event),
    record inbox { events = inbox.events ++ event ∷ []; next_id = inbox.next_id + 1 },
  )

  unfoldable pub record_unless :
      String → EventName → Event → Result Bool → Inbox → Result (Option WebhookEvent) × Inbox
  record_unless razorpay_event_id name payload (err e) inbox = (err e, inbox)
  record_unless razorpay_event_id name payload (ok true) inbox = (ok none, inbox)
  record_unless razorpay_event_id name payload (ok false) inbox =
      commit_event (received razorpay_event_id name payload inbox)
        (is_known razorpay_event_id inbox.events) trouble inbox

  unfoldable pub record_event :
      String → EventName → Event → Inbox → Result (Option WebhookEvent) × Inbox
  record_event razorpay_event_id name payload inbox =
      let (r, w) =
        seen env settings (webhook_key razorpay_event_id) settings.redis_event_ttl_seconds
          inbox.world in
      record_unless razorpay_event_id name payload r (record inbox { world = w })
