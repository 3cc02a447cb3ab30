-- ===== src/Processor/Retries.antt =====
-- The inbox of app/webhooks/processor.py over time.
use dunning_agent.Prelude.{ℕ, ◌<◌, String, Option, none, some, [], ◌≡◌, subst, arith}
use dunning_agent.Model.{Settings}
use dunning_agent.World.{World, Env, Exn}
use dunning_agent.Cache.{seen}
use dunning_agent.Handlers.{Event, EventName}
use dunning_agent.Processor.{
  WebhookEvent, Inbox, get_event, now_of, tick_clock, process_event, replay_unprocessed,
  replay_batch, requeue_dead, dead_batch, record_event, webhook_key,
}
use dunning_agent.Processor.Attempts.{
  AllBounded, FoundBounded, get_event-AllBounded, process_event-AllBounded,
  process_events-AllBounded, put_events-AllBounded, record_unless-AllBounded,
}

-- What happens to the inbox over time. Each step has an environment of its own.
pub data Step (settings : Settings) : Inbox → Inbox → Type 0 where
  receive :
      (env : Env) (trouble : Option Exn) (id : String) (name : EventName) (payload : Event)
      (inbox : Inbox)
      → Step settings inbox (record_event env settings trouble id name payload inbox).1
  process :
      (env : Env) (traceback : Exn → String) (pk : ℕ) (inbox : Inbox)
      → Step settings inbox (process_event env settings traceback pk inbox)
  replay :
      (env : Env) (traceback : Exn → String) (limit older_than_seconds : ℕ) (inbox : Inbox)
      → Step settings inbox
          (replay_unprocessed env settings traceback limit older_than_seconds inbox).1
  requeue : (limit : ℕ) (inbox : Inbox) → Step settings inbox (requeue_dead limit inbox).1

-- The inboxes that occur: the table is empty at first.
pub data Reachable (settings : Settings) : Inbox → Type 0 where
  start :
      (world : World) (next_id : ℕ)
      → Reachable settings (record { world = world; events = []; next_id = next_id })
  later :
      (before after : Inbox)
      → Reachable settings before
      → Step settings before after
      → Reachable settings after

module _ (settings : Settings) (positive : 0 < settings.webhook_max_attempts) where
  Step-AllBounded :
      (before after : Inbox)
      → Step settings before after
      → AllBounded settings positive before.events
      → AllBounded settings positive after.events
  unfolding record_event replay_unprocessed requeue_dead
  Step-AllBounded before after (Step.receive env trouble id name payload _) all =
      let (r, w) =
        seen env settings (webhook_key id) settings.redis_event_ttl_seconds before.world in
      record_unless-AllBounded settings positive env trouble id name payload r
        (record before { world = w }) all
  Step-AllBounded before after (Step.process env traceback pk _) all =
      process_event-AllBounded settings positive env traceback pk before all
  Step-AllBounded before after (Step.replay env traceback limit older _) all =
      process_events-AllBounded settings positive env traceback
        (replay_batch (now_of env before.world) limit older before.events)
        (record before { world = tick_clock before.world }) all
  Step-AllBounded before after (Step.requeue limit _) all =
      put_events-AllBounded settings positive (dead_batch limit before.events) before.events all

  Reachable-AllBounded :
      (inbox : Inbox) → Reachable settings inbox → AllBounded settings positive inbox.events
  Reachable-AllBounded inbox (Reachable.start world next_id) = tt
  Reachable-AllBounded inbox (Reachable.later before _ reached step) =
      Step-AllBounded before inbox step (Reachable-AllBounded before reached)

  -- Whatever is received, processed, replayed and requeued, in any order and with any answers: the
  -- count of an envelope that is not buried is below the limit. (A requeued one counts from zero.)
  pub Reachable-attempts :
      (inbox : Inbox) (pk : ℕ) (event : WebhookEvent)
      → Reachable settings inbox
      → get_event pk inbox.events ≡ some event
      → event.dead_at ≡ none
      → event.attempt_count < settings.webhook_max_attempts
  Reachable-attempts inbox pk event reached found alive =
      let bounded = subst (FoundBounded settings positive) found (
        get_event-AllBounded settings positive pk inbox.events
          (Reachable-AllBounded inbox reached)) in
      ground arith
