-- ===== src/Processor/Attempts.antt =====
-- The attempts on an envelope by app/webhooks/processor.py, one operation at a time.
use dunning_agent.Prelude.{
  ℕ, ◌+◌, ◌<◌, String, Bool, true, false, ◌⊎◌, inl, inr, Option, none, some, List, [], ◌∷◌, ◌++◌,
  ◌≡◌, refl, arith, ◌==◌, leb, is_some, not, ◌||◌, Bool-cases,
}
use dunning_agent.Model.{Time, Settings}
use dunning_agent.World.{World, Env, Exn, Result, ok, err, Exec}
use dunning_agent.Handlers.{Event, EventName, handler_for}
use dunning_agent.Processor.{
  WebhookEvent, Inbox, is_retryable, put_event, get_event, now_of, after_failure, close_event,
  skip_event, rolled_back, record_failure, record_failure_on, settle, dispatch, process_event,
  process_found, process_unless, process_events, put_events, revive, commit_event, record_unless,
  received, is_known,
}

module _ (settings : Settings) (positive : 0 < settings.webhook_max_attempts) where
  -- Buried, or with an attempt left.
  abbrev IsBounded : WebhookEvent → Type 0
  IsBounded event =
      (is_some event.dead_at ≡ true) ⊎ (event.attempt_count < settings.webhook_max_attempts)

  abbrev pub AllBounded : List WebhookEvent → Type 0
  AllBounded [] = Unit
  AllBounded (row ∷ rows) = IsBounded row × AllBounded rows

  put_event-AllBounded :
      (new : WebhookEvent) (rows : List WebhookEvent)
      → IsBounded new
      → AllBounded rows
      → AllBounded (put_event new rows)
  put_event-AllBounded new [] h all = tt
  put_event-AllBounded new (row ∷ rows) h all = elim (Bool-cases (row.id == new.id)) [
    | inl e ↦ rw e (h, put_event-AllBounded new rows h (all.1))
    | inr e ↦ rw e (all.0, put_event-AllBounded new rows h (all.1))
  ]

  abbrev pub FoundBounded : Option WebhookEvent → Type 0
  FoundBounded none = Unit
  FoundBounded (some event) = IsBounded event

  pub get_event-AllBounded :
      (pk : ℕ) (rows : List WebhookEvent) → AllBounded rows → FoundBounded (get_event pk rows)
  unfolding get_event
  get_event-AllBounded pk [] all = tt
  get_event-AllBounded pk (row ∷ rows) all = elim (Bool-cases (row.id == pk)) [
    | inl e ↦ rw e (all.0)
    | inr e ↦ rw e (get_event-AllBounded pk rows (all.1))
  ]

  after_failure-IsBounded :
      (error : String) (retryable : Bool) (now : Time) (event : WebhookEvent)
      → IsBounded event
      → IsBounded (after_failure settings error retryable now event)
  after_failure-IsBounded error retryable now event h =
      elim (Bool-cases
        (not retryable || leb settings.webhook_max_attempts (event.attempt_count + 1))) [
          | inl e ↦ rw e (inl refl)
          | inr e ↦ rw e (inr (ground arith))
        ]

  module _ (env : Env) (traceback : Exn → String) where
    record_failure-AllBounded :
        (pk : ℕ) (error : String) (retryable : Bool) (inbox : Inbox)
        → AllBounded inbox.events
        → AllBounded (record_failure env settings pk error retryable inbox).events
    unfolding record_failure
    record_failure-AllBounded pk error retryable inbox all =
        on (get_event pk inbox.events) (get_event-AllBounded pk inbox.events all)
      where
        on :
            (o : Option WebhookEvent)
            → FoundBounded o
            → AllBounded (record_failure_on env settings error retryable o inbox).events
        on none h = all
        on (some event) h =
            put_event-AllBounded
              (after_failure settings error retryable (now_of env inbox.world) event) inbox.events
              (after_failure-IsBounded error retryable (now_of env inbox.world) event h) all

    settle-AllBounded :
        (event : WebhookEvent) (inbox : Inbox) (r : Result (Unit {0})) (w : World)
        → IsBounded event
        → AllBounded inbox.events
        → AllBounded (settle env settings traceback event inbox r w).events
    unfolding settle
    settle-AllBounded event inbox (ok u) w h all =
        put_event-AllBounded (close_event (now_of env w) event) inbox.events h all
    settle-AllBounded event inbox (err e) w h all =
        record_failure-AllBounded event.id (traceback e) (is_retryable e) (rolled_back inbox w) all

    dispatch-AllBounded :
        (event : WebhookEvent) (o : Option (Event → Exec (Unit {0}))) (inbox : Inbox)
        → IsBounded event
        → AllBounded inbox.events
        → AllBounded (dispatch env settings traceback event o inbox).events
    unfolding dispatch
    dispatch-AllBounded event none inbox h all =
        put_event-AllBounded (skip_event (now_of env inbox.world) event) inbox.events h all
    dispatch-AllBounded event (some handler) inbox h all =
        let (r, w) =
          handler (record event.payload { razorpay_event_id = event.razorpay_event_id })
            inbox.world in
        settle-AllBounded event inbox r w h all

    process_found-AllBounded :
        (o : Option WebhookEvent) (inbox : Inbox)
        → FoundBounded o
        → AllBounded inbox.events
        → AllBounded (process_found env settings traceback o inbox).events
    unfolding process_found process_unless
    process_found-AllBounded none inbox h all = all
    process_found-AllBounded (some event) inbox h all = on event.processed_at
      where
        on :
            (o : Option Time)
            → AllBounded (process_unless env settings traceback event o inbox).events
        on none = dispatch-AllBounded event (handler_for env settings event.event) inbox h all
        on (some t) = all

    pub process_event-AllBounded :
        (pk : ℕ) (inbox : Inbox)
        → AllBounded inbox.events
        → AllBounded (process_event env settings traceback pk inbox).events
    unfolding process_event
    process_event-AllBounded pk inbox all =
        process_found-AllBounded (get_event pk inbox.events) inbox
          (get_event-AllBounded pk inbox.events all) all

    pub process_events-AllBounded :
        (pks : List ℕ) (inbox : Inbox)
        → AllBounded inbox.events
        → AllBounded (process_events env settings traceback pks inbox).events
    unfolding process_events
    process_events-AllBounded [] inbox all = all
    process_events-AllBounded (pk ∷ pks) inbox all =
        process_events-AllBounded pks (process_event env settings traceback pk inbox)
          (process_event-AllBounded pk inbox all)

  pub put_events-AllBounded :
      (events rows : List WebhookEvent) → AllBounded rows → AllBounded (put_events events rows)
  unfolding put_events
  put_events-AllBounded [] rows all = all
  put_events-AllBounded (event ∷ events) rows all =
      put_events-AllBounded events (put_event (revive event) rows)
        (put_event-AllBounded (revive event) rows (inr positive) all)

  append-AllBounded :
      (rows : List WebhookEvent) (new : WebhookEvent)
      → AllBounded rows
      → IsBounded new
      → AllBounded (rows ++ new ∷ [])
  append-AllBounded [] new all h = (h, tt)
  append-AllBounded (row ∷ rows) new all h = (all.0, append-AllBounded rows new (all.1) h)

  module _ (env : Env) (trouble : Option Exn) where
    commit_event-AllBounded :
        (event : WebhookEvent) (known : Bool) (o : Option Exn) (inbox : Inbox)
        → IsBounded event
        → AllBounded inbox.events
        → AllBounded (commit_event env settings trouble event known o inbox).1.events
    unfolding commit_event
    commit_event-AllBounded event known (some e) inbox h all = all
    commit_event-AllBounded event true none inbox h all = all
    commit_event-AllBounded event false none inbox h all =
        append-AllBounded inbox.events event all h

    pub record_unless-AllBounded :
        (id : String) (name : EventName) (payload : Event) (r : Result Bool) (inbox : Inbox)
        → AllBounded inbox.events
        → AllBounded (record_unless env settings trouble id name payload r inbox).1.events
    unfolding record_unless
    record_unless-AllBounded id name payload (err e) inbox all = all
    record_unless-AllBounded id name payload (ok true) inbox all = all
    record_unless-AllBounded id name payload (ok false) inbox all =
        commit_event-AllBounded (received env settings trouble id name payload inbox)
          (is_known env settings trouble id inbox.events) trouble inbox (inr positive) all
