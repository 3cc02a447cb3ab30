-- ===== src/Processor/Laws.antt =====
-- What app/webhooks/processor.py does with a handler that fails, and which failures are retried.
use dunning_agent.Prelude.{
  ℕ, ◌+◌, ◌≤◌, ◌<◌, String, Bool, false, none, some, List, [], ◌∷◌, ◌≡◌, ◌≢◌, ◌↔◌, refl, sym, ap,
  subst, ◌∙◌, ◌⊎◌, ◌==◌, filter, arith, leb, not, ◌||◌, Bool-cases, inl, inr,
}
use mathlib.Core.Bool.{false≢true}
use dunning_agent.Model.{Time, Settings}
use dunning_agent.World.{World, Env, Exn, razorpay_error, key_error, other_error, ok, err, Exec}
use dunning_agent.Handlers.{Event, handler_for}
use dunning_agent.Processor.{
  WebhookEvent, Inbox, is_retryable, put_event, get_event, now_of, after_failure, close_event,
  settle, dispatch, process_event, process_found, process_unless, record_failure, record_failure_on,
  rolled_back,
}

-- An exception that Razorpay answers as a statement about the request.
abbrev pub IsPermanent : Exn → Type 0
IsPermanent (razorpay_error status) =
    (400 ≤ status) × (status < 500) × (status ≢ 408) × (status ≢ 429)
IsPermanent _ = ⊥

-- A failure is given up at once exactly where Razorpay answered with a status from 400 to 499 other
-- than 408 and 429; every other exception is retried.
is_retryable-IsPermanent_iff : (e : Exn) → (is_retryable e ≡ false) ↔ IsPermanent e
unfolding is_retryable
is_retryable-IsPermanent_iff (razorpay_error status) = (by_test, by_range)
  where
    by_test : is_retryable (razorpay_error status) ≡ false → IsPermanent (razorpay_error status)
    by_test h = ground arith

    by_range : IsPermanent (razorpay_error status) → is_retryable (razorpay_error status) ≡ false
    by_range h = ground arith
is_retryable-IsPermanent_iff key_error = ground arith
is_retryable-IsPermanent_iff other_error = ground arith

get-put :
    (event new : WebhookEvent) (pk : ℕ) (rows : List WebhookEvent)
    → get_event pk rows ≡ some event
    → new.id ≡ event.id
    → get_event pk (put_event new rows) ≡ some new
unfolding get_event
get-put event new pk [] h e = ground arith
get-put event new pk (row ∷ rows) h e = ground (arith, get-put event new pk rows)

get_event-id :
    (pk : ℕ) (rows : List WebhookEvent) (event : WebhookEvent)
    → get_event pk rows ≡ some event
    → event.id ≡ pk
unfolding get_event
get_event-id pk [] event h = ground arith
get_event-id pk (row ∷ rows) event h = ground (arith, get_event-id pk rows event)

after_failure-id :
    (settings : Settings) (error : String) (retryable : Bool) (now : Time) (event : WebhookEvent)
    → (after_failure settings error retryable now event).id ≡ event.id
after_failure-id settings error retryable now event =
    elim (Bool-cases
      (not retryable || leb settings.webhook_max_attempts (event.attempt_count + 1))) [
        | inl e ↦ rw e refl
        | inr e ↦ rw e refl
      ]

put_event-others :
    (new : WebhookEvent) (pk : ℕ) (rows : List WebhookEvent)
    → new.id ≡ pk
    → filter (λ row. not (row.id == pk)) (put_event new rows)
      ≡ filter (λ row. not (row.id == pk)) rows
put_event-others new pk [] same = refl
put_event-others new pk (row ∷ rows) same = ground (arith, put_event-others new pk rows same)

-- The row of an envelope after an attempt that failed: the attempt is counted and its traceback is
-- kept; the envelope is buried where the failure is permanent or the attempts are used up, and only
-- there; and nothing else of it is changed.
pub record IsFailed (settings : Settings) (error : String) (e : Exn) (now : Time)
    (event row : WebhookEvent) : Type 0 where
  pub counted : row.attempt_count ≡ event.attempt_count + 1
  pub traced : row.processing_error ≡ some error
  pub judged :
      ((IsPermanent e ⊎ (settings.webhook_max_attempts ≤ event.attempt_count + 1))
        × (row.dead_at ≡ some now))
      ⊎ ((¬ (IsPermanent e))
          × (event.attempt_count + 1 < settings.webhook_max_attempts)
          × (row.dead_at ≡ event.dead_at))
  pub rest_kept :
      record row {
        attempt_count = event.attempt_count;
        processing_error = event.processing_error;
        dead_at = event.dead_at;
      }
      ≡ event

after_failure-IsFailed :
    (settings : Settings) (error : String) (e : Exn) (now : Time) (event : WebhookEvent)
    → IsFailed settings error e now event (after_failure settings error (is_retryable e) now event)
after_failure-IsFailed settings error e now event = elim (Bool-cases (is_retryable e)) [
  | inr gone ↦ rw gone (record {
    counted = refl;
    traced = refl;
    judged = inl (inl ((is_retryable-IsPermanent_iff e).0 gone), refl);
    rest_kept = refl;
  })
  | inl again ↦
      let temporary : ¬ (IsPermanent e) =
        λ p. absurd (false≢true (sym ((is_retryable-IsPermanent_iff e).1 p) ∙ again)) in
      elim (Bool-cases (leb settings.webhook_max_attempts (event.attempt_count + 1))) [
        | inl spent ↦
            rw (again, spent)
              (record {
                counted = refl;
                traced = refl;
                judged = inl (inr (ground arith), refl);
                rest_kept = refl;
              })
        | inr left ↦
            rw (again, left)
              (record {
                counted = refl;
                traced = refl;
                judged = inr (temporary, ground arith, refl);
                rest_kept = refl;
              })
      ]
]

module _ (env : Env) (settings : Settings) (traceback : Exn → String) where
  -- An event as its handler gets it.
  abbrev pub payload_of : WebhookEvent → Event
  payload_of event = record event.payload { razorpay_event_id = event.razorpay_event_id }

  -- The tables and the other envelopes are what they were, and this one has failed.
  abbrev pub Raised : ℕ → Inbox → WebhookEvent → Exn → World → Inbox → Type 0
  Raised pk inbox event e w after =
      (after.world.db ≡ inbox.world.db)
      × (filter (λ row. not (row.id == pk)) after.events
          ≡ filter (λ row. not (row.id == pk)) inbox.events)
      × ((row : WebhookEvent) × (get_event pk after.events ≡ some row)
          × IsFailed settings (traceback e) e (now_of env w) event row)

  record_failure-Raised :
      (pk : ℕ) (inbox : Inbox) (event : WebhookEvent) (e : Exn) (w : World)
      → get_event pk inbox.events ≡ some event
      → event.id ≡ pk
      → Raised pk inbox event e w (settle env settings traceback event inbox (err e) w)
  unfolding settle record_failure
  record_failure-Raised pk inbox event e w found same =
      let failed = after_failure settings (traceback e) (is_retryable e) (now_of env w) event in
      let kept = after_failure-id settings (traceback e) (is_retryable e) (now_of env w) event in
      let found_again = ap (λ i. get_event i inbox.events) same ∙ found in
      subst (Raised pk inbox event e w)
        (sym (
          ap
            (λ o.
              record_failure_on env settings (traceback e) (is_retryable e) o (rolled_back inbox w))
            found_again))
        (
          refl,
          put_event-others failed pk inbox.events (kept ∙ same),
          (
            failed,
            get-put event failed pk inbox.events found kept,
            after_failure-IsFailed settings (traceback e) e (now_of env w) event,
          ),
        )

  -- When the handler of an envelope that is not processed raises, no table is changed, whatever the
  -- handler had written, and no other envelope: this one counts the attempt, keeps the traceback, and
  -- is buried exactly where Razorpay answered with a status from 400 to 499 other than 408 and 429,
  -- or where the attempts are used up.
  pub process_event-Raised :
      (pk : ℕ) (inbox : Inbox) (event : WebhookEvent) (handler : Event → Exec (Unit {0})) (e : Exn)
      → get_event pk inbox.events ≡ some event
      → event.processed_at ≡ none
      → handler_for env settings event.event ≡ some handler
      → (handler (payload_of event) inbox.world).0 ≡ err e
      → Raised pk inbox event e
          (handler (payload_of event) inbox.world).1
          (process_event env settings traceback pk inbox)
  unfolding process_event process_found process_unless dispatch
  process_event-Raised pk inbox event handler e found fresh known raised =
      let w = (handler (payload_of event) inbox.world).1 in
      subst (Raised pk inbox event e w)
        (sym (
          ap (λ o. process_found env settings traceback o inbox) found
          ∙ ap (λ o. process_unless env settings traceback event o inbox) fresh
          ∙ ap (λ o. dispatch env settings traceback event o inbox) known
          ∙ ap (λ r. settle env settings traceback event inbox r w) raised))
        (record_failure-Raised pk inbox event e w found (get_event-id pk inbox.events event found))

  -- An envelope that a handler has finished is done with: to process it again changes nothing, not
  -- even the requests sent.
  pub process_event_twice :
      (pk : ℕ) (inbox : Inbox) (event : WebhookEvent) (handler : Event → Exec (Unit {0}))
      → get_event pk inbox.events ≡ some event
      → event.processed_at ≡ none
      → handler_for env settings event.event ≡ some handler
      → (handler (payload_of event) inbox.world).0 ≡ ok tt
      → process_event env settings traceback pk (process_event env settings traceback pk inbox)
        ≡ process_event env settings traceback pk inbox
  unfolding process_event process_found process_unless dispatch settle
  process_event_twice pk inbox event handler found fresh known returned =
      let w = (handler (payload_of event) inbox.world).1 in
      let closed = close_event (now_of env w) event in
      let after = settle env settings traceback event inbox (ok tt) w in
      let again : process_event env settings traceback pk after ≡ after =
        ap (λ o. process_found env settings traceback o after)
          (get-put event closed pk inbox.events found refl) in
      subst (λ i. process_event env settings traceback pk i ≡ i)
        (sym (
          ap (λ o. process_found env settings traceback o inbox) found
          ∙ ap (λ o. process_unless env settings traceback event o inbox) fresh
          ∙ ap (λ o. dispatch env settings traceback event o inbox) known
          ∙ ap (λ r. settle env settings traceback event inbox r w) returned))
        again
