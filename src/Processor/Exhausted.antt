-- ===== src/Processor/Exhausted.antt =====
-- The end of the retries of app/webhooks/processor.py.
use dunning_agent.Prelude.{
  ℕ, zero, suc, ◌+◌, ◌≤◌, ◌<◌, String, true, none, some, List, [], ◌∷◌, ◌≡◌, ◌↔◌, inl, inr, refl,
  sym, ap, subst, ◌∙◌, arith, is_some,
}
use dunning_agent.Model.{Settings}
use dunning_agent.World.{World, Env, Exn, err, Exec}
use dunning_agent.Handlers.{Event, handler_for}
use dunning_agent.Processor.{WebhookEvent, Inbox, get_event, process_event, process_events}
use dunning_agent.Processor.Laws.{IsPermanent, IsFailed, payload_of, process_event-Raised}
use dunning_agent.Processor.Retries.{Reachable, Reachable-attempts}

-- The same envelope, so many times.
abbrev pub repeated : ℕ → ℕ → List ℕ
repeated zero pk = []
repeated (suc n) pk = pk ∷ repeated n pk

module _ (settings : Settings) where
  -- After so many attempts, none of which was finished: it is buried where they reach the limit, and
  -- only there.
  abbrev pub IsSpent : ℕ → WebhookEvent → Type 0
  IsSpent attempts event =
      (event.attempt_count ≡ attempts)
      × (event.processed_at ≡ none)
      × ((is_some event.dead_at ≡ true) ↔ (settings.webhook_max_attempts ≤ attempts))

  IsFailed-IsSpent :
      (event row : WebhookEvent) (attempts now : ℕ) (error : String) (e : Exn)
      → IsFailed settings error e now event row
      → ¬ (IsPermanent e)
      → IsSpent attempts event
      → IsSpent (attempts + 1) row
  IsFailed-IsSpent event row attempts now error e failed temporary (count, fresh, dead) = (
    failed.counted ∙ ap (λ k. k + 1) count,
    ap (λ (r : WebhookEvent). r.processed_at) failed.rest_kept ∙ fresh,
    elim failed.judged [
      | inl (inl p, buried) ↦ absurd (temporary p)
      | inl (inr spent, buried) ↦ (λ _. ground arith, λ _. rw buried refl)
      | inr (_, left, kept) ↦ (λ h. ground arith, λ h. ground arith)
    ],
  )

  module _ (env : Env) (traceback : Exn → String) (handler : Event → Exec (Unit {0}))
      (payload : Event) where
    -- Every attempt on the envelope fails, with an exception that is no permanent answer.
    abbrev pub KeepsFailing : Type 0
    KeepsFailing = (w : World) → (e : Exn) × ((handler payload w).0 ≡ err e) × (¬ (IsPermanent e))

    abbrev pub Spent : ℕ → Inbox → ℕ → Inbox → Type 0
    Spent pk before attempts after =
        (after.world.db ≡ before.world.db)
        × ((row : WebhookEvent) × (get_event pk after.events ≡ some row) × IsSpent attempts row)

    process_events-Spent :
        (n attempts pk : ℕ) (inbox : Inbox) (event : WebhookEvent)
        → KeepsFailing
        → get_event pk inbox.events ≡ some event
        → handler_for env settings event.event ≡ some handler
        → payload_of env settings traceback event ≡ payload
        → IsSpent attempts event
        → Spent pk inbox
            (attempts + n)
            (process_events env settings traceback (repeated n pk) inbox)
    unfolding process_events
    process_events-Spent zero attempts pk inbox event fails found known same spent =
        (refl, (event, found, subst (λ k. IsSpent k event) (omega arith) spent))
    process_events-Spent (suc n) attempts pk inbox event fails found known same spent =
        let (e, raised, temporary) = fails inbox.world in
        let (db, _, (row, found', failed)) =
          process_event-Raised env settings traceback pk inbox event handler e found (spent.1) known
            (subst (λ p. (handler p inbox.world).0 ≡ err e) (sym same) raised) in
        let rest =
          process_events-Spent n (attempts + 1) pk (process_event env settings traceback pk inbox)
            row fails found'
            (ap (λ (r : WebhookEvent). handler_for env settings r.event) failed.rest_kept ∙ known)
            (ap (payload_of env settings traceback) failed.rest_kept ∙ same)
            (IsFailed-IsSpent event row attempts _ _ e failed temporary spent) in
        subst
          (λ k. Spent pk inbox k (
            process_events env settings traceback (repeated n pk)
              (process_event env settings traceback pk inbox)))
          (omega arith) (rest.0 ∙ db, rest.1)

    -- In every inbox that occurs: when the handler of an envelope that is neither processed nor buried
    -- fails at every attempt, with exceptions that are no permanent answer, then after any number of
    -- attempts more the tables are what they were, each attempt is counted, and the envelope is buried
    -- exactly where the attempts since it was received or requeued have reached the limit.
    pub process_events-buried :
        (n pk : ℕ) (inbox : Inbox) (event : WebhookEvent)
        → 0 < settings.webhook_max_attempts
        → Reachable settings inbox
        → KeepsFailing
        → get_event pk inbox.events ≡ some event
        → event.processed_at ≡ none
        → event.dead_at ≡ none
        → handler_for env settings event.event ≡ some handler
        → payload_of env settings traceback event ≡ payload
        → Spent pk inbox
            (event.attempt_count + n)
            (process_events env settings traceback (repeated n pk) inbox)
    process_events-buried n pk inbox event positive reached fails found fresh alive known same =
        let left = Reachable-attempts settings positive inbox pk event reached found alive in
        process_events-Spent n event.attempt_count pk inbox event fails found known same
          (refl, fresh, (λ h. ground arith, λ h. ground arith))
