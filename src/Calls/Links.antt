-- ===== src/Calls/Links.antt =====
-- app/voice/persistence.py: what the agent may say about the links that it sends during a call.
use dunning_agent.Prelude.{
  ℕ, ◌+◌, String, false, Option, some, List, [], ◌∷◌, ◌≡◌, refl, ap, ◌∙◌, ◌⊎◌, inl, inr, ◌==◌,
  find?, arith, get_or, Option-cases, Bool-cases,
}
use dunning_agent.Model.{Time, Settings, Customer, RecoveryCase, ActionType, Metadata}
use dunning_agent.World.{
  Db, World, Env, Exn, Result, ok, err, log_action, put_case, get_case, replace_where,
}
use dunning_agent.World.Post.{Post}
use dunning_agent.World.Steps.{IsFrame, Steps}
use dunning_agent.PaymentLinks.{
  PaymentLink, create_recovery_link, existing_link, link_by, new_link, write_link, resend_link,
  log_resend, build_payload, expiry, notify_existing_link, with_link,
}
use dunning_agent.Orchestrator.Frames.{notify_media-Steps}
use dunning_agent.Calls.{Reply, sent, not_sent, customer_of, send_payment_link_now, stand_in}

pub Result-cases : {A : Type 0} (r : Result A) → ((a : A) × (r ≡ ok a)) ⊎ ((e : Exn) × (r ≡ err e))
Result-cases (ok a) = inl (a, refl)
Result-cases (err e) = inr (e, refl)

pub find-replaced_case :
    (id : ℕ) (new row : RecoveryCase) (rows : List RecoveryCase)
    → new.id ≡ id
    → find? (λ r. r.id == id) rows ≡ some row
    → find? (λ r. r.id == id) (replace_where (λ r. r.id == new.id) new rows) ≡ some new
find-replaced_case id new row [] same h = cc
find-replaced_case id new row (r ∷ rows) same h =
    ground (arith, find-replaced_case id new row rows same)

existing_link-url :
    (case : RecoveryCase) (id url : String)
    → existing_link case ≡ some (id, url)
    → case.payment_link_url ≡ some url
unfolding existing_link
existing_link-url case id url h = ground arith

abbrev SameCases : Db → Db → Type 0
SameCases d e = e.cases ≡ d.cases

SameCases-IsFrame : IsFrame SameCases
SameCases-IsFrame = record { reflexive = λ d. refl; transitive = λ d e f p q. q ∙ p }

log_action-SameCases :
    (id : ℕ) (type : ActionType) (metadata : Metadata)
    → Steps SameCases (log_action id type metadata)
unfolding log_action
log_action-SameCases id type metadata = record { at = λ w. refl }

-- The link that comes back is the one on the case, and the case is the row of the table.
abbrev IsRecorded : ℕ → RecoveryCase × PaymentLink → World → Type 0
IsRecorded id (linked, link) w =
    (linked.payment_link_url ≡ some link.short_url) × (get_case id w.db ≡ some linked)

module _ (env : Env) (settings : Settings) (id : ℕ) (case : RecoveryCase) (customer : Customer)
    (now : Time) (w : World) (same : case.id ≡ id) (found : get_case id w.db ≡ some case) where
  create_recovery_link-IsRecorded :
      Post
        (create_recovery_link env settings case customer now w).0
        (create_recovery_link env settings case customer now w).1
        (IsRecorded id)
  unfolding create_recovery_link link_by new_link write_link resend_link log_resend get_case
      put_case log_action
  create_recovery_link-IsRecorded = elim (Option-cases (existing_link case)) [
    | inl e ↦
        let payload = build_payload case customer settings (expiry settings now) in
        elim (Result-cases (env.on_create_payment_link payload w.sent)) [
          | inl (entity, e') ↦
              rw (e, e')
                (
                  refl,
                  find-replaced_case id (with_link entity.id entity.short_url now case) case
                      w.db.cases same found,
                )
          | inr (_, e') ↦ rw (e, e') tt
        ]
    | inr ((link_id, url), e) ↦
        let on_case = existing_link-url case link_id url e in
        let kept = (notify-SameCases link_id).at w in
        elim (Result-cases (notify_existing_link env link_id case customer w).0) [
          | inl (_, e') ↦
              rw (e, e')
                (on_case, ap (λ cases. find? (λ (r : RecoveryCase). r.id == id) cases) kept ∙ found)
          | inr (_, e') ↦ rw (e, e') tt
        ]
  ]
    where
      notify-SameCases :
          (link_id : String) → Steps SameCases (notify_existing_link env link_id case customer)
      notify-SameCases link_id =
          unfold notify_existing_link in
          notify_media-Steps SameCases SameCases-IsFrame log_action-SameCases env link_id _

pub get_case-id :
    (id : ℕ) (case : RecoveryCase) (db : Db) → get_case id db ≡ some case → case.id ≡ id
unfolding get_case
get_case-id id case db h = in_rows db.cases h
  where
    in_rows : (rows : List RecoveryCase) → find? (λ r. r.id == id) rows ≡ some case → case.id ≡ id
    in_rows [] e = cc
    in_rows (r ∷ rows) e = ground (arith, in_rows rows)

-- A link that is said to be sent is on the case's row; one that is not sent leaves the tables alone.
abbrev pub IsAnswered : ℕ → Db → Reply × World → Type 0
IsAnswered id db (sent url amount, w) =
    (case : RecoveryCase) × (get_case id w.db ≡ some case) × (case.payment_link_url ≡ some url)
IsAnswered id db (not_sent reason, w) = w.db ≡ db

module _ (env : Env) (settings : Settings) (reason : Exn → String) (id : ℕ) (w : World) where
  sends :
      (trouble : Option Exn) (case : RecoveryCase)
      → (id == 0) ≡ false
      → get_case id w.db ≡ some case
      → IsAnswered id w.db (send_payment_link_now env settings trouble reason (some id) w)
  unfolding send_payment_link_now
  sends trouble case z found =
      let customer = get_or (customer_of case w.db) (stand_in env settings trouble reason case) in
      let now = env.clock w.reads in
      let w' = record w { reads = w.reads + 1 } in
      let recorded =
        create_recovery_link-IsRecorded env settings id case customer now w'
          (get_case-id id case w.db found) found in
      elim (Result-cases (create_recovery_link env settings case customer now w').0) [
        | inr (e, p) ↦ rw (z, found, p) refl
        | inl ((linked, link), p) ↦ elim (Option-cases trouble) [
          | inl t ↦ rw (z, found, p, t) (linked, (rw p at recorded).1, (rw p at recorded).0)
          | inr (e, t) ↦ rw (z, found, p, t) refl
        ]
      ]

  -- Whatever Razorpay and the database answer, the agent is told that a link was sent only where its
  -- address is stored on the case, and otherwise the tables are what they were.
  pub send_payment_link_now-IsAnswered :
      (trouble : Option Exn)
      → IsAnswered id w.db (send_payment_link_now env settings trouble reason (some id) w)
  unfolding send_payment_link_now
  send_payment_link_now-IsAnswered trouble = elim (Bool-cases (id == 0)) [
    | inl z ↦ rw z refl
    | inr z ↦ elim (Option-cases (get_case id w.db)) [
      | inl e ↦ rw (z, e) refl
      | inr (case, e) ↦ sends trouble case z e
    ]
  ]
