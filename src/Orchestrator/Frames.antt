-- ===== src/Orchestrator/Frames.antt =====
-- What the deliveries of app/orchestrator.py leave alone: a relation that is kept by a new audit row
-- and by a change of the case alone is kept by all of them.
use dunning_agent.Prelude.{
  ℕ, String, Bool, true, false, Option, none, some, List, [], ◌∷◌, truthy, not,
}
use dunning_agent.Model.{Time, Settings, ActionType, Metadata, Customer, RecoveryCase}
use dunning_agent.World.{
  LinkEntity, Request, continue, Db, World, Env, Exec, Result, ok, err, log_action, save_case,
  Token,
}
use dunning_agent.World.Steps.{IsFrame, Steps, step_rules, Steps-if}
use dunning_agent.PaymentLinks.{
  PaymentLink, with_link, expiry, build_payload, write_link, notify_one, notify_media,
  notify_existing_link, log_resend, resend_link, new_link, link_by, create_recovery_link,
  existing_link,
}
use dunning_agent.Mandate.{log_failure, charge_token, charge_found, charge_mandate}
use dunning_agent.Orchestrator.{
  begin_attempt, spend_attempt, after_charge, after_link, after_call, retry_mandate, send_link,
  contact,
}

module _ (R : Db → Db → Type 0) (frame : IsFrame R)
    (logs : (id : ℕ) (type : ActionType) (metadata : Metadata)
      → Steps R (log_action id type metadata)) where
  log_failure-Steps : (case : RecoveryCase) (reason : String) → Steps R (log_failure case reason)
  unfolding log_failure
  log_failure-Steps case reason = search (logs)

  charge_token-Steps :
      (env : Env) (settings : Settings) (case : RecoveryCase) (customer : Customer) (token : Token)
      → Steps R (charge_token env settings case customer token)
  unfolding charge_token
  charge_token-Steps env settings case customer token = search (step_rules, frame, logs) depth 12

  charge_found-Steps :
      (env : Env) (settings : Settings) (case : RecoveryCase) (customer : Customer)
      (token : Option Token)
      → Steps R (charge_found env settings case customer token)
  unfolding charge_found
  charge_found-Steps env settings case customer none = search (step_rules, frame, log_failure-Steps)
  charge_found-Steps env settings case customer (some token) =
      charge_token-Steps env settings case customer token

  charge_mandate-Steps :
      (env : Env) (settings : Settings) (case : RecoveryCase) (customer : Customer) (epoch : ℕ)
      → Steps R (charge_mandate env settings case customer epoch)
  unfolding charge_mandate
  charge_mandate-Steps env settings case customer epoch =
      search (step_rules, frame, log_failure-Steps, charge_found-Steps) depth 8

  notify_one-Steps :
      (env : Env) (link_id medium : String) (rest : Exec (List String))
      → Steps R rest
      → Steps R (notify_one env link_id medium rest)
  unfolding notify_one
  notify_one-Steps env link_id medium rest h = search (step_rules, frame) depth 8

  pub notify_media-Steps :
      (env : Env) (link_id : String) (media : List (String × Option String))
      → Steps R (notify_media env link_id media)
  unfolding notify_media
  notify_media-Steps env link_id [] = search (step_rules, frame)
  notify_media-Steps env link_id ((medium, address) ∷ media) =
      let rest = notify_media-Steps env link_id media in
      Steps-if (not (truthy address)) (notify_media env link_id media)
        (notify_one env link_id medium (notify_media env link_id media)) rest
        (notify_one-Steps env link_id medium (notify_media env link_id media) rest)

  resend_link-Steps :
      (env : Env) (settings : Settings) (case : RecoveryCase) (customer : Customer)
      (id url : String)
      → Steps R (resend_link env settings case customer id url)
  unfolding resend_link log_resend notify_existing_link
  resend_link-Steps env settings case customer id url =
      search (step_rules, frame, logs, notify_media-Steps) depth 8

  module _ (Good : RecoveryCase → Type 0)
      (saves : (case : RecoveryCase) → Good case → Steps R (save_case case))
      (links : (id url : String) (now : Time) (case : RecoveryCase)
        → Good case
        → Good (with_link id url now case))
      (spends : (case : RecoveryCase) → Good case → Steps R (save_case (spend_attempt case)))
      (env : Env) (settings : Settings) (now : Time) (customer : Customer) where
    write_link-Steps :
        (case : RecoveryCase) (entity : LinkEntity)
        → Good case
        → Steps R (write_link settings case customer now entity)
    unfolding write_link
    write_link-Steps case entity good = search (step_rules, frame, logs, saves, links) depth 8

    new_link-Steps :
        (case : RecoveryCase) → Good case → Steps R (new_link env settings case customer now)
    unfolding new_link
    new_link-Steps case good = search (step_rules, frame, write_link-Steps) depth 8

    pub create_recovery_link-Steps :
        (case : RecoveryCase)
        → Good case
        → Steps R (create_recovery_link env settings case customer now)
    unfolding create_recovery_link
    create_recovery_link-Steps case good = by_link (existing_link case)
      where
        by_link :
            (o : Option (String × String)) → Steps R (link_by env settings case customer now o)
        by_link none = unfold link_by in new_link-Steps case good
        by_link (some (id, url)) =
            unfold link_by in resend_link-Steps env settings case customer id url

    after_charge-Steps :
        (case : RecoveryCase) (r : Result Bool)
        → Good case
        → Steps R (after_charge env settings now customer case r)
    after_charge-Steps case (ok true) good = search (step_rules, frame, spends)
    after_charge-Steps case (ok false) good = search (step_rules, frame)
    after_charge-Steps case (err e) good = search (step_rules, frame, logs)

    pub retry_mandate-Steps :
        (case : RecoveryCase)
        → Good (begin_attempt now case)
        → Steps R (retry_mandate env settings now customer case)
    unfolding retry_mandate
    retry_mandate-Steps case good =
        search (step_rules, frame, saves, charge_mandate-Steps, after_charge-Steps) depth 8

    after_call-Steps :
        (case : RecoveryCase) (r : Result Metadata)
        → Good case
        → Steps R (after_call env settings now customer case r)
    after_call-Steps case (ok m) good = search (step_rules, frame, spends, logs) depth 8
    after_call-Steps case (err e) good = search (step_rules, frame, logs)

    pub contact-Steps :
        (case : RecoveryCase)
        → Good (begin_attempt now case)
        → Steps R (contact env settings now customer case)
    unfolding contact
    contact-Steps case good = search (step_rules, frame, saves, after_call-Steps) depth 8

    -- The case that comes back is good too.
    abbrev GoodLink : Result (RecoveryCase × PaymentLink) → Type 0
    GoodLink (ok (linked, _)) = Good linked
    GoodLink (err e) = Unit

    GoodLink-continue :
        {A : Type 0} (r : Result A) (f : A → Exec (RecoveryCase × PaymentLink)) (w : World)
        → ((a : A) (w' : World) → GoodLink (f a w').0)
        → GoodLink (continue r f w).0
    GoodLink-continue (ok a) f w k = k a w
    GoodLink-continue (err e) f w k = tt

    link_by-Good :
        (case : RecoveryCase) (o : Option (String × String)) (w : World)
        → Good case
        → GoodLink (link_by env settings case customer now o w).0
    unfolding link_by new_link write_link resend_link log_resend log_action
    link_by-Good case none w good =
        let payload = build_payload case customer settings (expiry settings now) in
        GoodLink-continue (env.on_create_payment_link payload w.sent)
          (write_link settings case customer now)
          (record w { sent = Request.create_payment_link payload ∷ w.sent })
          (λ entity w'. links entity.id entity.short_url now case good)
    link_by-Good case (some (id, url)) w good =
        let (r, w') = notify_existing_link env id case customer w in
        GoodLink-continue r (log_resend settings case id url) w' (λ resent v. good)

    after_link-Steps :
        (case : RecoveryCase) (r : Result (RecoveryCase × PaymentLink))
        → Good case
        → GoodLink r
        → Steps R (after_link env settings now customer case r)
    after_link-Steps case (ok (linked, link)) good goodlink = search (step_rules, frame, spends)
    after_link-Steps case (err e) good goodlink = search (step_rules, frame, logs)

    pub send_link-Steps :
        (case : RecoveryCase)
        → Good (begin_attempt now case)
        → Steps R (send_link env settings now customer case)
    unfolding send_link create_recovery_link
    send_link-Steps case good = record {
      at = λ w.
          let begun = begin_attempt now case in
          let v = (save_case begun w).1 in
          let (r, u) = link_by env settings begun customer now (existing_link begun) v in
          frame.transitive w.db v.db (after_link env settings now customer begun r u).1.db
            ((saves begun good).at w)
            (frame.transitive v.db u.db (after_link env settings now customer begun r u).1.db
              ((create_recovery_link-Steps begun good).at v)
              ((after_link-Steps begun r good (link_by-Good begun (existing_link begun) v good)).at
                u));
    }
