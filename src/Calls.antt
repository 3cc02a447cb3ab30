-- ===== src/Calls.antt =====
-- app/voice/persistence.py: what happened on a call is written into the tables. Nothing that goes wrong
-- reaches the call: every entry point answers.
pub mod Record
pub mod Laws
pub mod Links
use dunning_agent.Prelude.{
  ℕ, ◌+◌, ◌-◌, ◌/◌, String, Bool, true, false, Option, none, some, List, [], ◌∷◌, ◌++◌, ◌==◌,
  truthy, get_or, if◌then◌else◌,
}
use dunning_agent.Model.{Time, seconds, Settings, Customer, RecoveryCase, VoiceCall, CallStatus}
use dunning_agent.World.{
  Db, World, Env, Exn, Result, ok, err, Exec, pure, raise, gets, modify, utcnow, ◌>>=◌, ◌>>◌,
  get_case, get_customer, get_voice_call,
}
use dunning_agent.PaymentLinks.{PaymentLink, create_recovery_link}
use dunning_agent.Mandate.{send_mandate_link}
use dunning_agent.Outcomes.{CallResult, intent_sends_link, apply_call_result}

abbrev settled : {A : Type 0} → (Exn → A) → Db → Result A → World → A × World
settled fallback db (ok a) w = (a, w)
settled fallback db (err e) w = (fallback e, record w { db = db })

-- `try: async with SessionLocal() as session: body`, `except Exception`: what was not committed is
-- rolled back, and the requests that were sent stay sent.
abbrev pub in_session : {A : Type 0} → (Exn → A) → Exec A → World → A × World
in_session fallback body w = let (r, w') = body w in settled fallback w.db r w'

-- `if not recovery_case_id`
abbrev pub bound_case : Option ℕ → Option ℕ
bound_case none = none
bound_case (some id) = if id == 0 then none else some id

-- The customer of a case, by its identifier where it has one.
unfoldable pub customer_of : RecoveryCase → Db → Option Customer
customer_of case db =
    if truthy case.razorpay_customer_id
    then get_customer (get_or case.razorpay_customer_id "") db
    else none

unfoldable pub new_call : RecoveryCase → String → Option String → String → ℕ → VoiceCall
new_call case room_name dialled_number provider id = record {
  id = id;
  recovery_case_id = case.id;
  provider = provider;
  room_name = some room_name;
  call_id = none;
  dialled_number = dialled_number;
  status = CallStatus.initiated;
  answered_at = none;
  ended_at = none;
  duration_seconds = none;
  detected_intent = none;
  final_node_id = none;
  transitions = none;
  transcript = none;
  error = none;
}

abbrev pub add_call : VoiceCall → Db → Db
add_call call db = record db {
  voice_calls = db.voice_calls ++ call ∷ [];
  next_call_id = db.next_call_id + 1;
}

-- What the reply of `send_payment_link_now` and `send_mandate_link_now` holds.
pub data Reply : Type 0 where
  sent : String → Option ℕ → Reply
  not_sent : String → Reply

-- `trouble` is an exception of a commit; `reason e` is `str(exc)[:120]`.
module _ (env : Env) (settings : Settings) (trouble : Option Exn) (reason : Exn → String) where
  abbrev commit : Exec (Unit {0})
  commit w = elim trouble [ none ↦ (ok tt, w) | some e ↦ (err e, w) ]

  abbrev open_for : String → Option String → String → Option RecoveryCase → Exec (Option ℕ)
  open_for room_name dialled_number provider none = pure none
  open_for room_name dialled_number provider (some case) = do
    id ← gets (λ db. db.next_call_id)
    modify (add_call (new_call case room_name dialled_number provider id))
    commit
    pure (some id)

  abbrev open_bound : String → Option String → String → Option ℕ → World → Option ℕ × World
  open_bound room_name dialled_number provider none w = (none, w)
  open_bound room_name dialled_number provider (some case_id) w =
      in_session (λ _. none)
        (gets (get_case case_id) >>= open_for room_name dialled_number provider) w

  -- `open_call_record`
  unfoldable pub open_call_record :
      Option ℕ → String → Option String → String → World → Option ℕ × World
  open_call_record recovery_case_id room_name dialled_number provider w =
      open_bound room_name dialled_number provider (bound_case recovery_case_id) w

  abbrev finalise_found :
      CallResult → Bool → Option VoiceCall → Option RecoveryCase → Exec (Unit {0})
  finalise_found result given none _ = pure tt
  finalise_found result given (some call) none = pure tt
  finalise_found result given (some call) (some case) = do
    customer ← gets (customer_of case)
    apply_call_result env settings case call result customer
        (if given then true else intent_sends_link result) none
    commit

  abbrev finalise_bound : CallResult → Bool → Option ℕ → Option ℕ → World → Unit {0} × World
  finalise_bound result given none _ w = (tt, w)
  finalise_bound result given (some _) none w = (tt, w)
  finalise_bound result given (some call_id) (some case_id) w =
      in_session (λ _. tt)
        (do
          call ← gets (get_voice_call call_id)
          case ← gets (get_case case_id)
          finalise_found result given call case)
        w

  -- `finalise_call`; `given` is `_client is not None`.
  unfoldable pub finalise_call : Option ℕ → Option ℕ → CallResult → Bool → World → Unit {0} × World
  finalise_call voice_call_id recovery_case_id result given w =
      finalise_bound result given (bound_case voice_call_id) (bound_case recovery_case_id) w

  -- A case without a customer gets one that is not stored.
  abbrev stand_in : RecoveryCase → Customer
  stand_in case = record {
    razorpay_customer_id =
        if truthy case.razorpay_customer_id then get_or case.razorpay_customer_id "" else "unknown";
    name = none;
    phone = none;
    email = none;
    preferred_language = "hi";
    do_not_contact = false;
    do_not_contact_reason = none;
    do_not_contact_at = none;
    phone_is_wrong = false;
    last_contacted_at = none;
  }

  abbrev pay_link_for : Option RecoveryCase → Exec Reply
  pay_link_for none = pure (not_sent "case not found")
  pay_link_for (some case) = do
    customer ← gets (customer_of case)
    now ← utcnow env
    linked ← create_recovery_link env settings case (get_or customer (stand_in case)) now
    commit
    pure (sent linked.1.short_url (some case.original_amount))

  abbrev pay_link_bound : Option ℕ → World → Reply × World
  pay_link_bound none w = (not_sent "no case attached to this call", w)
  pay_link_bound (some case_id) w =
      in_session (λ e. not_sent (reason e)) (gets (get_case case_id) >>= pay_link_for) w

  -- `send_payment_link_now`
  unfoldable pub send_payment_link_now : Option ℕ → World → Reply × World
  send_payment_link_now recovery_case_id w = pay_link_bound (bound_case recovery_case_id) w

  abbrev mandate_reply : Option String → Reply
  mandate_reply none = not_sent "could not send the mandate link"
  mandate_reply (some url) = sent url none

  abbrev mandate_link_to : RecoveryCase → Option Customer → Exec Reply
  mandate_link_to case none = pure (not_sent "no customer record")
  mandate_link_to case (some customer) = do
    url ← send_mandate_link env settings case customer
    commit
    pure (mandate_reply url)

  abbrev mandate_link_for : Option RecoveryCase → Exec Reply
  mandate_link_for none = pure (not_sent "case not found")
  mandate_link_for (some case) = gets (customer_of case) >>= mandate_link_to case

  abbrev mandate_link_bound : Option ℕ → World → Reply × World
  mandate_link_bound none w = (not_sent "no case bound to this call", w)
  mandate_link_bound (some case_id) w =
      in_session (λ e. not_sent (reason e)) (gets (get_case case_id) >>= mandate_link_for) w

  -- `send_mandate_link_now`
  unfoldable pub send_mandate_link_now : Option ℕ → World → Reply × World
  send_mandate_link_now recovery_case_id w = mandate_link_bound (bound_case recovery_case_id) w

-- `duration_since`, at the time `now`
unfoldable pub duration_since : Time → Option Time → Option ℕ
duration_since now none = none
duration_since now (some started) = some ((now - started) / seconds 1)
