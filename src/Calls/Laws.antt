-- ===== src/Calls/Laws.antt =====
-- app/voice/persistence.py: what is on the record when a call is over.
use dunning_agent.Prelude.{
  ℕ, String, Bool, true, false, Option, none, some, List, [], ◌∷◌, ◌++◌, ◌≡◌, ◌≢◌, refl, ap, ◌∙◌,
  ◌==◌, find?, arith, if◌then◌else◌,
}
use dunning_agent.Model.{Time, Settings, Customer, RecoveryCase, VoiceCall, ActionType, Metadata}
use dunning_agent.World.{
  Db, World, Env, Exn, Result, ok, log_action, save_case, put_case, put_customer, put_voice_call,
  get_case, get_voice_call, replace_where,
}
use dunning_agent.World.Steps.{IsFrame, Steps, step_rules}
use dunning_agent.PaymentLinks.{create_recovery_link}
use dunning_agent.Orchestrator.Frames.{create_recovery_link-Steps}
use dunning_agent.Intents.{CallIntent, outcome_for}
use dunning_agent.Outcomes.{CallResult, finished, apply_call_result, link_after, intent_sends_link}
use dunning_agent.Calls.Record.{IsRecord, new_call-IsRecord}
use dunning_agent.Calls.{customer_of, open_call_record, finalise_call, new_call, add_call}

-- The rows of calls are left alone.
abbrev SameCalls : Db → Db → Type 0
SameCalls d e = e.voice_calls ≡ d.voice_calls

SameCalls-IsFrame : IsFrame SameCalls
SameCalls-IsFrame = record { reflexive = λ d. refl; transitive = λ d e f p q. q ∙ p }

log_action-SameCalls :
    (id : ℕ) (type : ActionType) (metadata : Metadata)
    → Steps SameCalls (log_action id type metadata)
unfolding log_action
log_action-SameCalls id type metadata = record { at = λ w. refl }

save_case-SameCalls : (case : RecoveryCase) → Steps SameCalls (save_case case)
unfolding put_case
save_case-SameCalls case = record { at = λ w. refl }

create_recovery_link-SameCalls :
    (env : Env) (settings : Settings) (case : RecoveryCase) (customer : Customer) (now : Time)
    → Steps SameCalls (create_recovery_link env settings case customer now)
create_recovery_link-SameCalls env settings case customer now =
    create_recovery_link-Steps SameCalls SameCalls-IsFrame log_action-SameCalls (λ _. Unit)
      (λ c _. save_case-SameCalls c) (λ _ _ _ _ _. tt) (λ c _. save_case-SameCalls _) env settings
      now customer case tt

link_after-SameCalls :
    (env : Env) (settings : Settings) (due : Bool) (case : RecoveryCase)
    (customer : Option Customer) (has_client : Bool)
    → Steps SameCalls (link_after env settings due case customer has_client)
unfolding link_after
link_after-SameCalls env settings false case customer has_client =
    search (step_rules, SameCalls-IsFrame)
link_after-SameCalls env settings true case none has_client = search (step_rules, SameCalls-IsFrame)
link_after-SameCalls env settings true case (some customer) false =
    search (step_rules, SameCalls-IsFrame)
link_after-SameCalls env settings true case (some customer) true =
    search (step_rules, SameCalls-IsFrame, create_recovery_link-SameCalls) depth 8

link_after-ok :
    (env : Env) (settings : Settings) (due : Bool) (case : RecoveryCase)
    (customer : Option Customer) (has_client : Bool) (w : World)
    → (c : RecoveryCase) × ((link_after env settings due case customer has_client w).0 ≡ ok c)
unfolding link_after
link_after-ok env settings false case customer has_client w = (case, refl)
link_after-ok env settings true case none has_client w = (case, refl)
link_after-ok env settings true case (some customer) false w = (case, refl)
link_after-ok env settings true case (some customer) true w = (_, refl)

tail :
    (env : Env) (settings : Settings) (due : Bool) (case : RecoveryCase)
    (customer : Option Customer) (has_client : Bool) (w : World)
    → ((c : RecoveryCase) × ((link_after env settings due case customer has_client w).0 ≡ ok c))
      × ((link_after env settings due case customer has_client w).1.db.voice_calls
          ≡ w.db.voice_calls)
tail env settings due case customer has_client w = (
  link_after-ok env settings due case customer has_client w,
  (link_after-SameCalls env settings due case customer has_client).at w,
)

-- A call's result is always applied, and of the calls it writes the row of this one.
abbrev IsApplied : VoiceCall → World → Result RecoveryCase × World → Type 0
IsApplied row w (r, w') =
    ((c : RecoveryCase) × (r ≡ ok c)) × (w'.db.voice_calls ≡ (put_voice_call row w.db).voice_calls)

apply_call_result-IsApplied :
    (env : Env) (settings : Settings) (case : RecoveryCase) (call : VoiceCall) (result : CallResult)
    (i : CallIntent) (customer : Option Customer) (has_client : Bool) (w : World)
    → IsApplied (finished (record result { intent = i }) (env.clock w.reads) call) w (
        apply_call_result env settings case call
          (record result { intent = i })
          customer
          has_client
          none
          w)
unfolding apply_call_result outcome_for log_action put_case put_voice_call put_customer
apply_call_result-IsApplied env settings case call result CallIntent.retry_now customer has_client
      w =
    tail env settings true _ customer has_client _
apply_call_result-IsApplied env settings case call result CallIntent.declined none has_client w =
    tail env settings false _ none has_client _
apply_call_result-IsApplied env settings case call result CallIntent.declined (some c) has_client
      w =
    tail env settings false _ (some c) has_client _
apply_call_result-IsApplied env settings case call result CallIntent.wrong_number none has_client
      w =
    tail env settings false _ none has_client _
apply_call_result-IsApplied env settings case call result CallIntent.wrong_number (some c)
      has_client w =
    tail env settings false _ (some c) has_client _
apply_call_result-IsApplied env settings case call result CallIntent.dispute none has_client w =
    tail env settings false _ none has_client _
apply_call_result-IsApplied env settings case call result CallIntent.dispute (some c) has_client w =
    tail env settings false _ (some c) has_client _
apply_call_result-IsApplied env settings case call result _ customer has_client w =
    tail env settings false _ customer has_client _

find-replaced_call :
    (id : ℕ) (new row : VoiceCall) (rows : List VoiceCall)
    → new.id ≡ id
    → find? (λ r. r.id == id) rows ≡ some row
    → find? (λ r. r.id == id) (replace_where (λ r. r.id == new.id) new rows) ≡ some new
find-replaced_call id new row [] same h = cc
find-replaced_call id new row (r ∷ rows) same h =
    ground (arith, find-replaced_call id new row rows same)

is_zero-false : (n : ℕ) → n ≢ 0 → (n == 0) ≡ false
is_zero-false n h = ground arith

find-added :
    (id : ℕ) (call : VoiceCall) (rows : List VoiceCall)
    → call.id ≡ id
    → find? (λ r. r.id == id) rows ≡ none
    → find? (λ r. r.id == id) (rows ++ call ∷ []) ≡ some call
find-added id call [] same h = ground arith
find-added id call (r ∷ rows) same h = ground (arith, find-added id call rows same)

module _ (env : Env) (settings : Settings) (reason : Exn → String) where
  finalise_call-runs :
      (call_id case_id : ℕ) (call : VoiceCall) (case : RecoveryCase) (result : CallResult)
      (given : Bool) (w : World) (c : RecoveryCase)
      → call_id ≢ 0
      → case_id ≢ 0
      → get_voice_call call_id w.db ≡ some call
      → get_case case_id w.db ≡ some case
      → (apply_call_result env settings case call result
          (customer_of case w.db)
          (if given then true else intent_sends_link result)
          none
          w).0
        ≡ ok c
      → (finalise_call env settings none reason (some call_id) (some case_id) result given w).1
        ≡ (apply_call_result env settings case call result
            (customer_of case w.db)
            (if given then true else intent_sends_link result)
            none
            w).1
  unfolding finalise_call
  finalise_call-runs call_id case_id call case result given w c c0 k0 call_found case_found
        returned =
      rw (is_zero-false call_id c0, is_zero-false case_id k0, call_found, case_found, returned) refl

  -- The end of a call on record writes its result on its row, whatever Razorpay answers.
  pub finalise_call-recorded :
      (call_id case_id : ℕ) (call : VoiceCall) (case : RecoveryCase) (result : CallResult)
      (given : Bool) (w : World)
      → call_id ≢ 0
      → case_id ≢ 0
      → call.id ≡ call_id
      → get_voice_call call_id w.db ≡ some call
      → get_case case_id w.db ≡ some case
      → get_voice_call call_id
          (finalise_call env settings none reason (some call_id) (some case_id) result given w).1.db
        ≡ some (finished result (env.clock w.reads) call)
  unfolding get_voice_call put_voice_call
  finalise_call-recorded call_id case_id call case result given w c0 k0 same call_found case_found =
      let client = if given then true else intent_sends_link result in
      let ((c, returned), rows) =
        apply_call_result-IsApplied env settings case call result result.intent
          (customer_of case w.db) client w in
      let row = finished result (env.clock w.reads) call in
      ap (λ (v : World). get_voice_call call_id v.db)
        (finalise_call-runs call_id case_id call case result given w c c0 k0 call_found case_found
          returned)
      ∙ ap (λ calls. find? (λ (r : VoiceCall). r.id == call_id) calls) rows
      ∙ find-replaced_call call_id row call w.db.voice_calls same call_found

  -- A call that is opened for a stored case, under a key that is not 0 and not taken, and finalised
  -- with any result, is on record under the key that `open_call_record` returned: the row holds the
  -- case, the room, the number and the carrier of the dial, and every part of the result. Nothing
  -- that the payment link meets can lose it.
  pub open_call_record-finalise_call :
      (case_id : ℕ) (case : RecoveryCase) (room_name : String) (dialled_number : Option String)
      (provider : String) (result : CallResult) (given : Bool) (w : World)
      → w.db.next_call_id ≢ 0
      → case_id ≢ 0
      → get_voice_call w.db.next_call_id w.db ≡ none
      → get_case case_id w.db ≡ some case
      → let (opened, w') =
          open_call_record env settings none reason
            (some case_id)
            room_name
            dialled_number
            provider
            w in
        let (_, w'') =
          finalise_call env settings none reason opened (some case_id) result given w' in
        (opened ≡ some w.db.next_call_id)
        × ((row : VoiceCall) × (get_voice_call w.db.next_call_id w''.db ≡ some row)
            × IsRecord case.id room_name dialled_number provider result (env.clock w.reads) row)
  unfolding open_call_record new_call get_voice_call get_case
  open_call_record-finalise_call case_id case room_name dialled_number provider result given w n0 k0
        fresh found =
      let id = w.db.next_call_id in
      let call = new_call case room_name dialled_number provider id in
      let w' = record w { db = add_call call w.db } in
      rw (is_zero-false case_id k0, found)
        (
          refl,
          (
            finished result (env.clock w.reads) call,
            finalise_call-recorded id case_id call case result given w' n0 k0 refl
                (find-added id call w.db.voice_calls refl fresh) found,
            new_call-IsRecord case room_name dialled_number provider id result (env.clock w.reads),
          ),
        )
