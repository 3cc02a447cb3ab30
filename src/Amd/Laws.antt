-- ===== src/Amd/Laws.antt =====
-- app/voice/amd.py and app/webhooks/twilio_router.py: what a verdict does to the case and the call.
use dunning_agent.Prelude.{
  ◌-◌, Bool, true, false, ◌==◌, map, sym, ◌∙◌, ◌⊎◌, ◌≢◌, Option, none, some, List, [], ◌∷◌, ◌≡◌,
  refl, filter, if◌then◌else◌, Bool-cases, Option-cases, inl, inr,
}
use mathlib.Core.Bool.{false≢true}
use dunning_agent.Prelude.Text.{Codes, codes}
use dunning_agent.Template.{value_of}
use dunning_agent.Model.{RecoveryCase, VoiceCall, CallStatus}
use dunning_agent.World.{World, Result, ok, Exec, log_action, get_case, ◌>>=◌}
use dunning_agent.Calls.Links.{Result-cases}
use dunning_agent.Amd.{
  is_machine, is_call, call_by_sid, one_or_none, judge_call, apply_amd_result,
  verify_twilio_signature, Callback, hung_up, answering_machine_detection, signed_url, with_sid,
}

-- The call was not answered, and nothing else of its row is changed.
pub record IsUnanswered (call row : VoiceCall) : Type 0 where
  pub no_answer : row.status ≡ CallStatus.no_answer
  pub no_intent : row.detected_intent ≡ none
  pub rest_kept : record row { status = call.status; detected_intent = call.detected_intent } ≡ call

-- One attempt is given back, where there is one, and nothing else of the case is changed.
pub record IsRefunded (case row : RecoveryCase) : Type 0 where
  pub one_less : row.attempt_count ≡ case.attempt_count - 1
  pub rest_kept : record row { attempt_count = case.attempt_count } ≡ case

-- What a verdict on a call leaves: of a person, the case and the calls as they were; of a recording,
-- the case with an attempt given back, and among the calls this one as unanswered.
abbrev pub Judged :
    Bool → VoiceCall → RecoveryCase → World → Result (Option RecoveryCase) × World → Type 0
Judged false call case w (r, w') =
    (r ≡ ok none)
    × (get_case call.recovery_case_id w'.db ≡ some case)
    × (w'.db.voice_calls ≡ w.db.voice_calls)
Judged true call case w (r, w') =
    (case' : RecoveryCase) × (call' : VoiceCall) × IsRefunded case case'
    × IsUnanswered call call'
    × (r ≡ ok (some case'))
    × (get_case call.recovery_case_id w'.db ≡ some case')
    × (w'.db.voice_calls ≡ map (λ row. if row.id == call.id then call' else row) w.db.voice_calls)

judge_call-machine :
    (answered_by : Option Codes) (o : Option VoiceCall) (w : World) (c : RecoveryCase)
    → (judge_call answered_by o w).0 ≡ ok (some c)
    → is_machine answered_by ≡ true
unfolding log_action
judge_call-machine answered_by none w c h = cc
judge_call-machine answered_by (some call) w c h =
    elim (Option-cases (get_case call.recovery_case_id w.db)) [
      | inl e ↦ cc (rw e at h)
      | inr (case, e) ↦ elim (Bool-cases (is_machine answered_by)) [
        | inl m ↦ m
        | inr m ↦ cc (rw (e, m) at h)
      ]
    ]

apply_amd_result-machine :
    (call_sid : Codes) (answered_by : Option Codes) (w : World) (c : RecoveryCase)
    → (apply_amd_result call_sid answered_by w).0 ≡ ok (some c)
    → is_machine answered_by ≡ true
unfolding apply_amd_result call_by_sid
apply_amd_result-machine call_sid answered_by w c h =
    among (filter (is_call call_sid) w.db.voice_calls) h
  where
    among :
        (calls : List VoiceCall)
        → ((one_or_none calls >>= judge_call answered_by) w).0 ≡ ok (some c)
        → is_machine answered_by ≡ true
    among [] e = cc
    among (call ∷ []) e = judge_call-machine answered_by (some call) w c e
    among (a ∷ b ∷ calls) e = cc

module _ (sign : Codes → Codes → Codes) (hang_up : Codes → Exec (Unit {0}))
    (callback_url auth_token : Codes) where
  with_sid-hung_up :
      (answered_by : Option Codes) (sid : Option Codes) (w : World)
      → (with_sid sign hang_up callback_url auth_token answered_by sid w).0 ≡ ok hung_up
      → is_machine answered_by ≡ true
  with_sid-hung_up answered_by none w h = cc
  with_sid-hung_up answered_by (some []) w h = cc
  with_sid-hung_up answered_by (some (c ∷ sid)) w h =
      elim (Result-cases (apply_amd_result (c ∷ sid) answered_by w).0) [
        | inr (e, p) ↦ cc (rw p at h)
        | inl (none, p) ↦ cc (rw p at h)
        | inl (some case, p) ↦ apply_amd_result-machine (c ∷ sid) answered_by w case p
      ]

  answering_machine_detection-signed :
      (request : Callback) (w : World)
      → (answering_machine_detection sign hang_up callback_url auth_token request w).0 ≡ ok hung_up
      → (verify_twilio_signature sign
            (signed_url sign hang_up callback_url auth_token request.url)
            request.params
            request.signature
            auth_token
          ≡ true)
        × (is_machine (value_of (codes "AnsweredBy") request.params) ≡ true)
  unfolding answering_machine_detection
  answering_machine_detection-signed request w h =
      elim (Bool-cases (
        verify_twilio_signature sign (signed_url sign hang_up callback_url auth_token request.url)
          request.params request.signature auth_token)) [
            | inl v ↦ (
              v,
              with_sid-hung_up (value_of (codes "AnsweredBy") request.params)
                  (value_of (codes "CallSid") request.params) w (rw v at h),
            )
            | inr v ↦ cc (rw v at h)
          ]

  -- With a verdict that is none of a recording, hanging up is not reached.
  with_sid-spared :
      (hang_up' : Codes → Exec (Unit {0})) (answered_by sid : Option Codes) (w : World)
      → is_machine answered_by ≡ false
      → with_sid sign hang_up callback_url auth_token answered_by sid w
        ≡ with_sid sign hang_up' callback_url auth_token answered_by sid w
  with_sid-spared hang_up' answered_by none w h = refl
  with_sid-spared hang_up' answered_by (some []) w h = refl
  with_sid-spared hang_up' answered_by (some (c ∷ sid)) w h =
      elim (Result-cases (apply_amd_result (c ∷ sid) answered_by w).0) [
        | inr (e, p) ↦ rw p refl
        | inl (none, p) ↦ rw p refl
        | inl (some case, p) ↦
            absurd (false≢true (sym h ∙ apply_amd_result-machine (c ∷ sid) answered_by w case p))
      ]

  -- A request that Twilio did not sign, over the configured address or else the requested one, or
  -- whose own AnsweredBy names no recording, hangs up no call: the answer and the tables are the
  -- same whatever hanging up would do, and the answer is not the one for a call that was hung up.
  pub answering_machine_detection-hung_up :
      (hang_up' : Codes → Exec (Unit {0})) (request : Callback) (w : World)
      → (verify_twilio_signature sign
            (signed_url sign hang_up callback_url auth_token request.url)
            request.params
            request.signature
            auth_token
          ≡ false)
        ⊎ (is_machine (value_of (codes "AnsweredBy") request.params) ≡ false)
      → (answering_machine_detection sign hang_up callback_url auth_token request w
          ≡ answering_machine_detection sign hang_up' callback_url auth_token request w)
        × ((answering_machine_detection sign hang_up callback_url auth_token request w).0
            ≢ ok hung_up)
  unfolding answering_machine_detection
  answering_machine_detection-hung_up hang_up' request w (inl v) = rw v (refl, λ h. cc)
  answering_machine_detection-hung_up hang_up' request w (inr m) = (
    elim (Bool-cases (
        verify_twilio_signature sign (signed_url sign hang_up callback_url auth_token request.url)
          request.params request.signature auth_token)) [
            | inl v ↦ rw v (
                with_sid-spared hang_up' (value_of (codes "AnsweredBy") request.params)
                  (value_of (codes "CallSid") request.params) w m)
            | inr v ↦ rw v refl
          ],
    λ h. absurd (false≢true (sym m ∙ (answering_machine_detection-signed request w h).1)),
  )
