-- ===== src/Amd.antt =====
-- app/voice/amd.py and app/webhooks/twilio_router.py: Twilio's verdict on who answered a call.
pub mod Laws
pub mod Unmatched
use dunning_agent.Prelude.{
  ℕ, ◌-◌, String, Bool, true, false, ◌||◌, Option, none, some, List, [], ◌∷◌, ◌++◌, ◌==◌, ltb,
  str_eq, filter, any, sort_by, get_or, if◌then◌else◌,
}
use dunning_agent.Prelude.Text.{Codes, codes, codes_eq, strip, lower}
use dunning_agent.Template.{value_of}
use dunning_agent.Model.{RecoveryCase, VoiceCall, CallStatus, ActionType, Value}
use dunning_agent.World.{
  World, Exn, other_error, Result, ok, err, Exec, pure, raise, gets, attempt, ◌>>=◌, ◌>>◌,
  log_action, save_case, save_voice_call, get_case,
}

-- MACHINE_VERDICTS
abbrev machine_verdicts : List Codes
machine_verdicts =
    codes "machine_start"
    ∷ codes "machine_end_beep"
    ∷ codes "machine_end_silence"
    ∷ codes "machine_end_other"
    ∷ codes "fax"
    ∷ []

-- `is_machine`
unfoldable pub is_machine : Option Codes → Bool
is_machine answered_by = any (codes_eq (lower (strip (get_or answered_by [])))) machine_verdicts

-- Two texts in the order of `sorted`.
unfoldable pub codes_before : Codes → Codes → Bool
codes_before s [] = false
codes_before [] (b ∷ t) = true
codes_before (a ∷ s) (b ∷ t) = let rest = codes_before s t in if a == b then rest else ltb a b

abbrev pub Params : Type 0
Params = List (Codes × Codes)

abbrev joined : Params → Codes
joined [] = []
joined ((key, value) ∷ params) = key ++ (value ++ joined params)

-- The text that Twilio signs: the address, and the parameters in the order of their names.
unfoldable pub signed_text : Codes → Params → Codes
signed_text url params = url ++ joined (sort_by (λ a b. codes_before a.0 b.0) params)

-- `sign token text` is the HMAC-SHA1 of the text under the token, in base64.
module _ (sign : Codes → Codes → Codes) where
  -- `verify_twilio_signature`
  unfoldable pub verify_twilio_signature : Codes → Params → Option Codes → Codes → Bool
  verify_twilio_signature url params none token = false
  verify_twilio_signature url params (some []) token = false
  verify_twilio_signature url params (some (c ∷ signature)) [] = false
  verify_twilio_signature url params (some (c ∷ signature)) (t ∷ token) =
      codes_eq (sign (t ∷ token) (signed_text url params)) (c ∷ signature)

abbrev pub is_call : Codes → VoiceCall → Bool
is_call call_sid call = elim call.call_id [ none ↦ false | some id ↦ codes_eq (codes id) call_sid ]

-- `scalar_one_or_none`
abbrev one_or_none : List VoiceCall → Exec (Option VoiceCall)
one_or_none [] = pure none
one_or_none (call ∷ []) = pure (some call)
one_or_none (a ∷ b ∷ calls) = raise other_error

unfoldable pub call_by_sid : Codes → Exec (Option VoiceCall)
call_by_sid call_sid = gets (λ db. filter (is_call call_sid) db.voice_calls) >>= one_or_none

abbrev pub unanswered : VoiceCall → VoiceCall
unanswered call = record call { status = CallStatus.no_answer; detected_intent = none }

-- `max((case.attempt_count or 1) - 1, 0)`
abbrev pub refunded : RecoveryCase → RecoveryCase
refunded case = record case {
  attempt_count = (if case.attempt_count == 0 then 1 else case.attempt_count) - 1;
}

abbrev verdict_value : Option Codes → Value
verdict_value none = Value.null
verdict_value (some text) = Value.chars text

abbrev pub log_verdict : RecoveryCase → VoiceCall → Option Codes → Exec (Unit {0})
log_verdict case call answered_by = log_action case.id ActionType.voice_call (
    ("voice_call_id", Value.num call.id)
    ∷ ("answered_by", verdict_value answered_by)
    ∷ ("machine", Value.bool (is_machine answered_by))
    ∷ [])

abbrev refund_if : Bool → RecoveryCase → VoiceCall → Exec (Option RecoveryCase)
refund_if false case call = pure none
refund_if true case call = do
  save_voice_call (unanswered call)
  save_case (refunded case)
  pure (some (refunded case))

abbrev judge : Option Codes → VoiceCall → Option RecoveryCase → Exec (Option RecoveryCase)
judge answered_by call none = pure none
judge answered_by call (some case) = do
  log_verdict case call answered_by
  refund_if (is_machine answered_by) case call

abbrev judge_call : Option Codes → Option VoiceCall → Exec (Option RecoveryCase)
judge_call answered_by none = pure none
judge_call answered_by (some call) =
    gets (get_case call.recovery_case_id) >>= judge answered_by call

-- `apply_amd_result`
unfoldable pub apply_amd_result : Codes → Option Codes → Exec (Option RecoveryCase)
apply_amd_result call_sid answered_by = call_by_sid call_sid >>= judge_call answered_by

-- What the endpoint answers: 401, 400, or one of two bodies.
pub data Response : Type 0 where
  invalid_signature missing_call_sid recorded hung_up : Response

pub record Callback : Type 0 where
  pub url : Codes
  pub params : Params
  pub signature : Option Codes

-- The settings of the endpoint: `twilio_amd_callback_url` and `twilio_auth_token`.
module _ (sign : Codes → Codes → Codes) (hang_up : Codes → Exec (Unit {0}))
    (callback_url auth_token : Codes) where
  abbrev pub signed_url : Codes → Codes
  signed_url requested = elim callback_url [ [] ↦ requested | (c ∷ url) ↦ c ∷ url ]

  abbrev end_call : Codes → Option RecoveryCase → Exec Response
  end_call call_sid none = pure recorded
  end_call call_sid (some case) = attempt (hang_up call_sid) >> pure hung_up

  abbrev with_sid : Option Codes → Option Codes → Exec Response
  with_sid answered_by none = pure missing_call_sid
  with_sid answered_by (some []) = pure missing_call_sid
  with_sid answered_by (some (c ∷ call_sid)) =
      apply_amd_result (c ∷ call_sid) answered_by >>= end_call (c ∷ call_sid)

  -- `answering_machine_detection`
  unfoldable pub answering_machine_detection : Callback → Exec Response
  answering_machine_detection request =
      if verify_twilio_signature sign (signed_url request.url) request.params request.signature
        auth_token
      then with_sid (value_of (codes "AnsweredBy") request.params)
          (value_of (codes "CallSid") request.params)
      else pure invalid_signature
