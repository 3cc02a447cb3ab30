-- ===== src/Session/Records.antt =====
-- app/voice/pipecat_agent.py: what the end of a call's session leaves on the record of the call.
use dunning_agent.Prelude.{
  ℕ, ◌+◌, String, false, Option, none, some, List, [], ◌∷◌, ◌≡◌, ◌≢◌, refl, ap, sym, subst, ◌∙◌,
  get_or,
}
use dunning_agent.Model.{Settings, CallStatus, RecoveryCase, VoiceCall}
use dunning_agent.World.{World, Env, Exn, get_case, get_voice_call}
use dunning_agent.Intents.{CallIntent, intent_text}
use dunning_agent.Walker.{intent}
use dunning_agent.Outcomes.{finished}
use dunning_agent.Calls.{finalise_call}
use dunning_agent.Calls.Laws.{finalise_call-recorded}
use dunning_agent.Session.{DunningSession, note_tts_failure, result_of, finalise, finalise_once}

-- What a call's record says of its end: the outcome of the conversation, or that the call failed and
-- nothing is known.
abbrev pub ending : List String → DunningSession → CallStatus × Option String
ending [] s =
    (CallStatus.completed, some (intent_text (get_or (intent s.walker) CallIntent.unclear)))
ending (failure ∷ failures) s = (CallStatus.failed, some (intent_text CallIntent.unclear))

abbrev pub ends_as : VoiceCall → CallStatus × Option String
ends_as call = (call.status, call.detected_intent)

abbrev pub Recorded : ℕ → CallStatus × Option String → World → Type 0
Recorded call_id e w =
    (row : VoiceCall) × (get_voice_call call_id w.db ≡ some row) × (ends_as row ≡ e)

module _ (shown : ℕ → String) (transcript : Option String) where
  result_of-ending :
      (s : DunningSession) (now ended : ℕ) (call : VoiceCall) (failures : List String)
      → s.tts_failures ≡ failures
      → ends_as (finished (result_of shown transcript s now) ended call) ≡ ending s.tts_failures s
  unfolding result_of
  result_of-ending s now ended call [] h = rw h refl
  result_of-ending s now ended call (failure ∷ failures) h = rw h refl

  module _ (env : Env) (settings : Settings) (reason : Exn → String) where
    -- The end of a session that is not finalised, and whose call and case are on record, puts its
    -- outcome on the record of the call: that of the conversation, completed, where no line was lost,
    -- and otherwise a failed call whose intent is unclear. To finalise the session once more, even
    -- after another failure of the speech, changes nothing.
    pub finalise-Recorded :
        (s : DunningSession) (case_id call_id : ℕ) (case : RecoveryCase) (call : VoiceCall)
        (error : String) (w : World)
        → s.finalised ≡ false
        → s.recovery_case_id ≡ some case_id
        → s.voice_call_id ≡ some call_id
        → case_id ≢ 0
        → call_id ≢ 0
        → call.id ≡ call_id
        → get_case case_id w.db ≡ some case
        → get_voice_call call_id w.db ≡ some call
        → let (s', w') = finalise shown transcript env settings none reason s w in
          Recorded call_id (ending s.tts_failures s) w'
          × (finalise shown transcript env settings none reason (note_tts_failure s' error) w'
              ≡ (note_tts_failure s' error, w'))
    unfolding finalise note_tts_failure
    finalise-Recorded s case_id call_id case call error w unfinished has_case has_call k0 c0 same
          case_found call_found =
        let w' = record w { reads = w.reads + 1 } in
        let result = result_of shown transcript s (env.clock w.reads) in
        let run = λ (v : Option ℕ) (r : Option ℕ).
          (finalise_call env settings none reason v r result false w').1 in
        let row_of = λ (u : World). get_voice_call call_id u.db in
        let begun =
          ap (λ b. finalise_once shown transcript env settings none reason b s w) unfinished in
        subst
          (λ (p : DunningSession × World).
            Recorded call_id (ending s.tts_failures s) p.1
            × (finalise shown transcript env settings none reason (note_tts_failure p.0 error) p.1
                ≡ (note_tts_failure p.0 error, p.1)))
          (sym begun)
          (
            (
              finished result (env.clock w'.reads) call,
              ap (λ v. row_of (run v s.recovery_case_id)) has_call
                  ∙ ap (λ r. row_of (run (some call_id) r)) has_case
                  ∙ finalise_call-recorded env settings reason call_id case_id call case result
                      false w' c0 k0 same call_found case_found,
              result_of-ending s (env.clock w.reads) (env.clock w'.reads) call s.tts_failures refl,
            ),
            refl,
          )
