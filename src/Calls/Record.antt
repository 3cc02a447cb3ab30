-- ===== src/Calls/Record.antt =====
-- app/voice/persistence.py: what the row of a finished call says.
use dunning_agent.Prelude.{ℕ, String, Option, none, some, List, [], ◌∷◌, ◌≡◌, refl, get_or}
use dunning_agent.Model.{Time, RecoveryCase, VoiceCall, Metadata}
use dunning_agent.Intents.{intent_text}
use dunning_agent.Outcomes.{CallResult, finished, kept}
use dunning_agent.Calls.{new_call}

-- What a call's row says: of the dial its case, room, number and carrier; of the end its result, with
-- no observation lost, and the time. It has no SID.
pub record IsRecord (case_id : ℕ) (room_name : String) (dialled_number : Option String)
    (provider : String) (result : CallResult) (ended : Time) (row : VoiceCall) : Type 0 where
  pub of_case : row.recovery_case_id ≡ case_id
  pub in_room : row.room_name ≡ some room_name
  pub to_number : row.dialled_number ≡ dialled_number
  pub by_carrier : row.provider ≡ provider
  pub with_sid : row.call_id ≡ none
  pub status_kept : row.status ≡ result.status
  pub intent_kept : row.detected_intent ≡ some (intent_text result.intent)
  pub node_kept : row.final_node_id ≡ result.final_node_id
  pub transcript_kept : row.transcript ≡ result.transcript
  pub duration_kept : row.duration_seconds ≡ result.duration_seconds
  pub answer_kept : row.answered_at ≡ result.answered_at
  pub error_kept : row.error ≡ result.error
  pub transitions_kept : get_or row.transitions [] ≡ get_or result.transitions []
  pub ended_then : row.ended_at ≡ some ended

kept-get_or : (o : Option (List Metadata)) → get_or (kept o) [] ≡ get_or o []
kept-get_or none = refl
kept-get_or (some []) = refl
kept-get_or (some (t ∷ ts)) = refl

pub new_call-IsRecord :
    (case : RecoveryCase) (room_name : String) (dialled_number : Option String) (provider : String)
    (id : ℕ) (result : CallResult) (ended : Time)
    → IsRecord case.id room_name dialled_number provider result ended
        (finished result ended (new_call case room_name dialled_number provider id))
unfolding new_call
new_call-IsRecord case room_name dialled_number provider id result ended = record {
  of_case = refl;
  in_room = refl;
  to_number = refl;
  by_carrier = refl;
  with_sid = refl;
  status_kept = refl;
  intent_kept = refl;
  node_kept = refl;
  transcript_kept = refl;
  duration_kept = refl;
  answer_kept = refl;
  error_kept = refl;
  transitions_kept = kept-get_or result.transitions;
  ended_then = refl;
}
