-- ===== src/Session.antt =====
-- app/voice/pipecat_agent.py: a call's session, between the model that names labels and the tables.
pub mod Laws
pub mod Records
use dunning_agent.Prelude.{
  ℕ, ◌+◌, String, Bool, true, false, ◌&&◌, not, Option, none, some, List, [], ◌∷◌, ◌++◌, length,
  leb, any, str_eq, map, get_or, if◌then◌else◌,
}
use dunning_agent.Prelude.Text.{Codes, concat}
use dunning_agent.Model.{Settings, Time, CallStatus, Value, Metadata}
use dunning_agent.World.{World, Env, Exn}
use dunning_agent.Intents.{CallIntent}
use dunning_agent.Graph.{GraphError, Checked, passed, failed}
use dunning_agent.Walker.{
  GraphWalker, Observation, Move, moved, rejected, broken, transition, stage_instructions, moves,
  intent, finished as is_finished,
}
use dunning_agent.Outcomes.{CallResult}
use dunning_agent.Calls.{finalise_call, duration_since}

-- `backchannel_gate` is the gate's `enabled`, where there is a gate; `finished` is the event.
pub record DunningSession : Type 0 where
  pub walker : GraphWalker
  pub finished : Bool
  pub recovery_case_id : Option ℕ
  pub voice_call_id : Option ℕ
  pub started_at : Time
  pub finalised : Bool
  pub rejections : ℕ
  pub tts_failures : List String
  pub backchannel_gate : Option Bool

-- What the tool `transition` answers the model: the stage and its instructions, or the message, the
-- stage, the correction and `run_llm`; or else an exception of the graph.
pub data Answer : Type 0 where
  handed_over : String → Codes → Answer
  refused : String → String → String → Bool → Answer
  raised : GraphError → Answer

-- MAX_TRANSITION_RETRIES
abbrev pub max_transition_retries : ℕ
max_transition_retries = 2

-- SILENT_NODES
abbrev silent_nodes : List String
silent_nodes = "dispute" ∷ "declined" ∷ "wrong_number" ∷ []

abbrev gate_at : GraphWalker → Option Bool → Option Bool
gate_at w none = none
gate_at w (some enabled) = some (not (any (str_eq w.node.id) silent_nodes))

-- `apply_backchannel_policy`
unfoldable pub apply_backchannel_policy : DunningSession → DunningSession
apply_backchannel_policy s = record s { backchannel_gate = gate_at s.walker s.backchannel_gate }

abbrev correction : String → String
correction labels = concat (
    "You have not moved. Do not repeat what you have already said. Choose the label below that "
    ∷ "matches what the customer just said, or ask one short clarifying question "
    ∷ "instead.\n\nAvailable labels:\n" ∷ labels ∷ [])

-- `_reject_transition`, with the text of the exception
unfoldable pub reject_transition : DunningSession → String → DunningSession × Answer
reject_transition s message = (
  record s { rejections = s.rejections + 1 },
  refused message s.walker.node.id (correction (moves s.walker))
      (leb (s.rejections + 1) max_transition_retries),
)

abbrev pub hand_over : DunningSession → Checked Codes → DunningSession × Answer
hand_over s (failed e) = (s, raised e)
hand_over s (passed instructions) = (
  record s { finished = if is_finished s.walker then true else s.finished },
  handed_over s.walker.node.id instructions,
)

abbrev accept_transition : DunningSession → DunningSession × Answer
accept_transition s =
    hand_over (apply_backchannel_policy (record s { rejections = 0 }))
      (stage_instructions s.walker none)

abbrev pub after_move : DunningSession → GraphWalker × Move → DunningSession × Answer
after_move s (w, moved node) = accept_transition (record s { walker = w })
after_move s (w, rejected message) = reject_transition (record s { walker = w }) message
after_move s (w, broken e) = (record s { walker = w }, raised e)

-- `on_transition`; `heard` is `_last_user_said()`.
unfoldable pub on_transition : DunningSession → String → Option String → DunningSession × Answer
on_transition s label heard = after_move s (transition s.walker label heard)

-- The labels that the model names during a call, with the answers to them.
unfoldable pub converse :
    DunningSession → List (String × Option String) → DunningSession × List Answer
converse s [] = (s, [])
converse s ((label, heard) ∷ turns) =
    let (next, answer) = on_transition s label heard in
    let (last, answers) = converse next turns in (last, answer ∷ answers)

-- `note_tts_failure`
unfoldable pub note_tts_failure : DunningSession → String → DunningSession
note_tts_failure s error = record s { tts_failures = s.tts_failures ++ error ∷ [] }

abbrev maybe_text : Option String → Value
maybe_text none = Value.null
maybe_text (some t) = Value.text t

-- `asdict` of an observation
abbrev as_dict : Observation → Metadata
as_dict o =
    ("node_id", Value.text o.node_id)
    ∷ ("label", Value.text o.label)
    ∷ ("accepted", Value.bool o.accepted)
    ∷ ("utterance", maybe_text o.utterance)
    ∷ ("rejection", maybe_text o.rejection)
    ∷ []

-- `observations_as_dicts`
unfoldable pub observations_as_dicts : GraphWalker → List Metadata
observations_as_dicts w = map as_dict w.observations

-- `shown` is `str` of a number; `transcript` is `_transcript()`, the text of the framework's context.
module _ (shown : ℕ → String) (transcript : Option String) where
  abbrev outcome_of : DunningSession → List String → CallIntent × CallStatus × Option String
  outcome_of s [] = (get_or (intent s.walker) CallIntent.unclear, CallStatus.completed, none)
  outcome_of s (first ∷ rest) = (
    CallIntent.unclear,
    CallStatus.failed,
    some (concat (shown (length (first ∷ rest)) ∷ " TTS failures; first: " ∷ first ∷ [])),
  )

  -- The result that `finalise` hands on, at the time `now`.
  unfoldable pub result_of : DunningSession → Time → CallResult
  result_of s now =
      let (intent, status, error) = outcome_of s s.tts_failures in
      record {
        intent = intent;
        status = status;
        final_node_id = some s.walker.node.id;
        transcript = transcript;
        duration_seconds = duration_since now (some s.started_at);
        answered_at = some s.started_at;
        error = error;
        transitions = some (observations_as_dicts s.walker);
      }

  module _ (env : Env) (settings : Settings) (trouble : Option Exn) (reason : Exn → String) where
    abbrev pub finalise_once : Bool → DunningSession → World → DunningSession × World
    finalise_once true s w = (s, w)
    finalise_once false s w = (
      record s { finalised = true },
      (finalise_call env settings trouble reason s.voice_call_id s.recovery_case_id
          (result_of s (env.clock w.reads)) false (record w { reads = w.reads + 1 })).1,
    )

    -- `finalise`
    unfoldable pub finalise : DunningSession → World → DunningSession × World
    finalise s w = finalise_once s.finalised s w
