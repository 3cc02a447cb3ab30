-- ===== src/Walker.antt =====
-- app/voice/walker.py: the walk of a call through the conversation graph.
pub mod Route
pub mod Replay
pub mod Moves
pub mod Prompts
use dunning_agent.Prelude.{
  String, Bool, true, false, Option, none, some, List, [], ◌∷◌, ◌++◌, str_eq, if◌then◌else◌, find?,
  truthy, map,
}
use dunning_agent.Prelude.Text.{Codes, codes, concat, join}
use dunning_agent.Intents.{CallIntent}
use dunning_agent.Template.{Context, format}
use dunning_agent.Graph.{
  Edge, Node, ConversationGraph, GraphError, start_count, missing_variables as missing, Checked,
  passed, failed, is_end, node_at, start_node,
}
use dunning_agent.Graph.Rendering.{missing_variables, render, render_preamble, formatted}

pub record Observation : Type 0 where
  pub node_id : String
  pub label : String
  pub accepted : Bool
  pub utterance : Option String
  pub rejection : Option String

pub record GraphWalker : Type 0 where
  pub graph : ConversationGraph
  pub context : Context
  pub node : Node
  pub visited : List String
  pub observations : List Observation

abbrev placed : ConversationGraph → Context → Option Node → Checked GraphWalker
placed graph context none = failed (start_count 0)
placed graph context (some first) = passed (record {
  graph = graph;
  context = context;
  node = first;
  visited = first.id ∷ [];
  observations = [];
})

abbrev place_if : ConversationGraph → Context → Checked (List Codes) → Checked GraphWalker
place_if graph context (failed e) = failed e
place_if graph context (passed []) = placed graph context (start_node graph.nodes)
place_if graph context (passed (name ∷ names)) = failed (missing (name ∷ names))

-- `GraphWalker(graph, context)`, `__post_init__`
unfoldable pub begin : ConversationGraph → Context → Checked GraphWalker
begin graph context = place_if graph context (missing_variables graph context)

abbrev pub finished : GraphWalker → Bool
finished w = is_end w.node.kind

abbrev pub intent : GraphWalker → Option CallIntent
intent w = if finished w then w.node.intent else none

-- The outcomes of `transition`: the new node, InvalidTransition with its message, or another GraphError.
pub data Move : Type 0 where
  moved : Node → Move
  rejected : String → Move
  broken : GraphError → Move

abbrev observe : GraphWalker → Observation → GraphWalker
observe w o = record w { observations = w.observations ++ o ∷ [] }

abbrev observed : GraphWalker → String → Option String → Option String → Observation
observed w label utterance none = record {
  node_id = w.node.id;
  label = label;
  accepted = true;
  utterance = utterance;
  rejection = none;
}
observed w label utterance (some message) = record {
  node_id = w.node.id;
  label = label;
  accepted = false;
  utterance = utterance;
  rejection = some message;
}

abbrev arrive : GraphWalker → Checked Node → GraphWalker × Move
arrive w (failed e) = (w, broken e)
arrive w (passed node) = (record w { node = node; visited = w.visited ++ node.id ∷ [] }, moved node)

unfoldable pub ended_message : GraphWalker → String
ended_message w = concat ("call already ended at '" ∷ w.node.id ∷ "'" ∷ [])

abbrev label_texts : List Edge → List String
label_texts edges = map (λ edge. edge.label) edges

unfoldable pub invalid_message : GraphWalker → String → String
invalid_message w label = concat (
    "'"
    ∷ label
    ∷ "' is not a valid move from '"
    ∷ w.node.id
    ∷ "'; expected one of: "
    ∷ join ", " (label_texts w.node.edges)
    ∷ [])

abbrev pub edge_for : String → List Edge → Option Edge
edge_for label edges = find? (λ edge. str_eq edge.label label) edges

abbrev take_edge : GraphWalker → String → Option String → Option Edge → GraphWalker × Move
take_edge w label utterance (some edge) =
    arrive (observe w (observed w label utterance none)) (node_at w.graph.nodes edge.to)
take_edge w label utterance none = (
  observe w (observed w label utterance (some (invalid_message w label))),
  rejected (invalid_message w label),
)

-- `transition`
unfoldable pub transition : GraphWalker → String → Option String → GraphWalker × Move
transition w label utterance =
    if finished w
    then (w, rejected (ended_message w))
    else take_edge w label utterance (edge_for label w.node.edges)

-- The labels that the model names during a call, each with what the customer said. The caller catches
-- the GraphError of a transition and goes on.
unfoldable pub walk : GraphWalker → List (String × Option String) → GraphWalker
walk w [] = w
walk w ((label, utterance) ∷ turns) = walk (transition w label utterance).0 turns

-- `preamble`
unfoldable pub preamble : GraphWalker → Checked Codes
preamble w = render_preamble w.graph w.context

-- `moves`
unfoldable pub moves : GraphWalker → String
moves w =
    join "\n" (map (λ edge. concat ("- " ∷ edge.label ∷ ": " ∷ edge.condition ∷ [])) w.node.edges)

abbrev end_instructions : String
end_instructions =
    concat ("\n\nThis is the end of the call. Do not ask any further questions." ∷ [])

abbrev move_instructions : String
move_instructions = concat (
    "\n\nCall the `transition` tool as soon as one of the labels below matches what the "
    ∷ "customer just said. They describe this moment in the call, not their final decision "
    ∷ "-- staying here to keep talking is how a call ends with nothing recorded. If none "
    ∷ "of them matches yet, ask one short clarifying question instead.\n\nUsing another tool "
    ∷ "is not a substitute. Sending a link is an action; the transition is what records "
    ∷ "what the customer decided, and nothing else does it for you.\n\nSay your reply in the "
    ∷ "SAME response as the tool call -- speak first, then call the tool. A tool call on "
    ∷ "its own is silence on the line while you are asked again, and the customer is "
    ∷ "waiting.\n\nAvailable labels:\n" ∷ [])

abbrev followed_by : Codes → Checked Codes → Checked Codes
followed_by rest (failed e) = failed e
followed_by rest (passed text) = passed (text ++ rest)

abbrev prompt_of : GraphWalker → Option String → Checked Codes
prompt_of w (some text) = passed (codes text)
prompt_of w none = render w.graph w.node.id w.context

-- `stage_instructions`
unfoldable pub stage_instructions : GraphWalker → Option String → Checked Codes
stage_instructions w override_prompt =
    followed_by
      (if finished w then codes end_instructions else codes move_instructions ++ codes (moves w))
      (prompt_of w override_prompt)

abbrev blank_line : Codes
blank_line = codes "\n\n"

abbrev both : Checked Codes → Checked Codes → Checked Codes
both (failed e) b = failed e
both (passed a) b = elim b [ failed e ↦ failed e | passed c ↦ passed (a ++ (blank_line ++ c)) ]

-- `instructions`
unfoldable pub instructions : GraphWalker → Checked Codes
instructions w = both (preamble w) (stage_instructions w none)

abbrev spoken : Option Edge → Context → Checked (Option Codes)
spoken none context = passed none
spoken (some edge) context = elim edge.speech [
  | none ↦ passed none
  | some speech ↦ elim (formatted (format (codes speech) context)) [
    | failed e ↦ failed e
    | passed out ↦ passed (some out)
  ]
]

-- `transition_speech`
unfoldable pub transition_speech : GraphWalker → String → Checked (Option Codes)
transition_speech w label =
    spoken
      (find? (λ edge. if str_eq edge.label label then truthy edge.speech else false) w.node.edges)
      w.context
