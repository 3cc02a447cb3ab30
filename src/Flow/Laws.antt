-- ===== src/Flow/Laws.antt =====
-- app/voice/flow.py: what every call on the program's own conversation keeps to.
use dunning_agent.Prelude.{
  ℕ, ◌≤◌, String, Option, none, List, ◌≡◌, refl, arith, str_eq, length, if◌then◌else◌,
}
use dunning_agent.Prelude.Text.{Codes}
use dunning_agent.Template.{Context, parse, scan, step}
use dunning_agent.Graph.{
  passed, validate, validate_nodes, validate_node, validate_edges, validate_reachability,
  reach_from, advance, node_at, find_node, start_node,
}
use dunning_agent.Walker.{GraphWalker, begin, walk, instructions}
use dunning_agent.Walker.Prompts.{HasNamedFields, walk-instructions}
use dunning_agent.Walker.Route.{walk-Route}
use dunning_agent.Walker.Moves.{RaisesRank, Route-length}
use dunning_agent.Flow.{flow_nodes, dunning_flow}
use dunning_agent.Flow.Stages.{greet}

-- The graph raises no GraphError as the program is started.
pub validate-flow : validate flow_nodes ≡ none
unfolding validate validate_nodes validate_node validate_edges validate_reachability reach_from
    advance node_at find_node start_node
validate-flow = refl

-- How far into the call a node is.
abbrev rank : String → ℕ
rank id =
    if str_eq id "greet"
    then 0
    else if str_eq id "explain"
    then 1
    else if str_eq id "reason_inquiry"
    then 2
    else if str_eq id "ask_intent"
    then 3
    else 4

rank-le : (id : String) → rank id ≤ 4
rank-le id = ground arith

flow-RaisesRank : RaisesRank rank flow_nodes
flow-RaisesRank = omega arith

-- However often the model names a label, a call visits at most five nodes.
pub visited-le :
    (context : Context) (w : GraphWalker) (turns : List (String × Option String))
    → begin dunning_flow context ≡ passed w
    → length (walk w turns).visited ≤ 5
visited-le context w turns b =
    let (route, _, _) = walk-Route dunning_flow context w turns "" none validate-flow b in
    omega (
      arith,
      Route-length rank flow_nodes (greet, refl) (walk w turns).visited (walk w turns).node
          flow-RaisesRank route,
      rank-le (walk w turns).node.id,
    )

pub flow-HasNamedFields : HasNamedFields dunning_flow
unfolding parse scan step
flow-HasNamedFields = omega arith

-- Once the call's context was accepted, every stage of a call on the program's conversation has its
-- instructions, whatever labels the model names.
pub flow-instructions :
    (context : Context) (w : GraphWalker) (turns : List (String × Option String))
    → begin dunning_flow context ≡ passed w
    → (out : Codes) × (instructions (walk w turns) ≡ passed out)
flow-instructions context w turns =
    walk-instructions dunning_flow context w turns validate-flow flow-HasNamedFields
