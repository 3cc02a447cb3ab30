-- ===== src/Walker/Route.antt =====
-- app/voice/walker.py: where a call can get to in a graph that was validated.
use dunning_agent.Prelude.{
  String, Option, none, some, List, [], ◌∷◌, ◌++◌, ◌≡◌, ◌≢◌, refl, ap, ◌∙◌, subst, inl, inr, arith,
  eq_iff, is_some, Elem, Elem-All, if◌then◌else◌, Bool-cases, Option-cases, map,
}
use dunning_agent.Prelude.Text.{Codes}
use dunning_agent.Template.{Context}
use dunning_agent.Graph.{
  Edge, Node, ConversationGraph, GraphError, Checked, passed, failed, is_end, find_node, node_at,
  start_node, targets, ids, validate,
}
use dunning_agent.Graph.Validation.{
  IsWellFormed, IsStage, StageOf, find_node-Elem, AllKnown-targets, validate-IsWellFormed,
  starts-start_node,
}
use dunning_agent.Graph.Rendering.{missing_variables}
use dunning_agent.Walker.{
  GraphWalker, broken, begin, place_if, placed, transition, walk, edge_for, finished, intent,
}

-- The nodes that a walk from the start visits, in order, and the node where it stands.
pub data Route (nodes : List Node) : List String → Node → Type 0 where
  starting : (first : Node) → start_node nodes ≡ some first → Route nodes (first.id ∷ []) first
  onward :
      {visited : List String} {u : Node} (edge : Edge) (v : Node) (visited' : List String)
      → Route nodes visited u
      → Elem edge u.edges
      → find_node edge.to nodes ≡ some v
      → visited' ≡ visited ++ v.id ∷ []
      → Route nodes visited' v

-- The call stands on a node of its graph, at the end of its route.
pub record IsOnRoute (nodes : List Node) (w : GraphWalker) : Type 0 where
  pub same : w.graph.nodes ≡ nodes
  pub route : Route nodes w.visited w.node
  pub stage : IsStage (ids nodes) w.node

pub edge_for-Elem :
    (label : String) (edge : Edge) (edges : List Edge)
    → edge_for label edges ≡ some edge
    → Elem edge edges × (edge.label ≡ label)
edge_for-Elem label edge [] h = cc
edge_for-Elem label edge (e ∷ edges) h =
    ground (arith, eq_iff e.label label, edge_for-Elem label edge edges)

Elem-targets :
    (edge : Edge) (edges : List Edge) → Elem edge edges → Elem edge.to (map (λ e. e.to) edges)
Elem-targets edge [] h = absurd h
Elem-targets edge (e ∷ edges) h = elim h [
  | inl p ↦ inl (ap (λ (k : Edge). k.to) p)
  | inr q ↦ inr (Elem-targets edge edges q)
]

pub place_if-passed :
    (graph : ConversationGraph) (context : Context) (o : Checked (List Codes)) (w : GraphWalker)
    → place_if graph context o ≡ passed w
    → (o ≡ passed []) × (placed graph context (start_node graph.nodes) ≡ passed w)
place_if-passed graph context (failed e) w h = cc
place_if-passed graph context (passed []) w h = (refl, h)
place_if-passed graph context (passed (name ∷ names)) w h = cc

pub begin-passed :
    (graph : ConversationGraph) (context : Context) (w : GraphWalker) (first : Node)
    → start_node graph.nodes ≡ some first
    → begin graph context ≡ passed w
    → (missing_variables graph context ≡ passed [])
      × (w.graph ≡ graph)
      × (w.context ≡ context)
      × (w.node ≡ first)
      × (w.visited ≡ first.id ∷ [])
      × (w.observations ≡ [])
unfolding begin
begin-passed graph context w first started h =
    let (m, p) = place_if-passed graph context (missing_variables graph context) w h in
    let q = rw started at p in (m, cc, cc, cc, cc, cc)

begin-IsOnRoute :
    (graph : ConversationGraph) (context : Context) (w : GraphWalker)
    → IsWellFormed graph.nodes
    → begin graph context ≡ passed w
    → IsOnRoute graph.nodes w
begin-IsOnRoute graph context w f h =
    let nodes = graph.nodes in
    let (started, among) = starts-start_node f.first nodes f.one_start in
    let (_, g, _, n, v, _) = begin-passed graph context w f.first started h in
    record {
      same = ap (λ (k : ConversationGraph). k.nodes) g;
      route = rw (v, n) (starting f.first started);
      stage = rw n (Elem-All (IsStage (ids nodes)) f.first nodes f.stages among);
    }

-- A transition in a validated graph never meets an unknown node, and stays on a route.
module _ (nodes : List Node) (f : IsWellFormed nodes) (w : GraphWalker) (on : IsOnRoute nodes w)
    (label : String) (utterance : Option String) where
  target_of :
      (edge : Edge)
      → Elem edge w.node.edges
      → (v : Node) × (find_node edge.to w.graph.nodes ≡ some v) × (find_node edge.to nodes ≡ some v)
  target_of edge among =
      let known = AllKnown-targets nodes w.node on.stage in
      let (v, found) =
        Elem-All (λ id. (n : Node) × (find_node id nodes ≡ some n)) edge.to (targets w.node) known
          (Elem-targets edge w.node.edges among) in
      (v, ap (find_node edge.to) on.same ∙ found, found)

  pub transition-IsOnRoute :
      IsOnRoute nodes (transition w label utterance).0
      × ((e : GraphError) → (transition w label utterance).1 ≢ broken e)
  unfolding transition node_at
  transition-IsOnRoute = elim (Bool-cases (finished w)) [
    | inl e ↦ rw e (on, λ e' h. cc)
    | inr going ↦ elim (Option-cases (edge_for label w.node.edges)) [
      | inl no_edge ↦
          rw (going, no_edge)
            (record { same = on.same; route = on.route; stage = on.stage }, λ e' h. cc)
      | inr (edge, e) ↦
          let (among, _) = edge_for-Elem label edge w.node.edges e in
          let (v, at, found) = target_of edge among in
          rw (going, e, at)
            (
              record {
                same = on.same;
                route = onward edge v _ on.route among found refl;
                stage = stage_in v (find_node-Elem edge.to v nodes found).0;
              },
              λ e' h. cc,
            )
    ]
  ]
    where
      stage_in : (v : Node) → Elem v nodes → IsStage (ids nodes) v
      stage_in v among = Elem-All (IsStage (ids nodes)) v nodes f.stages among

walk-IsOnRoute :
    (nodes : List Node) (w : GraphWalker) (turns : List (String × Option String))
    → IsWellFormed nodes
    → IsOnRoute nodes w
    → IsOnRoute nodes (walk w turns)
unfolding walk
walk-IsOnRoute nodes w [] f on = on
walk-IsOnRoute nodes w ((label, utterance) ∷ turns) f on =
    walk-IsOnRoute nodes (transition w label utterance).0 turns f
      (transition-IsOnRoute nodes f w on label utterance).0

stage-intent :
    (known : List String) (node : Node)
    → IsStage known node
    → is_some (if is_end node.kind then node.intent else none) ≡ is_end node.kind
stage-intent known node h = elim (Bool-cases (is_end node.kind)) [
  | inl e ↦ let (i, p) = (subst (λ b. StageOf b known node) e h).1 in rw (e, p) refl
  | inr e ↦ rw e refl
]

-- Whatever labels the model names in a call on a validated graph, the nodes that the call visited are
-- a walk along the graph's edges from its start, the call has an outcome exactly when it has ended,
-- and the next transition is either made or rejected: it raises no other error.
pub walk-Route :
    (graph : ConversationGraph) (context : Context) (w : GraphWalker)
    (turns : List (String × Option String)) (label : String) (utterance : Option String)
    → validate graph.nodes ≡ none
    → begin graph context ≡ passed w
    → Route graph.nodes (walk w turns).visited (walk w turns).node
      × (is_some (intent (walk w turns)) ≡ finished (walk w turns))
      × ((e : GraphError) → (transition (walk w turns) label utterance).1 ≢ broken e)
walk-Route graph context w turns label utterance v b =
    let f = (validate-IsWellFormed graph.nodes).0 v in
    let on = walk-IsOnRoute graph.nodes w turns f (begin-IsOnRoute graph context w f b) in
    (
      on.route,
      stage-intent (ids graph.nodes) (walk w turns).node on.stage,
      (transition-IsOnRoute graph.nodes f (walk w turns) on label utterance).1,
    )
