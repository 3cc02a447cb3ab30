-- ===== src/Graph.antt =====
-- app/voice/graph.py: the conversation graph, its validation and its rendering.
pub mod Search
pub mod Validation
pub mod Rendering
use dunning_agent.Prelude.{
  ℕ, zero, suc, ◌+◌, String, Bool, true, false, ◌&&◌, not, Option, none, some, List, [], ◌∷◌, ◌++◌,
  ◌==◌, if◌then◌else◌, any, filter, map, length, is_some, str_eq,
}
use dunning_agent.Prelude.Sets.{contains, all_distinct, without}
use dunning_agent.Prelude.Text.{Codes}
use dunning_agent.Intents.{CallIntent}

pub data NodeKind : Type 0 where
  start agent end : NodeKind

pub record Edge : Type 0 where
  pub to : String
  pub condition : String
  pub label : String
  pub speech : Option String

pub record Node : Type 0 where
  pub id : String
  pub kind : NodeKind
  pub prompt : String
  pub edges : List Edge
  pub extracts : List String
  pub intent : Option CallIntent

pub record ConversationGraph : Type 0 where
  pub nodes : List Node
  pub preamble : String

-- The ways in which `GraphError` is raised, and a search that is cut off.
pub data GraphError : Type 0 where
  no_nodes duplicate_ids no_terminal malformed_template out_of_fuel : GraphError
  start_count : ℕ → GraphError
  terminal_edges terminal_without_intent early_intent dead_end duplicate_labels :
      String → GraphError
  unknown_node : String → GraphError
  unknown_target self_loop : String → String → GraphError
  unreachable : List String → GraphError
  missing_variables : List Codes → GraphError

pub data Checked (A : Type 0) : Type 0 where
  passed : A → Checked A
  failed : GraphError → Checked A

abbrev pub is_start : NodeKind → Bool
is_start start = true
is_start _ = false

-- `Node.is_terminal`
abbrev pub is_end : NodeKind → Bool
is_end end = true
is_end _ = false

abbrev pub ids : List Node → List String
ids nodes = map (λ node. node.id) nodes

abbrev pub targets : Node → List String
targets node = map (λ edge. edge.to) node.edges

abbrev pub labels_of : Node → List String
labels_of node = map (λ edge. edge.label) node.edges

abbrev later_or : Option Node → Node → Bool → Option Node
later_or (some n) node same = some n
later_or none node true = some node
later_or none node false = none

-- `_by_id.get(id)`: of two nodes with one id, the dictionary keeps the later.
unfoldable pub find_node : String → List Node → Option Node
find_node id [] = none
find_node id (node ∷ nodes) = later_or (find_node id nodes) node (str_eq node.id id)

abbrev known_or : String → Option Node → Checked Node
known_or id none = failed (unknown_node id)
known_or id (some node) = passed node

-- `ConversationGraph.node`
unfoldable pub node_at : List Node → String → Checked Node
node_at nodes id = known_or id (find_node id nodes)

-- `a` raises, or else `b` is run.
abbrev pub and_then : Option GraphError → Option GraphError → Option GraphError
and_then (some e) b = some e
and_then none b = b

unfoldable pub validate_edges : List String → String → List Edge → Option GraphError
validate_edges known id [] = none
validate_edges known id (edge ∷ edges) =
    let rest = validate_edges known id edges in
    if not (contains edge.to known)
    then some (unknown_target id edge.to)
    else if str_eq edge.to id
    then some (self_loop id edge.to)
    else rest

abbrev pub has_edges : List Edge → Bool
has_edges [] = false
has_edges (_ ∷ _) = true

-- `_validate_node`
unfoldable pub validate_node : List String → Node → Option GraphError
validate_node known node =
    if is_end node.kind
    then (if has_edges node.edges
        then some (terminal_edges node.id)
        else if not (is_some node.intent)
        then some (terminal_without_intent node.id)
        else none)
    else if is_some node.intent
    then some (early_intent node.id)
    else if not (has_edges node.edges)
    then some (dead_end node.id)
    else and_then (validate_edges known node.id node.edges)
        (if not (all_distinct (labels_of node)) then some (duplicate_labels node.id) else none)

unfoldable pub validate_nodes : List String → List Node → Option GraphError
validate_nodes known [] = none
validate_nodes known (node ∷ nodes) =
    and_then (validate_node known node) (validate_nodes known nodes)

-- `queue.extend(targets)`, with the end of the queue, where `pop` takes from, as the list's head.
abbrev pub extend : List String → List String → List String
extend [] queue = queue
extend (t ∷ ts) queue = extend ts (t ∷ queue)

abbrev pub expand :
    Checked Node → String → List String → List String → Checked (List String × List String)
expand (failed e) current seen queue = failed e
expand (passed node) current seen queue = passed (current ∷ seen, extend (targets node) queue)

-- One round of the `while` loop, for the identifier that was popped.
unfoldable pub advance :
    List Node → String → List String → List String → Checked (List String × List String)
advance nodes current seen queue =
    if contains current seen
    then passed (seen, queue)
    else expand (node_at nodes current) current seen queue

-- The `while` loop. Every round pops one identifier, and a node's edges are pushed once.
unfoldable pub reach_from : List Node → ℕ → List String → List String → Checked (List String)
reach_from nodes fuel seen [] = passed seen
reach_from nodes zero seen (current ∷ queue) = failed out_of_fuel
reach_from nodes (suc fuel) seen (current ∷ queue) = elim (advance nodes current seen queue) [
  | failed e ↦ failed e
  | passed (seen', queue') ↦ reach_from nodes fuel seen' queue'
]

abbrev pub edge_count : List Node → ℕ
edge_count [] = 0
edge_count (node ∷ nodes) = length node.edges + edge_count nodes

-- `next(n for n in nodes if n.kind is START)`
unfoldable pub start_node : List Node → Option Node
start_node [] = none
start_node (node ∷ nodes) =
    let rest = start_node nodes in if is_start node.kind then some node else rest

abbrev pub orphans_in : List String → List String → Option GraphError
orphans_in seen known = elim (without known seen) [
  | [] ↦ none
  | (x ∷ xs) ↦ some (unreachable (x ∷ xs))
]

abbrev pub orphans_of : List String → Checked (List String) → Option GraphError
orphans_of known (failed e) = some e
orphans_of known (passed seen) = orphans_in seen known

-- `_validate_reachability`. (The source sorts the orphans for its message.)
unfoldable pub validate_reachability : List Node → Option Node → Option GraphError
validate_reachability nodes none = some (start_count 0)
validate_reachability nodes (some first) =
    orphans_of (ids nodes) (reach_from nodes (suc (edge_count nodes)) [] (first.id ∷ []))

abbrev pub starts : List Node → List Node
starts nodes = filter (λ node. is_start node.kind) nodes

-- `validate`. `len(_by_id) != len(nodes)` is that two identifiers are equal.
unfoldable pub validate : List Node → Option GraphError
validate nodes =
    if length nodes == 0
    then some no_nodes
    else if not (all_distinct (ids nodes))
    then some duplicate_ids
    else if not (length (starts nodes) == 1)
    then some (start_count (length (starts nodes)))
    else if not (any (λ node. is_end node.kind) nodes)
    then some no_terminal
    else and_then (validate_nodes (ids nodes) nodes)
        (validate_reachability nodes (start_node nodes))
