-- ===== src/Graph/Rendering.antt =====
-- app/voice/graph.py: the template variables of a graph, and the rendering of its texts. A set of
-- names is a list, in which a name may stand twice.
pub mod Laws
use dunning_agent.Prelude.{String, Option, none, some, List, [], ◌∷◌, ◌++◌, str_eq, if◌then◌else◌}
use dunning_agent.Prelude.Text.{Codes, codes}
use dunning_agent.Template.{template_variables, Context, missing_in, format}
use dunning_agent.Graph.{
  Edge, Node, ConversationGraph, GraphError, malformed_template, missing_variables as missing,
  Checked, passed, failed, node_at, validate,
}

-- `found |= names`, unless a template is malformed.
abbrev pub union : Option (List Codes) → Option (List Codes) → Option (List Codes)
union none _ = none
union (some a) none = none
union (some a) (some b) = some (a ++ b)

-- `if edge.speech`
unfoldable pub speech_variables : Option String → Option (List Codes)
speech_variables none = some []
speech_variables (some speech) =
    if str_eq speech "" then some [] else template_variables (codes speech)

unfoldable pub edge_variables : List Edge → Option (List Codes)
edge_variables [] = some []
edge_variables (edge ∷ edges) = union (speech_variables edge.speech) (edge_variables edges)

unfoldable pub node_variables : List Node → Option (List Codes)
node_variables [] = some []
node_variables (node ∷ nodes) =
    union (union (template_variables (codes node.prompt)) (edge_variables node.edges))
      (node_variables nodes)

-- `variables`
unfoldable pub variables : ConversationGraph → Option (List Codes)
variables graph = union (template_variables (codes graph.preamble)) (node_variables graph.nodes)

abbrev missing_of : Context → Option (List Codes) → Checked (List Codes)
missing_of context none = failed malformed_template
missing_of context (some names) = passed (missing_in names context)

-- `missing_variables`
unfoldable pub missing_variables : ConversationGraph → Context → Checked (List Codes)
missing_variables graph context = missing_of context (variables graph)

abbrev pub formatted : Option Codes → Checked Codes
formatted none = failed malformed_template
formatted (some out) = passed out

abbrev format_or : List Codes → Codes → Context → Checked Codes
format_or [] text context = formatted (format text context)
format_or (name ∷ names) text context = failed (missing (name ∷ names))

abbrev render_known : Option (List Codes) → Codes → Context → Checked Codes
render_known none text context = failed malformed_template
render_known (some names) text context = format_or (missing_in names context) text context

-- `render_template`
unfoldable pub render_template : Codes → Context → Checked Codes
render_template text context = render_known (template_variables text) text context

abbrev render_node : Checked Node → Context → Checked Codes
render_node (failed e) context = failed e
render_node (passed node) context = render_template (codes node.prompt) context

-- `render`
unfoldable pub render : ConversationGraph → String → Context → Checked Codes
render graph id context = render_node (node_at graph.nodes id) context

-- `render_preamble`
unfoldable pub render_preamble : ConversationGraph → Context → Checked Codes
render_preamble graph context = render_template (codes graph.preamble) context

abbrev checked : ConversationGraph → Option GraphError → Checked ConversationGraph
checked graph none = passed graph
checked graph (some e) = failed e

-- `ConversationGraph(nodes, preamble)`, which validates itself.
unfoldable pub construct : List Node → String → Checked ConversationGraph
construct nodes preamble = checked (record { nodes = nodes; preamble = preamble }) (validate nodes)
