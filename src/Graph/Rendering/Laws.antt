-- ===== src/Graph/Rendering/Laws.antt =====
-- app/voice/graph.py: a context that misses no variable of the graph renders each of its texts.
use dunning_agent.Prelude.{
  Option, none, some, List, [], ◌∷◌, ◌≡◌, refl, sym, subst, inl, inr, Elem, Option-cases,
}
use dunning_agent.Prelude.Text.{Codes, codes}
use dunning_agent.Template.{Piece, parse, template_variables, Context, missing_in}
use dunning_agent.Template.Laws.{AllNamed, missing_in-append, format-total}
use dunning_agent.Graph.{Node, ConversationGraph, passed}
use dunning_agent.Graph.Rendering.{
  union, edge_variables, node_variables, variables, missing_variables, render_template, missing_of,
}

-- The names of the set are all in the context.
abbrev pub IsFilled : Context → Option (List Codes) → Type 0
IsFilled context none = ⊥
IsFilled context (some names) = missing_in names context ≡ []

-- The text has no `{}`, which would want a positional argument.
abbrev NamedPieces : Option (List Piece) → Type 0
NamedPieces none = Unit
NamedPieces (some pieces) = AllNamed pieces

abbrev pub IsNamed : Codes → Type 0
IsNamed text = NamedPieces (parse text)

IsFilled-union :
    (context : Context) (a b : Option (List Codes))
    → IsFilled context (union a b)
    → IsFilled context a × IsFilled context b
IsFilled-union context none b h = absurd h
IsFilled-union context (some a) none h = absurd h
IsFilled-union context (some a) (some b) h = missing_in-append a b context h

IsFilled-node :
    (context : Context) (nodes : List Node) (node : Node)
    → IsFilled context (node_variables nodes)
    → Elem node nodes
    → IsFilled context (template_variables (codes node.prompt))
unfolding node_variables
IsFilled-node context [] node h m = absurd m
IsFilled-node context (n ∷ nodes) node h m =
    let (here, rest) = IsFilled-union context _ (node_variables nodes) h in
    let (prompt, _) = IsFilled-union context _ (edge_variables n.edges) here in
    elim m [
      | inl e ↦
          subst (λ (k : Node). IsFilled context (template_variables (codes k.prompt))) (sym e)
            prompt
      | inr q ↦ IsFilled-node context nodes node rest q
    ]

pub IsFilled-graph :
    (graph : ConversationGraph) (context : Context)
    → missing_variables graph context ≡ passed []
    → IsFilled context (template_variables (codes graph.preamble))
      × IsFilled context (node_variables graph.nodes)
unfolding missing_variables variables
IsFilled-graph graph context h =
    IsFilled-union context (template_variables (codes graph.preamble)) (node_variables graph.nodes)
      (none_missing (union (template_variables (codes graph.preamble)) (node_variables graph.nodes))
        h)
  where
    none_missing : (o : Option (List Codes)) → missing_of context o ≡ passed [] → IsFilled context o
    none_missing none e = cc
    none_missing (some names) e = cc

pub render_template-total :
    (text : Codes) (context : Context)
    → IsFilled context (template_variables text)
    → IsNamed text
    → (out : Codes) × (render_template text context ≡ passed out)
unfolding render_template template_variables
render_template-total text context h n = elim (Option-cases (parse text)) [
  | inl e ↦ absurd (rw e at h)
  | inr (pieces, e) ↦
      let filled = rw e at h in
      let (out, p) = format-total text pieces context e (rw e at n) filled in
      (out, rw (e, filled, p) refl)
]

pub render-total :
    (graph : ConversationGraph) (context : Context) (node : Node)
    → missing_variables graph context ≡ passed []
    → Elem node graph.nodes
    → IsNamed (codes node.prompt)
    → (out : Codes) × (render_template (codes node.prompt) context ≡ passed out)
render-total graph context node h m n =
    render_template-total (codes node.prompt) context
      (IsFilled-node context graph.nodes node (IsFilled-graph graph context h).1 m) n
