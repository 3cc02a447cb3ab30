-- ===== src/Walker/Prompts.antt =====
-- app/voice/walker.py, `instructions`: a call that could be started has a prompt at every stage.
use dunning_agent.Prelude.{
  String, Option, none, List, [], ◌≡◌, refl, sym, ap, ◌∙◌, subst, ◌++◌, Elem, Elem-All, All,
}
use dunning_agent.Prelude.Text.{Codes, codes}
use dunning_agent.Template.{Context}
use dunning_agent.Graph.{Node, ConversationGraph, Checked, passed, failed, validate, node_at}
use dunning_agent.Graph.Validation.{
  validate-IsWellFormed, find_node-Elem, find_node-ids, Elem-ids, starts-start_node,
}
use dunning_agent.Graph.Rendering.{missing_variables, render, render_preamble}
use dunning_agent.Graph.Rendering.Laws.{
  IsNamed, IsFilled-graph, render_template-total, render-total,
}
use dunning_agent.Walker.{
  GraphWalker, begin, walk, preamble, followed_by, both, blank_line, stage_instructions,
  instructions,
}
use dunning_agent.Walker.Route.{begin-passed, walk-Route}
use dunning_agent.Walker.Moves.{walk-graph, Route-Elem}

-- None of the prompts has an empty field.
abbrev pub HasNamedFields : ConversationGraph → Type 0
HasNamedFields graph =
    IsNamed (codes graph.preamble) × All (λ n. IsNamed (codes n.prompt)) graph.nodes

-- The texts that are put together from texts that could be rendered.
abbrev IsRendered : Checked Codes → Type 0
IsRendered o = (out : Codes) × (o ≡ passed out)

followed_by-IsRendered :
    (rest : Codes) (o : Checked Codes) → IsRendered o → IsRendered (followed_by rest o)
followed_by-IsRendered rest (failed e) h = cc (h.1)
followed_by-IsRendered rest (passed text) h = (text ++ rest, refl)

both-IsRendered : (a b : Checked Codes) → IsRendered a → IsRendered b → IsRendered (both a b)
both-IsRendered (failed e) b h k = cc (h.1)
both-IsRendered (passed x) (failed e) h k = cc (k.1)
both-IsRendered (passed x) (passed y) h k = (x ++ (blank_line ++ y), refl)

module _ (w : GraphWalker) (m : missing_variables w.graph w.context ≡ passed [])
    (n : HasNamedFields w.graph) (among : Elem w.node w.graph.nodes) where
  render-node : IsRendered (render w.graph w.node.id w.context)
  unfolding render node_at
  render-node =
      let nodes = w.graph.nodes in
      let (v, found) = find_node-ids w.node.id nodes (Elem-ids w.node nodes among) in
      let v_among = (find_node-Elem w.node.id v nodes found).0 in
      let named = Elem-All (λ (k : Node). IsNamed (codes k.prompt)) v nodes n.1 v_among in
      rw found (render-total w.graph w.context v m v_among named)

  instructions-IsRendered : IsRendered (instructions w)
  unfolding instructions preamble render_preamble stage_instructions
  instructions-IsRendered =
      both-IsRendered (preamble w) (stage_instructions w none)
        (render_template-total (codes w.graph.preamble) w.context
          (IsFilled-graph w.graph w.context m).0 n.0)
        (followed_by-IsRendered _ (render w.graph w.node.id w.context) render-node)

-- On a validated graph whose templates have no empty field, a walk that could be started has its
-- instructions at every stage, whatever labels the model names: no template variable is missing.
pub walk-instructions :
    (graph : ConversationGraph) (context : Context) (w : GraphWalker)
    (turns : List (String × Option String))
    → validate graph.nodes ≡ none
    → HasNamedFields graph
    → begin graph context ≡ passed w
    → (out : Codes) × (instructions (walk w turns) ≡ passed out)
walk-instructions graph context w turns v n b =
    let f = (validate-IsWellFormed graph.nodes).0 v in
    let (started, _) = starts-start_node f.first graph.nodes f.one_start in
    let (m, g, c, _, _, _) = begin-passed graph context w f.first started b in
    let (g', c') = walk-graph w turns in
    let (route, _, _) = walk-Route graph context w turns "" none v b in
    let among =
      Route-Elem graph.nodes (walk w turns).visited (walk w turns).node (f.first, f.one_start)
        route in
    let same = g' ∙ g in
    instructions-IsRendered (walk w turns)
      (ap (λ k. missing_variables k (walk w turns).context) same
        ∙ ap (missing_variables graph) (c' ∙ c)
        ∙ m)
      (subst HasNamedFields (sym same) n)
      (subst (λ (k : ConversationGraph). Elem (walk w turns).node k.nodes) (sym same) among)
