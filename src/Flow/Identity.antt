-- ===== src/Flow/Identity.antt =====
-- app/voice/flow.py: which stages come before the customer is identified.
use dunning_agent.Prelude.{
  String, Bool, false, Option, none, some, List, [], ◌∷◌, ◌≡◌, refl, ap, ◌∙◌, subst, ◌⊎◌, inl, inr,
  Elem, any,
}
use dunning_agent.Prelude.Text.{Codes, codes}
use dunning_agent.Template.{Context, template_variables, parse, scan, step, fields, knows}
use dunning_agent.Graph.{Edge, Node, ConversationGraph, passed, find_node, start_node}
use dunning_agent.Walker.{GraphWalker, begin, transition, walk}
use dunning_agent.Walker.Route.{begin-passed}
use dunning_agent.Walker.Moves.{accepted_labels, transition-cases, transition-graph}
use dunning_agent.Flow.{flow_nodes, dunning_flow}
use dunning_agent.Flow.Stages.{greet}
use dunning_agent.Flow.Endings.{wrong_number}

abbrev names_any : List Codes → Option (List Codes) → Bool
names_any wanted none = false
names_any wanted (some names) = any (λ name. knows wanted name) names

-- The node's prompt is filled with something of the failed payment: its amount, its reason, the halt
-- or what is done about it.
abbrev pub is_filled_with_payment : Node → Bool
is_filled_with_payment node =
    names_any
      (codes "amount_spoken"
        ∷ codes "failure_reason"
        ∷ codes "halt_note"
        ∷ codes "suggested_route"
        ∷ [])
      (template_variables (codes node.prompt))

-- The customer was identified, or the call is still at the greeting or ended with the apology, whose
-- prompts are filled with nothing of the payment.
abbrev IsDiscreet : GraphWalker → Type 0
IsDiscreet w =
    Elem "identity_confirmed" (accepted_labels w.observations)
    ⊎ (w.node ≡ greet)
    ⊎ (w.node ≡ wrong_number)

silent :
    (node : Node) → (node ≡ greet) ⊎ (node ≡ wrong_number) → is_filled_with_payment node ≡ false
unfolding template_variables parse scan step fields
silent node (inl e) = rw e refl
silent node (inr e) = rw e refl

-- The edges of the greeting lead on under that label, or to the apology.
greet-edges :
    (edge : Edge) (node : Node)
    → Elem edge greet.edges
    → find_node edge.to flow_nodes ≡ some node
    → (edge.label ≡ "identity_confirmed") ⊎ (node ≡ wrong_number)
unfolding find_node
greet-edges edge node (inl e) h = inl (ap (λ (k : Edge). k.label) e)
greet-edges edge node (inr (inl e)) h =
    let found = subst (λ (k : Edge). find_node k.to flow_nodes ≡ some node) e h in inr cc
greet-edges edge node (inr (inr m)) h = absurd m

transition-IsDiscreet :
    (w : GraphWalker) (label : String) (utterance : Option String)
    → w.graph ≡ dunning_flow
    → IsDiscreet w
    → IsDiscreet (transition w label utterance).0
transition-IsDiscreet w label utterance g h = elim (transition-cases w label utterance) [
  | inl (same, kept) ↦ elim h [
    | inl m ↦ inl (kept "identity_confirmed" m)
    | inr (inl e) ↦ inr (inl (same ∙ e))
    | inr (inr e) ↦ inr (inr (same ∙ e))
  ]
  | inr (edge, among, found, named, kept) ↦ elim h [
    | inl m ↦ inl (kept "identity_confirmed" m)
    | inr (inl e) ↦
        elim (greet-edges edge _ (subst (λ (k : Node). Elem edge k.edges) e among) (
          subst
            (λ (k : ConversationGraph).
              find_node edge.to k.nodes ≡ some (transition w label utterance).0.node)
            g found)) [
              | inl p ↦ inl (
                  subst
                    (λ l. Elem l (accepted_labels (transition w label utterance).0.observations)) p
                    named)
              | inr p ↦ inr (inr p)
            ]
    | inr (inr e) ↦ absurd (subst (λ (k : Node). Elem edge k.edges) e among)
  ]
]

walk-IsDiscreet :
    (w : GraphWalker) (turns : List (String × Option String))
    → w.graph ≡ dunning_flow
    → IsDiscreet w
    → IsDiscreet (walk w turns)
unfolding walk
walk-IsDiscreet w [] g h = h
walk-IsDiscreet w ((label, utterance) ∷ turns) g h =
    walk-IsDiscreet (transition w label utterance).0 turns
      ((transition-graph w label utterance).0 ∙ g) (transition-IsDiscreet w label utterance g h)

flow-start : start_node flow_nodes ≡ some greet
unfolding start_node
flow-start = refl

-- Whatever labels the model names, a call on the program's conversation has accepted the label
-- "identity_confirmed", or it stands at the greeting or at the apology to a wrong number, and the
-- prompt there is filled with neither the amount nor the reason, the halt note or the remedy.
pub walk-identified :
    (context : Context) (w : GraphWalker) (turns : List (String × Option String))
    → begin dunning_flow context ≡ passed w
    → Elem "identity_confirmed" (accepted_labels (walk w turns).observations)
      ⊎ (((walk w turns).node.id ≡ "greet") ⊎ ((walk w turns).node.id ≡ "wrong_number"))
        × (is_filled_with_payment (walk w turns).node ≡ false)
walk-identified context w turns b =
    let (_, g, _, n, _, _) = begin-passed dunning_flow context w greet flow-start b in
    elim (walk-IsDiscreet w turns g (inr (inl n))) [
      | inl m ↦ inl m
      | inr (inl e) ↦ inr (inl (ap (λ (k : Node). k.id) e), silent (walk w turns).node (inl e))
      | inr (inr e) ↦ inr (inr (ap (λ (k : Node). k.id) e), silent (walk w turns).node (inr e))
    ]
