-- ===== src/Walker/Replay.antt =====
-- app/voice/walker.py: the observations of a call as a record of the moves that it made.
use dunning_agent.Prelude.{
  String, Option, none, some, List, [], ◌∷◌, ◌++◌, ◌≡◌, refl, sym, ap, ◌∙◌, ◌⊎◌, inl, inr,
  if◌then◌else◌, Bool-cases, Option-cases,
}
use mathlib.Core.List.{append-nil}
use dunning_agent.Template.{Context}
use dunning_agent.Graph.{
  Node, ConversationGraph, GraphError, Checked, passed, failed, node_at, start_node,
}
use dunning_agent.Walker.{
  Observation, GraphWalker, begin, placed, transition, walk, edge_for, finished,
}
use dunning_agent.Graph.Rendering.{missing_variables}
use dunning_agent.Walker.Route.{place_if-passed}

-- The turns whose label was accepted.
abbrev pub accepted_turns : List Observation → List (String × Option String)
accepted_turns [] = []
accepted_turns (o ∷ os) =
    let rest = accepted_turns os in if o.accepted then (o.label, o.utterance) ∷ rest else rest

-- The state of a walk but for its log.
abbrev pub position : GraphWalker → GraphWalker
position w = record w { observations = [] }

pub accepted_turns-append :
    (xs ys : List Observation) → accepted_turns (xs ++ ys) ≡ accepted_turns xs ++ accepted_turns ys
accepted_turns-append [] ys = refl
accepted_turns-append (x ∷ xs) ys = elim (Bool-cases x.accepted) [
  | inl e ↦ rw e (ap (λ turns. (x.label, x.utterance) ∷ turns) (accepted_turns-append xs ys))
  | inr e ↦ rw e (accepted_turns-append xs ys)
]

pub walk-append :
    (w : GraphWalker) (xs ys : List (String × Option String))
    → walk w (xs ++ ys) ≡ walk (walk w xs) ys
unfolding walk
walk-append w [] ys = refl
walk-append w ((label, utterance) ∷ xs) ys = walk-append (transition w label utterance).0 xs ys

pub Checked-cases :
    {A : Type 0} (o : Checked A) → ((e : GraphError) × (o ≡ failed e)) ⊎ ((a : A) × (o ≡ passed a))
Checked-cases (failed e) = inl (e, refl)
Checked-cases (passed a) = inr (a, refl)

walk-one :
    (w : GraphWalker) (label : String) (utterance : Option String)
    → walk w ((label, utterance) ∷ []) ≡ (transition w label utterance).0
unfolding walk
walk-one w label utterance = refl

begin-observations :
    (graph : ConversationGraph) (context : Context) (w : GraphWalker)
    → begin graph context ≡ passed w
    → w.observations ≡ []
unfolding begin
begin-observations graph context w h =
    placed-observations (start_node graph.nodes)
      (place_if-passed graph context (missing_variables graph context) w h).1
  where
    placed-observations :
        (first : Option Node) → placed graph context first ≡ passed w → w.observations ≡ []
    placed-observations none p = cc
    placed-observations (some n) p = cc

module _ (w : GraphWalker) (label : String) (utterance : Option String) where
  -- The log is written, and never read.
  transition-position :
      position (transition w label utterance).0
      ≡ position (transition (position w) label utterance).0
  unfolding transition
  transition-position = elim (Bool-cases (finished w)) [
    | inl e ↦ rw e refl
    | inr e ↦ elim (Option-cases (edge_for label w.node.edges)) [
      | inl e' ↦ rw (e, e') refl
      | inr (edge, e') ↦ elim (Checked-cases (node_at w.graph.nodes edge.to)) [
        | inl (_, e'') ↦ rw (e, e', e'') refl
        | inr (_, e'') ↦ rw (e, e', e'') refl
      ]
    ]
  ]

  -- A transition that is not logged as accepted moves nothing.
  transition-logs :
      ((accepted_turns (transition w label utterance).0.observations
          ≡ accepted_turns w.observations)
        × (position (transition w label utterance).0 ≡ position w))
      ⊎ (accepted_turns (transition w label utterance).0.observations
          ≡ accepted_turns w.observations ++ (label, utterance) ∷ [])
  unfolding transition
  transition-logs = elim (Bool-cases (finished w)) [
    | inl e ↦ rw e (inl (refl, refl))
    | inr e ↦ elim (Option-cases (edge_for label w.node.edges)) [
      | inl e' ↦ rw (e, e') (inl (accepted_turns-append w.observations _ ∙ append-nil _, refl))
      | inr (edge, e') ↦ elim (Checked-cases (node_at w.graph.nodes edge.to)) [
        | inl (_, e'') ↦ rw (e, e', e'') (inr (accepted_turns-append w.observations _))
        | inr (_, e'') ↦ rw (e, e', e'') (inr (accepted_turns-append w.observations _))
      ]
    ]
  ]

-- The accepted turns of the log lead from `origin` to where the walk stands.
abbrev IsReplayed : GraphWalker → GraphWalker → Type 0
IsReplayed origin w = position (walk origin (accepted_turns w.observations)) ≡ position w

transition-IsReplayed :
    (origin w : GraphWalker) (label : String) (utterance : Option String)
    → IsReplayed origin w
    → IsReplayed origin (transition w label utterance).0
transition-IsReplayed origin w label utterance h = elim (transition-logs w label utterance) [
  | inl (e, p) ↦ ap (λ turns. position (walk origin turns)) e ∙ h ∙ sym p
  | inr e ↦
      let past = walk origin (accepted_turns w.observations) in
      ap (λ turns. position (walk origin turns)) e
      ∙ ap position (walk-append origin (accepted_turns w.observations) ((label, utterance) ∷ []))
      ∙ ap position (walk-one past label utterance)
      ∙ transition-position past label utterance
      ∙ ap (λ k. position (transition k label utterance).0) h
      ∙ sym (transition-position w label utterance)
]

walk-IsReplayed :
    (origin w : GraphWalker) (turns : List (String × Option String))
    → IsReplayed origin w
    → IsReplayed origin (walk w turns)
unfolding walk
walk-IsReplayed origin w [] h = h
walk-IsReplayed origin w ((label, utterance) ∷ turns) h =
    walk-IsReplayed origin (transition w label utterance).0 turns
      (transition-IsReplayed origin w label utterance h)

-- The turns of a call that were logged as accepted, taken alone from the start of the call, visit the
-- same nodes and stand on the same node: the rejected ones never moved it.
pub walk-replay :
    (graph : ConversationGraph) (context : Context) (w : GraphWalker)
    (turns : List (String × Option String))
    → begin graph context ≡ passed w
    → position (walk w (accepted_turns (walk w turns).observations)) ≡ position (walk w turns)
unfolding walk
walk-replay graph context w turns b = walk-IsReplayed w w turns (
    ap (λ (os : List Observation). position (walk w (accepted_turns os)))
      (begin-observations graph context w b))
