-- ===== src/Walker/Moves.antt =====
-- app/voice/walker.py: what one transition does, and what rises along a route.
use dunning_agent.Prelude.{
  ℕ, ◌+◌, ◌≤◌, ◌<◌, String, Option, some, List, [], ◌∷◌, ◌++◌, ◌≡◌, refl, sym, ap, ◌∙◌, subst, ◌⊎◌,
  inl, inr, arith, All, Elem, Elem-All, length, length-append, Bool-cases, Option-cases, map,
}
use dunning_agent.Graph.{Edge, Node, node_at, find_node, starts}
use dunning_agent.Graph.Validation.{find_node-Elem, starts-start_node}
use dunning_agent.Walker.{Observation, GraphWalker, transition, walk, edge_for, finished}
use dunning_agent.Walker.Route.{Route, starting, onward, edge_for-Elem}
use dunning_agent.Walker.Replay.{accepted_turns, accepted_turns-append, Checked-cases}

abbrev pub accepted_labels : List Observation → List String
accepted_labels os = map (λ turn. turn.0) (accepted_turns os)

-- What a transition does: it stays, or it logs the label, and then it follows an edge of that label.
abbrev pub Stays : GraphWalker → GraphWalker → Type 0
Stays w w' =
    (w'.node ≡ w.node)
    × ((x : String)
        → Elem x (accepted_labels w.observations)
        → Elem x (accepted_labels w'.observations))

Elem-labels :
    (x : String) (xs ys : List (String × Option String))
    → Elem x (map (λ turn. turn.0) xs) ⊎ Elem x (map (λ turn. turn.0) ys)
    → Elem x (map (λ turn. turn.0) (xs ++ ys))
Elem-labels x [] ys (inl m) = absurd m
Elem-labels x [] ys (inr m) = m
Elem-labels x (t ∷ xs) ys (inl (inl e)) = inl e
Elem-labels x (t ∷ xs) ys (inl (inr m)) = inr (Elem-labels x xs ys (inl m))
Elem-labels x (t ∷ xs) ys (inr m) = inr (Elem-labels x xs ys (inr m))

logged :
    (x : String) (w : GraphWalker) (o : Observation)
    → Elem x (accepted_labels w.observations) ⊎ Elem x (accepted_labels (o ∷ []))
    → Elem x (accepted_labels (w.observations ++ o ∷ []))
logged x w o m =
    subst (λ turns. Elem x (map (λ turn. turn.0) turns))
      (sym (accepted_turns-append w.observations (o ∷ [])))
      (Elem-labels x (accepted_turns w.observations) (accepted_turns (o ∷ [])) m)

pub transition-cases :
    (w : GraphWalker) (label : String) (utterance : Option String)
    → let w' = (transition w label utterance).0 in
      Stays w w'
      ⊎ ((edge : Edge) × Elem edge w.node.edges
          × (find_node edge.to w.graph.nodes ≡ some w'.node)
          × Elem edge.label (accepted_labels w'.observations)
          × ((x : String)
              → Elem x (accepted_labels w.observations)
              → Elem x (accepted_labels w'.observations)))
unfolding transition node_at
transition-cases w label utterance = elim (Bool-cases (finished w)) [
  | inl e ↦ rw e (inl (refl, λ x m. m))
  | inr e ↦ elim (Option-cases (edge_for label w.node.edges)) [
    | inl e' ↦ rw (e, e') (inl (refl, λ x m. logged x w _ (inl m)))
    | inr (edge, e') ↦
        let (among, named) = edge_for-Elem label edge w.node.edges e' in
        elim (Option-cases (find_node edge.to w.graph.nodes)) [
          | inl e'' ↦ rw (e, e', e'') (inl (refl, λ x m. logged x w _ (inl m)))
          | inr (v, e'') ↦
              rw (e, e', e'')
                (inr (
                  edge,
                  among,
                  e'',
                  logged edge.label w _ (inr (inl named)),
                  λ x m. logged x w _ (inl m),
                ))
        ]
  ]
]

pub transition-graph :
    (w : GraphWalker) (label : String) (utterance : Option String)
    → ((transition w label utterance).0.graph ≡ w.graph)
      × ((transition w label utterance).0.context ≡ w.context)
unfolding transition
transition-graph w label utterance = elim (Bool-cases (finished w)) [
  | inl e ↦ rw e (refl, refl)
  | inr e ↦ elim (Option-cases (edge_for label w.node.edges)) [
    | inl e' ↦ rw (e, e') (refl, refl)
    | inr (edge, e') ↦ elim (Checked-cases (node_at w.graph.nodes edge.to)) [
      | inl (_, e'') ↦ rw (e, e', e'') (refl, refl)
      | inr (_, e'') ↦ rw (e, e', e'') (refl, refl)
    ]
  ]
]

pub walk-graph :
    (w : GraphWalker) (turns : List (String × Option String))
    → ((walk w turns).graph ≡ w.graph) × ((walk w turns).context ≡ w.context)
unfolding walk
walk-graph w [] = (refl, refl)
walk-graph w ((label, utterance) ∷ turns) =
    let (g, c) = transition-graph w label utterance in
    let (g', c') = walk-graph (transition w label utterance).0 turns in (g' ∙ g, c' ∙ c)

-- Every edge leads to a node of a higher rank.
abbrev pub RaisesRank : (String → ℕ) → List Node → Type 0
RaisesRank rank nodes = All (λ n. All (λ edge. rank n.id < rank edge.to) n.edges) nodes

pub Route-Elem :
    (nodes : List Node) (visited : List String) (n : Node)
    → (first : Node) × (starts nodes ≡ first ∷ [])
    → Route nodes visited n
    → Elem n nodes
Route-Elem nodes visited n (s, one) (starting first e) =
    let (started, among) = starts-start_node s nodes one in
    let same : s ≡ first = cc in subst (λ k. Elem k nodes) same among
Route-Elem nodes visited n one (onward edge v visited' r among found e) =
    (find_node-Elem edge.to v nodes found).0

pub Route-length :
    (rank : String → ℕ) (nodes : List Node) (one : (first : Node) × (starts nodes ≡ first ∷ []))
    (visited : List String) (n : Node)
    → RaisesRank rank nodes
    → Route nodes visited n
    → length visited ≤ rank n.id + 1
Route-length rank nodes one visited n h (starting first e) = omega arith
Route-length rank nodes one visited n h
      (onward {visited = before} {u} edge v visited' r among found e) =
    let reached = find_node-Elem edge.to v nodes found in
    let rises =
      Elem-All (λ (k : Edge). rank u.id < rank k.to) edge u.edges
        (Elem-All (λ (k : Node). All (λ (d : Edge). rank k.id < rank d.to) k.edges) u nodes h
          (Route-Elem nodes before u one r))
        among in
    omega (
      arith,
      Route-length rank nodes one before u h r,
      rises,
      ap length e,
      length-append before (v.id ∷ []),
      ap rank reached.1,
    )
