-- ===== src/Graph/Validation.antt =====
-- app/voice/graph.py, `validate`: what a graph that raises no `GraphError` is like.
use dunning_agent.Prelude.{
  String, Bool, true, false, Option, none, some, List, [], ◌∷◌, ◌≡◌, ◌≢◌, refl, ap, subst, ◌↔◌, inl,
  inr, ◌==◌, any, map, length, arith, eq_iff, All, Elem, Elem-All, Bool-cases, Option-cases,
}
use dunning_agent.Prelude.Sets.{contains, contains_iff, IsDistinct, all_distinct, all_distinct_iff}
use dunning_agent.Graph.{
  Edge, Node, GraphError, is_end, ids, targets, labels_of, find_node, and_then, validate_edges,
  validate_node, validate_nodes, start_node, starts, orphans_in, validate_reachability, validate,
}
use dunning_agent.Graph.Search.{Reach, AllKnown, reach_from_lem}

-- A stage of the call, by its kind. The end records an outcome; any other leads on, to nodes of the
-- graph that are not itself, by labels that differ.
abbrev pub StageOf : Bool → List String → Node → Type 0
StageOf true known node = (node.edges ≡ []) × ((i : _) × (node.intent ≡ some i))
StageOf false known node =
    (node.intent ≡ none)
    × (node.edges ≢ [])
    × All (λ edge. Elem edge.to known × (edge.to ≢ node.id)) node.edges
    × IsDistinct (labels_of node)

abbrev pub IsStage : List String → Node → Type 0
IsStage known node = StageOf (is_end node.kind) known node

pub record IsWellFormed (nodes : List Node) : Type 0 where
  pub distinct : IsDistinct (ids nodes)
  pub first : Node
  pub one_start : starts nodes ≡ first ∷ []
  pub last : Node
  pub ends : Elem last nodes × (is_end last.kind ≡ true)
  pub stages : All (IsStage (ids nodes)) nodes
  pub reached : All (λ node. Reach nodes first.id node.id) nodes

validate_edges_iff :
    (known : List String) (id : String) (edges : List Edge)
    → (validate_edges known id edges ≡ none)
      ↔ All (λ edge. Elem edge.to known × (edge.to ≢ id)) edges
unfolding validate_edges
validate_edges_iff known id [] = ground arith
validate_edges_iff known id (e ∷ edges) =
    ground (arith, contains_iff e.to known, eq_iff e.to id, validate_edges_iff known id edges)

validate_node_iff :
    (known : List String) (node : Node) → (validate_node known node ≡ none) ↔ IsStage known node
unfolding validate_node
validate_node_iff known node =
    ground (arith, validate_edges_iff known node.id node.edges, all_distinct_iff (labels_of node))

validate_nodes_iff :
    (known : List String) (nodes : List Node)
    → (validate_nodes known nodes ≡ none) ↔ All (IsStage known) nodes
unfolding validate_nodes
validate_nodes_iff known [] = ground arith
validate_nodes_iff known (node ∷ nodes) =
    ground (arith, validate_node_iff known node, validate_nodes_iff known nodes)

pub find_node-Elem :
    (id : String) (n : Node) (nodes : List Node)
    → find_node id nodes ≡ some n
    → Elem n nodes × (n.id ≡ id)
unfolding find_node
find_node-Elem id n [] e = cc
find_node-Elem id n (m ∷ nodes) e = ground (arith, eq_iff m.id id, find_node-Elem id n nodes)

pub find_node-ids :
    (id : String) (nodes : List Node)
    → Elem id (ids nodes)
    → (n : Node) × (find_node id nodes ≡ some n)
unfolding find_node
find_node-ids id [] h = absurd h
find_node-ids id (m ∷ nodes) h = elim (Option-cases (find_node id nodes)) [
  | inr (n, e) ↦ (n, rw e refl)
  | inl e ↦ elim h [
    | inl p ↦ (m, rw e (ground (arith, eq_iff m.id id)))
    | inr q ↦ let (n, e') = find_node-ids id nodes q in (n, cc)
  ]
]

pub Elem-ids : (n : Node) (nodes : List Node) → Elem n nodes → Elem n.id (ids nodes)
Elem-ids n [] h = absurd h
Elem-ids n (m ∷ nodes) h = elim h [
  | inl e ↦ inl (ap (λ (k : Node). k.id) e)
  | inr q ↦ inr (Elem-ids n nodes q)
]

pub AllKnown-targets :
    (nodes : List Node) (node : Node) → IsStage (ids nodes) node → AllKnown nodes (targets node)
AllKnown-targets nodes node h = elim (Bool-cases (is_end node.kind)) [
  | inl e ↦ rw ((subst (λ b. StageOf b (ids nodes) node) e h).0) tt
  | inr e ↦ each node.edges ((subst (λ b. StageOf b (ids nodes) node) e h).2)
]
  where
    each :
        (edges : List Edge)
        → All (λ edge. Elem edge.to (ids nodes) × (edge.to ≢ node.id)) edges
        → AllKnown nodes (map (λ edge. edge.to) edges)
    each [] k = tt
    each (edge ∷ edges) k = (find_node-ids edge.to nodes k.0.0, each edges k.1)

orphans_in_iff :
    (seen known : List String)
    → (orphans_in seen known ≡ none) ↔ All (λ id. contains id seen ≡ true) known
orphans_in_iff seen [] = ground arith
orphans_in_iff seen (id ∷ known) = ground (arith, orphans_in_iff seen known)

pub starts-start_node :
    (first : Node) (nodes : List Node)
    → starts nodes ≡ first ∷ []
    → (start_node nodes ≡ some first) × Elem first nodes
unfolding start_node
starts-start_node first [] h = cc
starts-start_node first (n ∷ nodes) h = ground (arith, starts-start_node first nodes)

length-starts :
    (nodes : List Node)
    → ((length (starts nodes) == 1) ≡ true) ↔ ((first : Node) × (starts nodes ≡ first ∷ []))
length-starts nodes = one (starts nodes)
  where
    one : (ns : List Node) → ((length ns == 1) ≡ true) ↔ ((first : Node) × (ns ≡ first ∷ []))
    one [] = (λ h. cc, λ p. cc (p.1))
    one (n ∷ []) = (λ _. (n, refl), λ _. refl)
    one (n ∷ m ∷ ns) = (λ h. ground arith, λ p. ground (arith, p.1))

any-end :
    (nodes : List Node)
    → (any (λ node. is_end node.kind) nodes ≡ true)
      ↔ ((last : Node) × Elem last nodes × (is_end last.kind ≡ true))
any-end [] = (λ h. cc, λ p. absurd p.1)
any-end (n ∷ nodes) =
    let rest = any-end nodes in
    elim (Bool-cases (is_end n.kind)) [
      | inl e ↦ (λ _. (n, inl refl, e), λ _. rw e refl)
      | inr e ↦ (
        λ h. let (last, m, t) = rest.0 (rw e at h) in (last, inr m, t),
        λ p. elim (p.1) [ inl q ↦ cc | inr q ↦ rw e (rest.1 (p.0, q, p.2)) ],
      )
    ]

All-ids :
    (P Q : String → Type 0) (nodes : List Node)
    → ((id : String) → P id ↔ Q id)
    → All P (ids nodes) ↔ All (λ node. Q node.id) nodes
All-ids P Q [] f = (λ _. tt, λ _. tt)
All-ids P Q (n ∷ nodes) f =
    let (to, back) = All-ids P Q nodes f in
    (λ h. ((f n.id).0 h.0, to h.1), λ h. ((f n.id).1 h.0, back h.1))

module _ (nodes : List Node) (first : Node) (one : starts nodes ≡ first ∷ []) where
  pub stage_at :
      All (IsStage (ids nodes)) nodes
      → (u : String) (n : Node) → find_node u nodes ≡ some n
      → AllKnown nodes (targets n)
  stage_at stages u n found =
      AllKnown-targets nodes n
        (Elem-All (IsStage (ids nodes)) n nodes stages (find_node-Elem u n nodes found).0)

  validate_reachability_iff :
      All (IsStage (ids nodes)) nodes
      → (validate_reachability nodes (start_node nodes) ≡ none)
        ↔ All (λ node. Reach nodes first.id node.id) nodes
  unfolding validate_reachability
  validate_reachability_iff stages =
      let (started, among) = starts-start_node first nodes one in
      let known = find_node-ids first.id nodes (Elem-ids first nodes among) in
      let (seen, ends, exact) = reach_from_lem nodes first.id (stage_at stages) (known, tt) in
      let (orphans, none_left) = orphans_in_iff seen (ids nodes) in
      let (to, back) = All-ids (λ id. contains id seen ≡ true) (Reach nodes first.id) nodes exact in
      rw (started, ends) (λ h. to (orphans h), λ h. none_left (back h))

and_then_iff : (a b : Option GraphError) → (and_then a b ≡ none) ↔ ((a ≡ none) × (b ≡ none))
and_then_iff a b = ground arith

-- What the conditions of `validate` come to; a list with an end is not empty.
validate_iff :
    (nodes : List Node)
    → (validate nodes ≡ none) ↔ (
        (all_distinct (ids nodes) ≡ true)
        × ((length (starts nodes) == 1) ≡ true)
        × (any (λ node. is_end node.kind) nodes ≡ true)
        × (validate_nodes (ids nodes) nodes ≡ none)
        × (validate_reachability nodes (start_node nodes) ≡ none))
unfolding validate
validate_iff [] = ground arith
validate_iff (n ∷ nodes) = ground (
  arith,
  and_then_iff (validate_nodes (ids (n ∷ nodes)) (n ∷ nodes))
      (validate_reachability (n ∷ nodes) (start_node (n ∷ nodes))),
)

-- A graph passes `validate` exactly when it is well formed: identifiers are distinct, there is one
-- start, an end, every node is a stage of its kind, and the start leads to every node.
pub validate-IsWellFormed : (nodes : List Node) → (validate nodes ≡ none) ↔ IsWellFormed nodes
validate-IsWellFormed nodes = (to, back)
  where
    to : validate nodes ≡ none → IsWellFormed nodes
    to h =
        let (d, s, e, v, r) = (validate_iff nodes).0 h in
        let (first, one) = (length-starts nodes).0 s in
        let (last, among, is_last) = (any-end nodes).0 e in
        let stages = (validate_nodes_iff (ids nodes) nodes).0 v in
        record {
          distinct = (all_distinct_iff (ids nodes)).0 d;
          first = first;
          one_start = one;
          last = last;
          ends = (among, is_last);
          stages = stages;
          reached = (validate_reachability_iff nodes first one stages).0 r;
        }

    back : IsWellFormed nodes → validate nodes ≡ none
    back w = (validate_iff nodes).1 (
      (all_distinct_iff (ids nodes)).1 w.distinct,
      (length-starts nodes).1 (w.first, w.one_start),
      (any-end nodes).1 (w.last, w.ends.0, w.ends.1),
      (validate_nodes_iff (ids nodes) nodes).1 w.stages,
      (validate_reachability_iff nodes w.first w.one_start w.stages).1 w.reached,
    )
