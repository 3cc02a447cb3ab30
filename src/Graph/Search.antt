-- ===== src/Graph/Search.antt =====
-- app/voice/graph.py, `_validate_reachability`: the search for the nodes that the start leads to.
use dunning_agent.Prelude.{
  ℕ, zero, suc, ◌+◌, ◌≤◌, String, true, false, some, List, [], ◌∷◌, ◌≡◌, refl, ◌↔◌, ◌⊎◌, inl, inr,
  if◌then◌else◌, map, length, arith, eq_iff, All, Elem, Bool-cases,
}
use dunning_agent.Prelude.Sets.{contains}
use dunning_agent.Graph.{
  Node, Edge, passed, find_node, node_at, advance, extend, reach_from, targets, edge_count,
}

-- The identifiers that a walk along the edges leads to.
pub data Reach (nodes : List Node) (from : String) : String → Type 0 where
  here : Reach nodes from from
  along :
      {u v : String} (n : Node)
      → Reach nodes from u
      → find_node u nodes ≡ some n
      → Elem v (targets n)
      → Reach nodes from v

-- The edges of the nodes that are not seen yet.
abbrev unseen_edges : List String → List Node → ℕ
unseen_edges seen [] = 0
unseen_edges seen (n ∷ ns) =
    let rest = unseen_edges seen ns in if contains n.id seen then rest else length n.edges + rest

unseen_edges-le :
    (u : String) (seen : List String) (ns : List Node)
    → unseen_edges (u ∷ seen) ns ≤ unseen_edges seen ns
unseen_edges-le u seen [] = omega arith
unseen_edges-le u seen (n ∷ ns) = ground (arith, unseen_edges-le u seen ns)

unseen_edges-nil : (ns : List Node) → unseen_edges [] ns ≡ edge_count ns
unseen_edges-nil [] = refl
unseen_edges-nil (n ∷ ns) = omega (arith, unseen_edges-nil ns)

-- To see a node takes its edges from the count.
unseen_edges-find :
    (u : String) (seen : List String) (n : Node) (ns : List Node)
    → contains u seen ≡ false
    → find_node u ns ≡ some n
    → unseen_edges (u ∷ seen) ns + length n.edges ≤ unseen_edges seen ns
unfolding find_node
unseen_edges-find u seen n [] h e = cc
unseen_edges-find u seen n (m ∷ ns) h e = ground (
  arith,
  eq_iff m.id u,
  eq_iff u m.id,
  unseen_edges-le u seen ns,
  unseen_edges-find u seen n ns h,
)

length-extend : (ts queue : List String) → length (extend ts queue) ≡ length ts + length queue
length-extend [] queue = omega arith
length-extend (t ∷ ts) queue = omega (arith, length-extend ts (t ∷ queue))

Elem-extend :
    (v : String) (ts queue : List String) → Elem v (extend ts queue) ↔ (Elem v ts ⊎ Elem v queue)
Elem-extend v [] queue = ground arith
Elem-extend v (t ∷ ts) queue = ground (arith, Elem-extend v ts (t ∷ queue))

length-targets : (n : Node) → length (targets n) ≡ length n.edges
length-targets n = lengths n.edges
  where
    lengths : (es : List Edge) → length (map (λ edge. edge.to) es) ≡ length es
    lengths [] = refl
    lengths (e ∷ es) = omega (arith, lengths es)

-- Every identifier of the list names a node.
abbrev pub AllKnown : List Node → List String → Type 0
AllKnown nodes ids = All (λ id. (n : Node) × (find_node id nodes ≡ some n)) ids

AllKnown-extend :
    (nodes : List Node) (ts queue : List String)
    → AllKnown nodes ts
    → AllKnown nodes queue
    → AllKnown nodes (extend ts queue)
AllKnown-extend nodes [] queue h k = k
AllKnown-extend nodes (t ∷ ts) queue h k = AllKnown-extend nodes ts (t ∷ queue) h.1 (h.0, k)

module _ (nodes : List Node) (from : String) where
  record Inv (seen queue : List String) : Type 0 where
    sound : (v : String) → contains v seen ≡ true → Reach nodes from v
    queued : (v : String) → Elem v queue → Reach nodes from v
    source : (contains from seen ≡ true) ⊎ Elem from queue
    closed :
        (u v : String) (n : Node)
        → contains u seen ≡ true
        → find_node u nodes ≡ some n
        → Elem v (targets n)
        → (contains v seen ≡ true) ⊎ Elem v queue

  Inv-start : Inv [] (from ∷ [])
  Inv-start = record {
    sound = λ v h. cc;
    queued = λ v q. elim q [ inl e ↦ rw e here | inr m ↦ absurd m ];
    source = inr (inl refl);
    closed = λ u v n h _ _. cc;
  }

  -- The popped identifier was seen before.
  Inv-skip :
      (u : String) (seen queue : List String)
      → contains u seen ≡ true
      → Inv seen (u ∷ queue)
      → Inv seen queue
  Inv-skip u seen queue old h = record {
    sound = h.sound;
    queued = λ v q. h.queued v (inr q);
    source = elim h.source [ inl m ↦ inl m | inr q ↦ popped from q ];
    closed = λ v w n m e t. elim (h.closed v w n m e t) [ inl m' ↦ inl m' | inr q ↦ popped w q ];
  }
    where
      popped : (w : String) → Elem w (u ∷ queue) → (contains w seen ≡ true) ⊎ Elem w queue
      popped w (inl e) = inl (rw e old)
      popped w (inr q) = inr q

  -- The popped identifier is new.
  Inv-visit :
      (u : String) (n : Node) (seen queue : List String)
      → find_node u nodes ≡ some n
      → Inv seen (u ∷ queue)
      → Inv (u ∷ seen) (extend (targets n) queue)
  Inv-visit u n seen queue found h = record {
    sound = λ v m. ground (arith, eq_iff u v, h.sound v, h.queued v);
    queued = λ v q. elim ((Elem-extend v (targets n) queue).0 q) [
      | inl t ↦ along n (h.queued u (inl refl)) found t
      | inr k ↦ h.queued v (inr k)
    ];
    source = ground (arith, eq_iff u from, Elem-extend from (targets n) queue, h.source);
    closed = λ v w k m e t.
        ground (arith, eq_iff u v, eq_iff u w, Elem-extend w (targets n) queue, h.closed v w k);
  }

  advance-old :
      (u : String) (seen queue : List String)
      → contains u seen ≡ true
      → advance nodes u seen queue ≡ passed (seen, queue)
  unfolding advance
  advance-old u seen queue old = rw old

  advance-new :
      (u : String) (n : Node) (seen queue : List String)
      → contains u seen ≡ false
      → find_node u nodes ≡ some n
      → advance nodes u seen queue ≡ passed (u ∷ seen, extend (targets n) queue)
  unfolding advance node_at
  advance-new u n seen queue new found = rw (new, found)

  -- With the fuel for the edges that are left, the loop ends, and what it saw is what is reachable.
  loop-Inv :
      ((u : String) (n : Node) → find_node u nodes ≡ some n → AllKnown nodes (targets n))
      → (fuel : ℕ) (seen queue : List String) → length queue + unseen_edges seen nodes ≤ fuel
      → AllKnown nodes queue
      → Inv seen queue
      → (seen' : List String) × (reach_from nodes fuel seen queue ≡ passed seen') × Inv seen' []
  unfolding reach_from
  loop-Inv known fuel seen [] m k h = (seen, refl, h)
  loop-Inv known zero seen (u ∷ queue) m k h = absurd (omega arith)
  loop-Inv known (suc fuel) seen (u ∷ queue) m k h = elim (Bool-cases (contains u seen)) [
    | inl old ↦
        rw (advance-old u seen queue old, reach_from)
          (loop-Inv known fuel seen queue (omega arith) k.1 (Inv-skip u seen queue old h))
    | inr new ↦
        let (n, found) = k.0 in
        let left = unseen_edges-find u seen n nodes new found in
        let grown = length-extend (targets n) queue in
        rw (advance-new u n seen queue new found, reach_from)
          (loop-Inv known fuel (u ∷ seen) (extend (targets n) queue)
            (omega (arith, left, grown, length-targets n))
            (AllKnown-extend nodes (targets n) queue (known u n found) k.1)
            (Inv-visit u n seen queue found h))
  ]

  -- At the end, where the queue is empty, everything that can be reached was seen.
  complete :
      (seen : List String)
      → Inv seen []
      → {v : String} → Reach nodes from v
      → contains v seen ≡ true
  complete seen h here = elim h.source [ inl m ↦ m | inr q ↦ absurd q ]
  complete seen h (along {u} {v} n r found t) = elim (h.closed u v n (complete seen h r) found t) [
    | inl m ↦ m
    | inr q ↦ absurd q
  ]

  pub reach_from_lem :
      ((u : String) (n : Node) → find_node u nodes ≡ some n → AllKnown nodes (targets n))
      → AllKnown nodes (from ∷ [])
      → (seen : List String) × (reach_from nodes (suc (edge_count nodes)) [] (from ∷ [])
          ≡ passed seen)
        × ((v : String) → (contains v seen ≡ true) ↔ Reach nodes from v)
  reach_from_lem known k =
      let (seen, e, h) =
        loop-Inv known (suc (edge_count nodes)) [] (from ∷ [])
          (omega (arith, unseen_edges-nil nodes)) k Inv-start in
      (seen, e, λ v. (h.sound v, complete seen h))
