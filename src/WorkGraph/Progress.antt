-- ===== src/WorkGraph/Progress.antt =====
-- `readyWorkNodes` of packages/orchestrator/src/work-graph.ts on a graph with unfinished nodes.
use janus_core.Base.{
  String, ◌≡◌, refl, sym, ap, ◌∙◌, inl, inr, Bool, true, false, not, none, some, List, [], ◌∷◌,
  arith, Bool-cases, Option-cases, ◌==◌, string_eq, number_eq, ==_refl, eq_of_==, all, any, keep,
  All, All-map, has, has_self, has-cons,
}
use janus_core.Graph.Progress.{Minimal, has_cycle-Minimal}
use janus_core.WorkGraph.{
  WorkNode, WorkGraph, node_ids, find_node, successors, has_cycle, validate_work_graph, ready,
  is_ready, ready_work_nodes,
}
use janus_core.WorkGraph.Validity.{
  HasKnown, IsWellFormed, successors-known, has_cycle-eq-false, validate_work_graph_iff,
}

find_node-none :
    (w : String) (nodes : List WorkNode) → has w (node_ids nodes) ≡ false → find_node w nodes ≡ none
unfolding find_node
find_node-none w [] h = refl
find_node-none w (m ∷ nodes) h = ground (arith, find_node-none w nodes)

-- The node that the map holds for an id of the list.
find_node-some :
    (w : String) (nodes : List WorkNode)
    → has w (node_ids nodes) ≡ true
    → (n : WorkNode) × (find_node w nodes ≡ some n) × (n.id ≡ w)
unfolding find_node
find_node-some w [] h = absurd (cc)
find_node-some w (m ∷ nodes) h = elim (Bool-cases (has w (node_ids nodes))) [
  | inl later ↦
      let (k, found, same) = find_node-some w nodes later in (k, rw (found, find_node), same)
  | inr other ↦
      let same : w ≡ m.id = eq_of_== w m.id (ground arith) in
      let none_after = find_node-none w nodes other in (m, ground (arith, ==_refl m.id), sym same)
]

module _ (w : String) (n : WorkNode) where
  find_node-All {κ} :
      (P : WorkNode → Type κ) (nodes : List WorkNode)
      → find_node w nodes ≡ some n
      → All P nodes
      → P n
  unfolding find_node
  find_node-All P [] e h = absurd (cc)
  find_node-All P (m ∷ nodes) e (p, h) = elim (Option-cases (find_node w nodes)) [
    | inr (k, x) ↦ find_node-All P nodes (x ∙ (rw (x, find_node) at e)) h
    | inl x ↦ elim (Bool-cases (w == m.id)) [
      | inl same ↦
          let it : some m ≡ some n = rw (x, same, find_node) at e in
          let eq : m ≡ n = cc in rw (← eq) p
      | inr other ↦ absurd (cc (rw (x, other, find_node) at e))
    ]
  ]

  find_node-any :
      (p : WorkNode → Bool) (nodes : List WorkNode)
      → find_node w nodes ≡ some n
      → p n ≡ true
      → any p nodes ≡ true
  unfolding find_node
  find_node-any p [] e h = absurd (cc)
  find_node-any p (m ∷ nodes) e h = elim (Option-cases (find_node w nodes)) [
    | inr (k, x) ↦
        let later = find_node-any p nodes (x ∙ (rw (x, find_node) at e)) h in ground arith
    | inl x ↦ elim (Bool-cases (w == m.id)) [
      | inl same ↦
          let it : some m ≡ some n = rw (x, same, find_node) at e in
          let eq : m ≡ n = cc in rw (eq, h)
      | inr other ↦ absurd (cc (rw (x, other, find_node) at e))
    ]
  ]

module _ (done_ : String → Bool) where
  all-keep :
      (p : String → Bool) (ds : List String)
      → All (λ d. p d ≡ true) ds
      → all done_ (keep p ds) ≡ true
      → all done_ ds ≡ true
  all-keep p [] k h = refl
  all-keep p (d ∷ ds) (k, ks) h = ground (arith, all-keep p ds ks)

any-unfinished :
    (completed : List String) (nodes : List WorkNode)
    → any (λ n. not (has n.id completed)) nodes ≡ true
    → (u : String) × (has u (node_ids nodes) ≡ true) × (has u completed ≡ false)
any-unfinished completed [] h = absurd (cc)
any-unfinished completed (n ∷ nodes) h = elim (Bool-cases (has n.id completed)) [
  | inr open_ ↦ (n.id, has_self n.id (node_ids nodes), open_)
  | inl closed ↦
      let (u, k, e) = any-unfinished completed nodes (ground arith) in
      (u, has-cons u n.id (node_ids nodes) k, e)
]

Minimal-is_ready :
    (g : WorkGraph) (completed : List String)
    → IsWellFormed g
    → Minimal (successors g.nodes) (node_ids g.nodes) (λ d. has d completed)
    → any (is_ready completed) g.nodes ≡ true
unfolding successors
Minimal-is_ready g completed formed (w, known, undone, below) =
    let (n, found, same) = find_node-some w g.nodes known in
    let deps = find_node-All w n (HasKnown (node_ids g.nodes)) g.nodes found formed.known in
    let finished : all (λ d. has d completed) n.depends_on ≡ true =
      all-keep (λ d. has d completed) (λ d. has d (node_ids g.nodes)) n.depends_on
        (All-map _ _ (λ d h. h.0) n.depends_on deps) (rw (found, successors) at below) in
    let fresh : has n.id completed ≡ false = rw same undone in
    find_node-any w n (is_ready completed) g.nodes found (rw (fresh, finished))

-- In an accepted graph with a node that is not completed some node may run.
pub any-is_ready :
    (g : WorkGraph) (completed : List String)
    → validate_work_graph g ≡ []
    → any (λ n. not (has n.id completed)) g.nodes ≡ true
    → any (is_ready completed) g.nodes ≡ true
unfolding has_cycle
any-is_ready g completed valid open_ =
    let formed = (validate_work_graph_iff g).0 valid in
    let (u, k, e) = any-unfinished completed g.nodes open_ in
    Minimal-is_ready g completed formed (
      has_cycle-Minimal (successors g.nodes) (node_ids g.nodes) (λ d. has d completed)
        (successors-known g.nodes) u ((has_cycle-eq-false g.nodes).1 formed.acyclic) k e)

ready_of_any :
    (completed : List String) (ns : List WorkNode)
    → any (is_ready completed) ns ≡ true
    → (n : WorkNode) × (rest : List WorkNode) × (keep (is_ready completed) ns ≡ n ∷ rest)
ready_of_any completed [] h = absurd (cc)
ready_of_any completed (n ∷ ns) h = elim (Bool-cases (is_ready completed n)) [
  | inl runs ↦ (n, keep (is_ready completed) ns, rw runs)
  | inr waits ↦
      let (m, rest, e) = ready_of_any completed ns (rw waits at h) in (m, rest, rw waits e)
]

-- While some node of an accepted graph is not completed, `readyWorkNodes` offers at least one.
pub ready_work_nodes_progress :
    (g : WorkGraph) (completed : List String)
    → validate_work_graph g ≡ []
    → any (λ n. not (has n.id completed)) g.nodes ≡ true
    → (n : WorkNode) × (rest : List WorkNode) × (ready_work_nodes g completed ≡ ready (n ∷ rest))
unfolding ready_work_nodes
ready_work_nodes_progress g completed valid open_ =
    let (n, rest, e) = ready_of_any completed g.nodes (any-is_ready g completed valid open_) in
    (n, rest, rw (valid, ready_work_nodes) (ap ready e))
