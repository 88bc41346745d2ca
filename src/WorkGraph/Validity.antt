-- ===== src/WorkGraph/Validity.antt =====
-- `validateWorkGraph` of packages/orchestrator/src/work-graph.ts, against well-formed graphs.
use janus_core.Base.{
  String, ◌≡◌, refl, ◌↔◌, inl, inr, Bool, true, false, List, [], ◌∷◌, arith, Bool-cases, ◌==◌,
  string_eq, number_eq, ==_comm, keep, All, append-eq-nil, has, is_blank, when-eq-nil, each,
  each-nil_iff,
}
use janus_core.Graph.Cycles.{Cycle, has_cycle_iff}
use janus_core.WorkGraph.{
  WorkNode, WorkGraph, node_ids, node_errors, check_nodes, dependency_errors, find_node,
  dependencies, successors, has_cycle, validate_work_graph,
}

-- No id stands twice.
abbrev pub Distinct : List String → Type 0
Distinct [] = Unit
Distinct (x ∷ xs) = (has x xs ≡ false) × Distinct xs

abbrev pub HasText : WorkNode → Type 0
HasText n =
    (is_blank n.id ≡ false) × (is_blank n.objective ≡ false) × (is_blank n.expected_output ≡ false)

-- Every dependency is a node of the graph, and another one.
abbrev pub HasKnown : List String → WorkNode → Type 0
HasKnown ids n = All (λ d. (has d ids ≡ true) × ((d == n.id) ≡ false)) n.depends_on

pub record IsWellFormed (g : WorkGraph) : Type 0 where
  pub texts : All HasText g.nodes
  pub distinct : Distinct (node_ids g.nodes)
  pub known : All (HasKnown (node_ids g.nodes)) g.nodes
  pub acyclic : ¬ Cycle (successors g.nodes) (node_ids g.nodes)

node_errors-nil :
    (ids : List String) (n : WorkNode)
    → (node_errors ids n ≡ []) ↔ (HasText n × (has n.id ids ≡ false))
unfolding node_errors
node_errors-nil ids n = (λ h. ground arith, λ h. ground arith)

-- None of the first names stands among the others.
abbrev pub Fresh : List String → List String → Type 0
Fresh seen ids = All (λ x. has x seen ≡ false) ids

pub Fresh-cons :
    (y : String) (seen ids : List String)
    → Fresh (y ∷ seen) ids ↔ (Fresh seen ids × (has y ids ≡ false))
Fresh-cons y seen [] = (λ h. (tt, refl), λ h. tt)
Fresh-cons y seen (x ∷ xs) = (
  λ (h, hs).
      let (a, b) = (Fresh-cons y seen xs).0 hs in ((ground arith, a), ground (arith, ==_comm x y)),
  λ ((h, hs), k). (ground (arith, ==_comm x y), (Fresh-cons y seen xs).1 (hs, ground arith)),
)

check_nodes-nil :
    (seen : List String) (nodes : List WorkNode)
    → (check_nodes seen nodes ≡ [])
      ↔ (All HasText nodes × Distinct (node_ids nodes) × Fresh seen (node_ids nodes))
unfolding check_nodes
check_nodes-nil seen [] = (λ h. (tt, tt, tt), λ h. refl)
check_nodes-nil seen (n ∷ ns) = (
  λ h.
      let (a, b) = (append-eq-nil (node_errors seen n) (check_nodes (n.id ∷ seen) ns)).0 h in
      let (text, new) = (node_errors-nil seen n).0 a in
      let (texts, distinct, fresh) = (check_nodes-nil (n.id ∷ seen) ns).0 b in
      let (old, apart) = (Fresh-cons n.id seen (node_ids ns)).0 fresh in
      ((text, texts), (apart, distinct), (new, old)),
  λ ((text, texts), (apart, distinct), (new, old)).
      (append-eq-nil (node_errors seen n) (check_nodes (n.id ∷ seen) ns)).1 (
        (node_errors-nil seen n).1 (text, new),
        (check_nodes-nil (n.id ∷ seen) ns).1
            (texts, distinct, (Fresh-cons n.id seen (node_ids ns)).1 (old, apart)),
      ),
)

dependency_errors-nil :
    (ids : List String) (n : WorkNode) → (dependency_errors ids n ≡ []) ↔ HasKnown ids n
unfolding dependency_errors
dependency_errors-nil ids n =
    each-nil_iff (λ d. (has d ids ≡ true) × ((d == n.id) ≡ false)) _
      (λ d. (λ h. ground arith, λ h. ground arith)) n.depends_on

All-keep : (p : String → Bool) (xs : List String) → All (λ x. p x ≡ true) (keep p xs)
All-keep p [] = tt
All-keep p (x ∷ xs) = ground (arith, All-keep p xs)

pub successors-known :
    (nodes : List WorkNode) (u : String)
    → All (λ d. has d (node_ids nodes) ≡ true) (successors nodes u)
unfolding successors
successors-known nodes u = All-keep (λ d. has d (node_ids nodes)) (dependencies (find_node u nodes))

pub Fresh-nil : (ids : List String) → Fresh [] ids
Fresh-nil [] = tt
Fresh-nil (x ∷ xs) = (refl, Fresh-nil xs)

pub has_cycle-eq-false :
    (nodes : List WorkNode)
    → (has_cycle nodes ≡ false) ↔ (¬ Cycle (successors nodes) (node_ids nodes))
unfolding has_cycle
has_cycle-eq-false nodes =
    let (to, from) = has_cycle_iff (successors nodes) (node_ids nodes) (successors-known nodes) in
    (
      λ e c. cc (from c),
      λ none_. elim (Bool-cases (has_cycle nodes)) [
        | inl yes_ ↦ absurd (none_ (to yes_))
        | inr clear_ ↦ clear_
      ],
    )

-- A graph is accepted without errors exactly when every node has an id, an objective and an
-- expected output, no id stands twice, every dependency is another node of the graph, and no node
-- depends on itself through others.
pub validate_work_graph_iff : (g : WorkGraph) → (validate_work_graph g ≡ []) ↔ IsWellFormed g
unfolding validate_work_graph
validate_work_graph_iff g = (
  λ h.
      let (a, rest) = (append-eq-nil (check_nodes [] g.nodes) _).0 h in
      let (b, c) = (append-eq-nil (each (dependency_errors (node_ids g.nodes)) g.nodes) _).0 rest in
      let (texts, distinct, _) = (check_nodes-nil [] g.nodes).0 a in
      record {
        texts = texts;
        distinct = distinct;
        known =
            (each-nil_iff (HasKnown (node_ids g.nodes)) _ (dependency_errors-nil (node_ids g.nodes))
                g.nodes).0
              b;
        acyclic = (has_cycle-eq-false g.nodes).0 ((when-eq-nil _ _).0 c);
      },
  λ w. (append-eq-nil (check_nodes [] g.nodes) _).1 (
    (check_nodes-nil [] g.nodes).1 (w.texts, w.distinct, Fresh-nil (node_ids g.nodes)),
    (append-eq-nil (each (dependency_errors (node_ids g.nodes)) g.nodes) _).1 (
      (each-nil_iff (HasKnown (node_ids g.nodes)) _ (dependency_errors-nil (node_ids g.nodes))
            g.nodes).1
          w.known,
      (when-eq-nil _ _).1 ((has_cycle-eq-false g.nodes).1 w.acyclic),
    ),
  ),
)
