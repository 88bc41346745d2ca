-- ===== src/WorkGraph/Rounds.antt =====
-- Rounds of work over `readyWorkNodes` of packages/orchestrator/src/work-graph.ts.
use janus_core.Base.{
  ℕ, zero, suc, ◌+◌, ◌≤◌, ◌<◌, String, ◌≡◌, inl, inr, Bool, true, false, not, ◌&&◌, List, [], ◌∷◌,
  ◌++◌, arith, if◌then◌else◌, Bool-cases, string_eq, number_eq, ==_refl, length, any, keep, All,
  All-map, has, has-append_right, has-cons,
}
use janus_core.WorkGraph.{
  WorkNode, WorkGraph, node_ids, validate_work_graph, invalid, ready, is_ready, ready_work_nodes,
}
use janus_core.WorkGraph.Progress.{any-is_ready}

-- One round of work: every node that may run is run and completed.
abbrev pub advance : WorkGraph → List String → List String
advance g completed = elim (ready_work_nodes g completed) [
  | invalid _ ↦ completed
  | ready nodes ↦ node_ids nodes ++ completed
]

pub rounds : ℕ → WorkGraph → List String → List String
rounds zero g completed = completed
rounds (suc k) g completed = rounds k g (advance g completed)

-- How many nodes are not completed.
abbrev pending : List String → List WorkNode → ℕ
pending completed [] = 0
pending completed (n ∷ ns) = (if has n.id completed then 0 else 1) + pending completed ns

module _ (before after : List String)
    (grown : (x : String) → has x before ≡ true → has x after ≡ true) where
  pending_mono : (ns : List WorkNode) → pending after ns ≤ pending before ns
  pending_mono [] = omega arith
  pending_mono (n ∷ ns) = ground (arith, pending_mono ns, grown n.id)

  pending_drops :
      (ns : List WorkNode)
      → any (λ n. has n.id after && not (has n.id before)) ns ≡ true
      → pending after ns < pending before ns
  pending_drops [] h = cc
  pending_drops (n ∷ ns) h = ground (arith, pending_mono ns, pending_drops ns, grown n.id)

module _ (p : WorkNode → Bool) (completed : List String) where
  kept-has :
      (ns : List WorkNode)
      → All (λ n. p n ≡ true → has n.id (node_ids (keep p ns) ++ completed) ≡ true) ns
  kept-has [] = tt
  kept-has (n ∷ ns) = elim (Bool-cases (p n)) [
    | inl kept ↦ (
      λ h. rw (kept, ==_refl n.id),
      All-map _ _ (λ m k h. rw kept (has-cons m.id n.id _ (k h))) ns (kept-has ns),
    )
    | inr dropped ↦ (λ h. absurd (cc), All-map _ _ (λ m k h. rw dropped (k h)) ns (kept-has ns))
  ]

  kept-grown :
      (ns : List WorkNode) (x : String)
      → has x completed ≡ true
      → has x (node_ids (keep p ns) ++ completed) ≡ true
  kept-grown ns x h = has-append_right x (node_ids (keep p ns)) completed h

newly-any :
    (completed after : List String) (ns : List WorkNode)
    → All (λ n. is_ready completed n ≡ true → has n.id after ≡ true) ns
    → any (is_ready completed) ns ≡ true
    → any (λ n. has n.id after && not (has n.id completed)) ns ≡ true
newly-any completed after [] k h = cc
newly-any completed after (n ∷ ns) (k, ks) h = elim (Bool-cases (is_ready completed n)) [
  | inl runs ↦
      let now : has n.id after ≡ true = k runs in
      let before : has n.id completed ≡ false = ground arith in rw (now, before)
  | inr waits ↦ let later = newly-any completed after ns ks (rw waits at h) in ground arith
]

advance_lem :
    (g : WorkGraph) (completed : List String)
    → validate_work_graph g ≡ []
    → advance g completed ≡ node_ids (keep (is_ready completed) g.nodes) ++ completed
unfolding ready_work_nodes
advance_lem g completed valid = rw (valid, advance, ready_work_nodes)

-- A round of an accepted graph leaves fewer nodes to do, unless none was left.
advance-pending :
    (g : WorkGraph) (completed : List String)
    → validate_work_graph g ≡ []
    → any (λ n. not (has n.id completed)) g.nodes ≡ true
    → pending (advance g completed) g.nodes < pending completed g.nodes
advance-pending g completed valid open_ = rw (advance_lem g completed valid) (
    pending_drops completed (node_ids (keep (is_ready completed) g.nodes) ++ completed)
      (kept-grown (is_ready completed) completed g.nodes) g.nodes
      (newly-any completed _ g.nodes (kept-has (is_ready completed) completed g.nodes)
        (any-is_ready g completed valid open_)))

pending-le-zero :
    (completed : List String) (ns : List WorkNode)
    → pending completed ns ≤ 0
    → All (λ n. has n.id completed ≡ true) ns
pending-le-zero completed [] h = tt
pending-le-zero completed (n ∷ ns) h = (ground arith, pending-le-zero completed ns (ground arith))

none-pending :
    (completed : List String) (ns : List WorkNode)
    → any (λ n. not (has n.id completed)) ns ≡ false
    → pending completed ns ≤ 0
none-pending completed [] h = omega arith
none-pending completed (n ∷ ns) h = ground (arith, none-pending completed ns)

advance_le :
    (g : WorkGraph) (completed : List String)
    → validate_work_graph g ≡ []
    → pending (advance g completed) g.nodes ≤ pending completed g.nodes
advance_le g completed valid =
    rw (advance_lem g completed valid)
      (pending_mono completed _ (kept-grown (is_ready completed) completed g.nodes) g.nodes)

rounds-finish :
    (k : ℕ) (g : WorkGraph) (completed : List String)
    → validate_work_graph g ≡ []
    → pending completed g.nodes ≤ k
    → All (λ n. has n.id (rounds k g completed) ≡ true) g.nodes
unfolding rounds
rounds-finish zero g completed valid h = pending-le-zero completed g.nodes h
rounds-finish (suc k) g completed valid h =
    elim (Bool-cases (any (λ n. not (has n.id completed)) g.nodes)) [
      | inl open_ ↦
          rounds-finish k g (advance g completed) valid
            (omega (arith, advance-pending g completed valid open_))
      | inr closed ↦
          rounds-finish k g (advance g completed) valid
            (omega (arith, advance_le g completed valid, none-pending completed g.nodes closed))
    ]

pending-le-length :
    (completed : List String) (ns : List WorkNode) → pending completed ns ≤ length ns
pending-le-length completed [] = omega arith
pending-le-length completed (n ∷ ns) = ground (arith, pending-le-length completed ns)

-- When each round completes every node that `readyWorkNodes` offers, all nodes of an accepted graph
-- are completed after as many rounds as there are nodes, whatever was completed at the start.
pub rounds_complete :
    (g : WorkGraph) (completed : List String)
    → validate_work_graph g ≡ []
    → All (λ n. has n.id (rounds (length g.nodes) g completed) ≡ true) g.nodes
rounds_complete g completed valid =
    rounds-finish (length g.nodes) g completed valid (pending-le-length completed g.nodes)
