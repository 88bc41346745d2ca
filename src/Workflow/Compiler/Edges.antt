-- ===== src/Workflow/Compiler/Edges.antt =====
-- Edges of a work graph as connections of the workflow, turned round.
use janus_core.Base.{
  String, ◌≡◌, refl, inl, inr, Bool, true, false, not, ◌&&◌, List, [], ◌∷◌, map, arith, Bool-cases,
  number_eq, string_eq, ◌==◌, eq_of_==, ==_comm, keep, has, has_self, has-cons,
}
use janus_core.Graph.Cycles.{Walk, Walk-concat, edge, step}
use janus_core.WorkGraph.Validity.{Distinct}
use janus_core.Workflow.Types.{WorkflowNode, WorkflowConnection}
use janus_core.Workflow.{is_error_branch, node_ids}

pub Distinct-keep :
    (p : WorkflowNode → Bool) (ns : List WorkflowNode)
    → Distinct (node_ids ns)
    → Distinct (node_ids (keep p ns))
Distinct-keep p [] h = tt
Distinct-keep p (n ∷ ns) (h, hs) = elim (Bool-cases (p n)) [
  | inl yes_ ↦ rw yes_ (absent ns h, Distinct-keep p ns hs)
  | inr no_ ↦ rw no_ (Distinct-keep p ns hs)
]
  where
    absent :
        (ms : List WorkflowNode)
        → has n.id (node_ids ms) ≡ false
        → has n.id (node_ids (keep p ms)) ≡ false
    absent [] k = refl
    absent (m ∷ ms) k = ground (arith, absent ms)

pub has-keep :
    (p : String → Bool) (d : String) (xs : List String) → has d (keep p xs) ≡ true → has d xs ≡ true
has-keep p d [] h = h
has-keep p d (x ∷ xs) h = elim (Bool-cases (p x)) [
  | inl yes_ ↦ let k = rw yes_ at h in ground (arith, k, has-keep p d xs)
  | inr no_ ↦ has-cons d x xs (has-keep p d xs (rw no_ at h))
]

-- The edge of a dependency is a connection, turned round.
pub turned :
    (ids : List String) (u d : String) (cs : List WorkflowConnection)
    → has u ids ≡ true
    → has d ids ≡ true
    → has d (map (λ c. c.from) (keep (λ c. c.to == u && not (is_error_branch c)) cs)) ≡ true
    → has u (
        map
          (λ c. c.to)
          (keep
            (λ c. not (is_error_branch c) && (has c.from ids && has c.to ids && c.from == d))
            cs))
      ≡ true
turned ids u d [] hu hd h = cc
turned ids u d (c ∷ cs) hu hd h =
    elim (Bool-cases (d == c.from && (c.to == u && not (is_error_branch c)))) [
      | inl yes_ ↦
          let from : d ≡ c.from = eq_of_== d c.from (ground (arith, yes_)) in
          let to : c.to ≡ u = eq_of_== c.to u (ground (arith, yes_)) in
          let kept : (not (is_error_branch c) && (has c.from ids && has c.to ids && c.from == d))
              ≡ true =
            ground (arith, yes_, rw from at hd, rw (← to) at hu, ==_comm c.from d) in
          rw kept (rw to (has_self u _))
      | inr no_ ↦
          let rest = turned ids u d cs hu hd (ground (arith, h, no_)) in
          elim (Bool-cases
            (not (is_error_branch c) && (has c.from ids && has c.to ids && c.from == d))) [
              | inl kept ↦ rw kept (has-cons u c.to _ rest)
              | inr left ↦ rw left rest
            ]
    ]

-- A walk, backwards.
pub reversed :
    (next prev : String → List String)
    → ((u d : String) → has d (next u) ≡ true → has u (prev d) ≡ true)
    → {a b : String} → Walk next a b
    → Walk prev b a
reversed next prev turn (edge h) = edge (turn _ _ h)
reversed next prev turn (step h r) = Walk-concat prev (reversed next prev turn r) (turn _ _ h)
