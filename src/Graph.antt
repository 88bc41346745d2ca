-- ===== src/Graph.antt =====
-- The depth-first search that `hasCycle` of packages/orchestrator/src/work-graph.ts and of
-- packages/automation/src/workflow.ts share: `visit` with its two sets, over a successor function.
pub mod Cycles
pub mod Progress
mod Search
mod Fuel
use janus_core.Base.{
  ℕ, zero, suc, String, Bool, true, false, List, [], ◌∷◌, string_eq, number_eq, length, has, delete,
}

-- The sets `visiting` and `visited`.
pub record Marks : Type 0 where
  pub visiting : List String
  pub visited : List String

-- What a call of `visit` returned: `found` is `true`, `clear` is `false` with the sets it left. The
-- sets are not read again after `true`. `exhausted` stands for recursion deeper than the fuel.
pub data Visit : Type 0 where
  exhausted found : Visit
  clear : Marks → Visit

-- The loop over a node's successors, and the `some` over all nodes.
unfoldable pub visit_all : (String → Marks → Visit) → List String → Marks → Visit
visit_all v [] m = clear m
visit_all v (d ∷ ds) m = elim (v d m) [
  | exhausted ↦ exhausted
  | found ↦ found
  | clear m' ↦ visit_all v ds m'
]

-- The end of a call of `visit` that found nothing.
abbrev pub leave : String → Visit → Visit
leave id exhausted = exhausted
leave id found = found
leave id (clear m) = clear (record m { visiting = delete id m.visiting; visited = id ∷ m.visited })

module _ (next : String → List String) where
  unfoldable pub visit : ℕ → String → Marks → Visit
  visit zero id m = exhausted
  visit (suc fuel) id m = elim (has id m.visiting) [
    | true ↦ found
    | false ↦ elim (has id m.visited) [
      | true ↦ clear m
      | false ↦
          leave id (visit_all (visit fuel) (next id) (record m { visiting = id ∷ m.visiting }))
    ]
  ]

  -- Every active call but the last stands on its own node, so one more than their number is enough.
  unfoldable pub search : List String → Visit
  unfolding visit visit_all
  search ids = visit_all (visit (suc (length ids))) ids (record { visiting = []; visited = [] })

  unfoldable pub has_cycle : List String → Bool
  unfolding search
  has_cycle ids = elim (search ids) [ found ↦ true | _ ↦ false ]
