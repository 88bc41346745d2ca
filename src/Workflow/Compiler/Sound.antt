-- ===== src/Workflow/Compiler/Sound.antt =====
-- The output of packages/automation/src/compiler.ts, against the validator of
-- packages/orchestrator/src/work-graph.ts.
use janus_core.Base.{
  String, ◌≡◌, refl, sym, ap, ◌∙◌, inl, inr, true, false, not, ◌&&◌, some, List, [], ◌∷◌, map,
  arith, Bool-cases, Option-cases, number_eq, string_eq, ◌==◌, eq_of_==, keep, All, All-map,
  All-keep, keep-All, has, All-has, has-cons, is_blank, is_blank-append,
}
use Prim.Native.String
use mathlib.Core.Option.{Option-elim}
use janus_core.WorkGraph.{WorkNode, validate_work_graph, successors, dependencies, find_node}
use janus_core.WorkGraph.{node_ids as work_ids}
use janus_core.WorkGraph.Validity.{HasText, HasKnown, validate_work_graph_iff}
use janus_core.Workflow.Types.{
  WorkflowExecutionMode, agentic, deterministic, WorkflowNode, WorkflowConnection,
  AutomationWorkflow,
}
use janus_core.Workflow.{
  validate_automation_workflow, is_error_branch, enabled, enabled_ids, node_ids, adjacency,
}
use janus_core.Workflow.Validity.{NodeIsSound, validate_automation_workflow-IsSound}
use janus_core.Workflow.Compiler.{
  CompiledWorkflowNode, CompiledAutomationWorkflow, compiled, depends_on, execution_text, objective,
  work_node, compiled_node, compile_node, compile_nodes, assembled, compile_automation_workflow,
}
use janus_core.Base.Number.{Number}
use janus_core.Workflow.Compiler.Edges.{Distinct-keep, has-keep, turned, reversed}

module _ (shown : Number → String) (w : AutomationWorkflow) where
  abbrev IsCompiled : List WorkflowNode → List WorkNode → Type 0
  IsCompiled [] [] = Unit
  IsCompiled (n ∷ ns) (g ∷ gs) =
      ((text : String) × (g ≡ work_node shown w n text) × (is_blank text ≡ false) × NodeIsSound n)
      × IsCompiled ns gs
  IsCompiled _ _ = ⊥

  objective_text :
      (n : WorkflowNode)
      → NodeIsSound n
      → (text : String) × (objective shown n ≡ some text) × (is_blank text ≡ false)
  unfolding objective is_blank
  objective_text n s = go n.execution_mode refl
    where
      go :
          (m : WorkflowExecutionMode)
          → n.execution_mode ≡ m
          → (text : String) × (objective shown n ≡ some text) × (is_blank text ≡ false)
      go agentic e =
          let (a, found, solid) = s.objective e in (a.objective, rw (e, found) refl, solid)
      go deterministic e = (
        execution_text shown n,
        rw e refl,
        is_blank-append "Execute "
            (String.◌++◌ n.type
              (String.◌++◌ "@" (String.◌++◌ (shown n.version) (String.◌++◌ ": " n.label))))
            refl,
      )

  compile_nodes-IsCompiled :
      (ns : List WorkflowNode)
      → All NodeIsSound ns
      → (cs : List CompiledWorkflowNode) × (compile_nodes shown w ns ≡ some cs)
        × IsCompiled ns (map (λ c. c.work_node) cs)
  unfolding compile_nodes compile_node
  compile_nodes-IsCompiled [] h = ([], refl, tt)
  compile_nodes-IsCompiled (n ∷ ns) (h, hs) =
      let (text, said, solid) = objective_text n h in
      let (cs, done_, good) = compile_nodes-IsCompiled ns hs in
      (
        compiled_node shown w n text ∷ cs,
        rw (compile_nodes, compile_node, said) (rw done_ refl),
        ((text, refl, solid, h), good),
      )

  ids-eq :
      (ns : List WorkflowNode) (gs : List WorkNode) → IsCompiled ns gs → work_ids gs ≡ node_ids ns
  unfolding work_node
  ids-eq [] [] h = refl
  ids-eq [] (g ∷ gs) h = absurd h
  ids-eq (n ∷ ns) [] h = absurd h
  ids-eq (n ∷ ns) (g ∷ gs) ((text, e, _, _), hs) = rw (e, ids-eq ns gs hs) refl

  texts : (ns : List WorkflowNode) (gs : List WorkNode) → IsCompiled ns gs → All HasText gs
  unfolding work_node is_blank
  texts [] [] h = tt
  texts [] (g ∷ gs) h = absurd h
  texts (n ∷ ns) [] h = absurd h
  texts (n ∷ ns) (g ∷ gs) ((text, e, solid, sound), hs) = (
    rw e (
      sound.named,
      solid,
      is_blank-append "Workflow node " (String.◌++◌ n.id " completed with observable output") refl,
    ),
    texts ns gs hs,
  )

  known_deps :
      (id : String) (ids : List String) (cs : List WorkflowConnection)
      → All (λ c. (c.from == c.to) ≡ false) cs
      → All
          (λ d. (has d ids ≡ true) × ((d == id) ≡ false))
          (keep
            (λ d. has d ids)
            (map (λ c. c.from) (keep (λ c. c.to == id && not (is_error_branch c)) cs)))
  known_deps id ids [] h = tt
  known_deps id ids (c ∷ cs) (h, hs) = elim (Bool-cases (c.to == id && not (is_error_branch c))) [
    | inr no_ ↦ rw no_ (known_deps id ids cs hs)
    | inl yes_ ↦ elim (Bool-cases (has c.from ids)) [
      | inr absent ↦ rw (yes_, absent) (known_deps id ids cs hs)
      | inl here ↦
          let to : c.to ≡ id = eq_of_== c.to id (ground (arith, yes_)) in
          rw (yes_, here) ((here, rw to at h), known_deps id ids cs hs)
    ]
  ]

  found-depends_on :
      (u : String) (g : WorkNode) (ns : List WorkflowNode) (gs : List WorkNode)
      → IsCompiled ns gs
      → find_node u gs ≡ some g
      → (g.depends_on ≡ depends_on w u) × (has u (node_ids ns) ≡ true)
  unfolding find_node work_node
  found-depends_on u g [] [] h e = absurd (cc)
  found-depends_on u g [] (x ∷ xs) h e = absurd h
  found-depends_on u g (n ∷ ns) [] h e = absurd h
  found-depends_on u g (n ∷ ns) (x ∷ xs) ((text, same, _, _), hs) e =
      elim (Option-cases (find_node u xs)) [
        | inr (y, later) ↦
            let eq : some y ≡ some g = rw later at e in
            let (deps, here) = found-depends_on u y ns xs hs later in
            (cc, has-cons u n.id (node_ids ns) here)
        | inl none_ ↦ elim (Bool-cases (u == x.id)) [
          | inr other_ ↦ absurd (cc (rw (none_, other_) at e))
          | inl this_ ↦
              let eq : some x ≡ some g = rw (none_, this_) at e in
              let eq' : x ≡ g = cc in
              let key : (u == n.id) ≡ true = rw (ap (λ v. v.id) same) at this_ in
              let name : u ≡ n.id = eq_of_== u x.id this_ ∙ ap (λ v. v.id) same in
              (
                ap (λ v. v.depends_on) (sym eq')
                    ∙ ap (λ v. v.depends_on) same
                    ∙ ap (depends_on w) (sym name),
                ground (arith, key),
              )
        ]
      ]

  successor-adjacency :
      (ns : List WorkflowNode) (gs : List WorkNode)
      → ns ≡ keep enabled w.nodes
      → IsCompiled ns gs
      → (u d : String) → has d (successors gs u) ≡ true
      → has u (adjacency w d) ≡ true
  unfolding successors adjacency depends_on
  successor-adjacency ns gs all_ h u d k = elim (Option-cases (find_node u gs)) [
    | inl none_ ↦ absurd (cc (has-keep _ d (dependencies (find_node u gs)) k))
    | inr (g, found) ↦
        let (deps, here) = found-depends_on u g ns gs h found in
        let k' = rw found at k in
        let known =
          All-has (λ x. has x (work_ids gs) ≡ true) d _
            (keep-All (λ x. has x (work_ids gs)) g.depends_on) k' in
        let ids : work_ids gs ≡ enabled_ids w.nodes = ids-eq ns gs h ∙ ap node_ids all_ in
        let asked : has d (depends_on w u) ≡ true =
          rw deps at (has-keep (λ x. has x (work_ids gs)) d g.depends_on k') in
        turned (enabled_ids w.nodes) u d w.connections (rw all_ at here) (rw ids at known)
          (has-keep (λ x. has x (enabled_ids w.nodes)) d _ asked)
  ]

  known_all :
      (ns : List WorkflowNode) (gs : List WorkNode)
      → IsCompiled ns gs
      → All (λ c. (c.from == c.to) ≡ false) w.connections
      → All (HasKnown (enabled_ids w.nodes)) gs
  unfolding work_node depends_on
  known_all [] [] h k = tt
  known_all [] (g ∷ gs) h k = absurd h
  known_all (n ∷ ns) [] h k = absurd h
  known_all (n ∷ ns) (g ∷ gs) ((text, e, _, _), hs) k =
      (rw e (known_deps n.id (enabled_ids w.nodes) w.connections k), known_all ns gs hs k)

  -- A workflow that the validator accepts is compiled, without a crash, to a work graph that the
  -- work graph's validator accepts too: the dependencies are known, and there is no cycle.
  pub compile-validates :
      validate_automation_workflow w ≡ []
      → (c : CompiledAutomationWorkflow) × (compile_automation_workflow shown w ≡ compiled c)
        × (validate_work_graph c.work_graph ≡ [])
  unfolding compile_automation_workflow Option-elim
  compile-validates valid =
      let sound = validate_automation_workflow-IsSound w valid in
      let ns = keep enabled w.nodes in
      let (cs, made, good) =
        compile_nodes-IsCompiled ns (All-keep NodeIsSound enabled w.nodes sound.nodes) in
      let gs = map (λ c. c.work_node) cs in
      let ids = ids-eq ns gs good in
      (
        assembled shown w cs,
        rw (compile_automation_workflow, valid) (rw made refl),
        (validate_work_graph_iff (record { goal = w.name; nodes = gs })).1 (record {
          texts = texts ns gs good;
          distinct = rw ids (Distinct-keep enabled w.nodes sound.distinct);
          known = rw ids (
              known_all ns gs good (
                All-map _ (λ c. (c.from == c.to) ≡ false) (λ c h. h.2) w.connections
                  sound.connected));
          acyclic = λ (v, here, walk). sound.acyclic (
            v,
            rw ids at here,
            reversed (successors gs) (adjacency w) (successor-adjacency ns gs refl good) walk,
          );
        }),
      )
