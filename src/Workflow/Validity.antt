-- ===== src/Workflow/Validity.antt =====
-- What a workflow that the validator of packages/automation/src/workflow.ts accepts is like.
use janus_core.Base.{
  String, ◌≡◌, refl, ◌⊎◌, inl, inr, Bool, true, false, not, ◌&&◌, ◌||◌, Option, none, some, List,
  [], ◌∷◌, map, arith, nat_eq, ◌==◌, string_eq, number_eq, is_empty, keep, All, append-eq-nil, has,
  is_blank, when, when-eq-nil, each,
}
use mathlib.Core.Option.{Option-elim}
use janus_core.Base.Number.{whole, less}
use janus_core.Graph.Cycles.{Cycle, has_cycle_iff}
use janus_core.WorkGraph.Validity.{Distinct, Fresh, Fresh-cons}
use janus_core.Workflow.Types.{
  agentic, WorkflowRisk, high, WorkflowAgentOperation, WorkflowNode, WorkflowConnection,
  AutomationWorkflow,
}
use janus_core.Workflow.{
  is_high, is_trigger, retry_errors, mode_errors, credential_errors, node_errors, check_nodes,
  connection_errors, node_ids, enabled, enabled_ids, is_error_branch, adjacency, has_cycle,
  validate_automation_workflow, looks_like_secret, not_positive_integer, bad_version, bad_timeout,
  approval_required, unsupported_schema, id_required, name_required, bad_revision, bad_concurrency,
  no_nodes, bad_supersession,
}

-- A node with an id and a label; high-risk or irreversible only with an approval; with an objective
-- where a model runs it; with no credential that is a secret itself.
pub record NodeIsSound (n : WorkflowNode) : Type 0 where
  pub named : is_blank n.id ≡ false
  pub labelled : is_blank n.label ≡ false
  pub approval : (n.risk ≡ high) ⊎ (n.reversible ≡ false) → n.requires_approval ≡ true
  pub objective :
      n.execution_mode ≡ agentic
      → (a : WorkflowAgentOperation) × (n.agent_operation ≡ some a) × (is_blank a.objective ≡ false)
  pub no_secret : All (λ c. looks_like_secret c ≡ false) n.credential_refs

pub record IsSound (w : AutomationWorkflow) : Type 0 where
  pub nodes : All NodeIsSound w.nodes
  pub distinct : Distinct (node_ids w.nodes)
  pub connected :
      All
        (λ c.
          (has c.from (node_ids w.nodes) ≡ true)
          × (has c.to (node_ids w.nodes) ≡ true)
          × ((c.from == c.to) ≡ false))
        w.connections
  pub triggered : is_empty (keep (λ n. is_trigger n.kind && enabled n) w.nodes) ≡ false
  pub acyclic : ¬ Cycle (adjacency w) (enabled_ids w.nodes)

approval_lem :
    (risk : WorkflowRisk) (reversible approval : Bool)
    → ((is_high risk || not reversible) && not approval) ≡ false
    → (risk ≡ high) ⊎ (reversible ≡ false)
    → approval ≡ true
approval_lem risk reversible true h k = refl
approval_lem risk reversible false h (inl k) = absurd (cc (rw k at h))
approval_lem high reversible false h (inr k) = absurd (cc)
approval_lem WorkflowRisk.medium reversible false h (inr k) = absurd (cc (rw k at h))
approval_lem WorkflowRisk.low reversible false h (inr k) = absurd (cc (rw k at h))
approval_lem WorkflowRisk.no_risk reversible false h (inr k) = absurd (cc (rw k at h))

objective_lem :
    (o : Option WorkflowAgentOperation)
    → Option-elim o true (λ a. is_blank a.objective) ≡ false
    → (a : WorkflowAgentOperation) × (o ≡ some a) × (is_blank a.objective ≡ false)
unfolding Option-elim
objective_lem none h = absurd (cc)
objective_lem (some a) h = (a, refl, h)

mode_errors-objective :
    (n : WorkflowNode)
    → mode_errors n ≡ []
    → n.execution_mode ≡ agentic
    → (a : WorkflowAgentOperation) × (n.agent_operation ≡ some a) × (is_blank a.objective ≡ false)
unfolding mode_errors
mode_errors-objective n h e =
    let k = rw e at h in
    objective_lem n.agent_operation ((when-eq-nil _ _).0 ((append-eq-nil _ _).0 k).0)

credentials-nil :
    (id : String) (refs : List String)
    → credential_errors id refs ≡ []
    → All (λ c. looks_like_secret c ≡ false) refs
unfolding credential_errors
credentials-nil id [] h = tt
credentials-nil id (c ∷ cs) h =
    let (a, b) = (append-eq-nil _ _).0 h in
    ((when-eq-nil _ _).0 ((append-eq-nil _ _).0 a).1, credentials-nil id cs b)

node_errors-nil :
    (ids : List String) (n : WorkflowNode)
    → node_errors ids n ≡ []
    → NodeIsSound n × (has n.id ids ≡ false)
unfolding node_errors
node_errors-nil ids n h =
    let (a, h1) = (append-eq-nil _ _).0 h in
    let (b, h2) = (append-eq-nil _ _).0 h1 in
    let (c, h3) = (append-eq-nil _ _).0 h2 in
    let (d, h4) = (append-eq-nil _ _).0 h3 in
    let (_, h5) =
      (append-eq-nil (when (not_positive_integer n.version) (bad_version n.id)) _).0 h4 in
    let (_, h6) =
      (append-eq-nil
          (when (not (less (whole 0) (Option-elim n.timeout_ms (whole 1) (λ t. t))))
            (bad_timeout n.id))
          _).0
        h5 in
    let (_, h7) = (append-eq-nil (retry_errors n.id n.retry) _).0 h6 in
    let (e, h8) = (append-eq-nil _ _).0 h7 in
    let (f, g) = (append-eq-nil _ _).0 h8 in
    (
      record {
        named = (when-eq-nil _ _).0 a;
        labelled = (when-eq-nil _ _).0 d;
        approval =
            approval_lem n.risk n.reversible n.requires_approval
              ((when-eq-nil _ (approval_required n.id)).0 e);
        objective = mode_errors-objective n f;
        no_secret = credentials-nil n.id n.credential_refs g;
      },
      (when-eq-nil _ _).0 b,
    )

check_nodes-nil :
    (seen : List String) (nodes : List WorkflowNode)
    → check_nodes seen nodes ≡ []
    → All NodeIsSound nodes × Distinct (node_ids nodes) × Fresh seen (node_ids nodes)
unfolding check_nodes
check_nodes-nil seen [] h = (tt, tt, tt)
check_nodes-nil seen (n ∷ ns) h =
    let (a, b) = (append-eq-nil _ _).0 h in
    let (sound, new) = node_errors-nil seen n a in
    let (sounds, distinct, fresh) = check_nodes-nil (n.id ∷ seen) ns b in
    let (old, apart) = (Fresh-cons n.id seen (node_ids ns)).0 fresh in
    ((sound, sounds), (apart, distinct), (new, old))

connections-nil :
    (ids : List String) (cs : List WorkflowConnection)
    → each (connection_errors ids) cs ≡ []
    → All (λ c. (has c.from ids ≡ true) × (has c.to ids ≡ true) × ((c.from == c.to) ≡ false)) cs
unfolding connection_errors
connections-nil ids [] h = tt
connections-nil ids (c ∷ cs) h =
    let (a, b) = (append-eq-nil (connection_errors ids c) _).0 h in
    (ground (arith, a), connections-nil ids cs b)

adjacency_known :
    (w : AutomationWorkflow) (u : String)
    → All (λ d. has d (enabled_ids w.nodes) ≡ true) (adjacency w u)
unfolding adjacency
adjacency_known w u = go w.connections
  where
    go :
        (cs : List WorkflowConnection)
        → All
            (λ d. has d (enabled_ids w.nodes) ≡ true)
            (map
              (λ c. c.to)
              (keep
                (λ c.
                  not (is_error_branch c)
                  && (has c.from (enabled_ids w.nodes)
                      && has c.to (enabled_ids w.nodes)
                      && c.from == u))
                cs))
    go [] = tt
    go (c ∷ cs) = ground (arith, go cs)

-- A workflow that is accepted without errors has sound nodes with different ids, connections
-- between two different nodes of it, an enabled trigger, and no cycle over its enabled nodes but
-- through error branches.
pub validate_automation_workflow-IsSound :
    (w : AutomationWorkflow) → validate_automation_workflow w ≡ [] → IsSound w
unfolding validate_automation_workflow has_cycle
validate_automation_workflow-IsSound w h =
    let (_, h1) =
      (append-eq-nil (when (not (nat_eq w.schema_version 1)) (unsupported_schema w.schema_version))
          _).0
        h in
    let (_, h2) = (append-eq-nil (when (is_blank w.id) id_required) _).0 h1 in
    let (_, h3) = (append-eq-nil (when (is_blank w.name) name_required) _).0 h2 in
    let (_, h4) = (append-eq-nil (when (not_positive_integer w.revision) bad_revision) _).0 h3 in
    let (_, h5) =
      (append-eq-nil (when (not_positive_integer w.max_concurrency) bad_concurrency) _).0 h4 in
    let (_, h6) = (append-eq-nil (when (is_empty w.nodes) no_nodes) _).0 h5 in
    let (_, h7) =
      (append-eq-nil
          (when (Option-elim w.supersedes_revision false (λ s. not (less s w.revision)))
            bad_supersession)
          _).0
        h6 in
    let (a, h8) = (append-eq-nil _ _).0 h7 in
    let (b, h9) = (append-eq-nil _ _).0 h8 in
    let (c, d) = (append-eq-nil _ _).0 h9 in
    let (sounds, distinct, _) = check_nodes-nil [] w.nodes a in
    record {
      nodes = sounds;
      distinct = distinct;
      connected = connections-nil (node_ids w.nodes) w.connections c;
      triggered = (when-eq-nil _ _).0 b;
      acyclic = λ k.
          let yes_ = (has_cycle_iff (adjacency w) (enabled_ids w.nodes) (adjacency_known w)).1 k in
          absurd (cc ((when-eq-nil _ _).0 d));
    }
