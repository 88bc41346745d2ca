-- ===== src/Graph/Cycles.antt =====
-- The answer of `hasCycle`, against the cycles of the graph.
use janus_core.Base.{
  ℕ, zero, suc, String, ◌≡◌, refl, ap, ◌∙◌, ◌↔◌, inl, inr, true, List, [], ◌∷◌, Bool-cases,
  string_eq, number_eq, length, All, has, All-has, has-members,
}
use janus_core.Graph.{
  Marks, Visit, exhausted, found, clear, visit_all, leave, visit, search, has_cycle,
}
use janus_core.Graph.Search.{
  Visit-cases, Clears, visit-Cleared, Chain, Chain-Walk, Topological-acyclic, Topological,
}
use janus_core.Graph.Fuel.{search-ne-exhausted, search-Topological}
pub use janus_core.Graph.Search.{Walk, Walk-concat, edge, step}

module _ (next : String → List String) (ids : List String) where
  -- A node of the graph that a walk of one edge or more leads back to.
  abbrev pub Cycle : Type 0
  Cycle = (v : String) × (has v ids ≡ true) × Walk next v v

  abbrev Known : List String → Type 0
  Known ds = All (λ d. has d ids ≡ true) ds

  abbrev Finds : (String → Marks → Visit) → List String → Type 0
  Finds v path =
      (d : String) (m : Marks)
      → has d ids ≡ true
      → Topological next m.visited
      → m.visiting ≡ path
      → Chain next d path
      → v d m ≡ found
      → Cycle

  visit_all-Finds :
      (v : String → Marks → Visit)
      → Clears next v
      → (path : List String) → Finds v path
      → (ds : List String) (m : Marks) → Known ds
      → All (λ d. Chain next d path) ds
      → Topological next m.visited
      → m.visiting ≡ path
      → visit_all v ds m ≡ found
      → Cycle
  unfolding visit_all
  visit_all-Finds v clears path one [] m k c t e h = absurd (cc)
  visit_all-Finds v clears path one (d ∷ ds) m (k, ks) (c, cs) t e h = elim (Visit-cases (v d m)) [
    | inl x ↦ absurd (cc (rw (x, visit_all) at h))
    | inr (inl x) ↦ one d m k t e c x
    | inr (inr (m1, x)) ↦
        let (left, _) = clears d m m1 t x in
        visit_all-Finds v clears path one ds m1 ks cs left.ordered (left.restored ∙ e)
          (rw (x, visit_all) at h)
  ]

  leave-eq-found : (id : String) (r : Visit) → leave id r ≡ found → r ≡ found
  leave-eq-found id exhausted h = cc
  leave-eq-found id found h = refl
  leave-eq-found id (clear m) h = cc

  Chains :
      (id : String) (path ds : List String)
      → Chain next id path
      → All (λ d. has d (next id) ≡ true) ds
      → All (λ d. Chain next d (id ∷ path)) ds
  Chains id path [] c h = tt
  Chains id path (d ∷ ds) c (h, hs) = ((h, c), Chains id path ds c hs)

  module _ (closed : (u : String) → Known (next u)) where
    visit-Finds : (fuel : ℕ) (path : List String) → Finds (visit next fuel) path
    unfolding visit
    visit-Finds zero path id m k t e c h = absurd (cc)
    visit-Finds (suc fuel) path id m k t e c h = elim (Bool-cases (has id m.visiting)) [
      | inl x ↦ (id, k, Chain-Walk next id id path c (rw (← e) x))
      | inr fresh ↦ elim (Bool-cases (has id m.visited)) [
        | inl old ↦ absurd (cc (rw (fresh, old, visit) at h))
        | inr new ↦
            visit_all-Finds (visit next fuel) (visit-Cleared next fuel) (id ∷ path)
              (visit-Finds fuel (id ∷ path)) (next id) (record m { visiting = id ∷ m.visiting })
              (closed id) (Chains id path (next id) c (has-members (next id))) t
              (ap (λ p. id ∷ p) e) (leave-eq-found id _ (rw (fresh, new, visit) at h))
      ]
    ]

    All-Unit : (ds : List String) → All (λ d. Chain next d []) ds
    All-Unit [] = tt
    All-Unit (d ∷ ds) = (tt, All-Unit ds)

    search-found : search next ids ≡ found → Cycle
    unfolding search
    search-found h =
        visit_all-Finds (visit next (suc (length ids))) (visit-Cleared next (suc (length ids))) []
          (visit-Finds (suc (length ids)) []) ids _ (has-members ids) (All-Unit ids) tt refl h

    search-clear : (m : Marks) → search next ids ≡ clear m → ¬ Cycle
    search-clear m h (v, k, walk) =
        let (ordered, all_visited) = search-Topological next ids m h in
        Topological-acyclic next m.visited v ordered
          (All-has (λ d. has d m.visited ≡ true) v ids all_visited k) walk

    -- Where every successor is a node, the search says `true` exactly when some node of the graph
    -- lies on a cycle; it never runs out of fuel.
    pub has_cycle_iff : (has_cycle next ids ≡ true) ↔ Cycle
    unfolding has_cycle
    has_cycle_iff = elim (Visit-cases (search next ids)) [
      | inl x ↦ absurd (search-ne-exhausted next ids closed x)
      | inr (inl x) ↦ (λ h. search-found x, λ c. rw (x, has_cycle))
      | inr (inr (m, x)) ↦
          (λ h. absurd (cc (rw (x, has_cycle) at h)), λ c. absurd (search-clear m x c))
    ]
