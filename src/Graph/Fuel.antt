-- ===== src/Graph/Fuel.antt =====
-- How deep the search goes, against its fuel.
use janus_core.Base.{
  ℕ, zero, suc, ◌+◌, ◌≤◌, ◌<◌, String, ◌≡◌, refl, ap, ◌∙◌, ◌≢◌, inl, inr, true, false, List, [],
  ◌∷◌, arith, if◌then◌else◌, Bool-cases, ◌==◌, string_eq, number_eq, ==_refl, eq_of_==, length, All,
  has, has-members,
}
use janus_core.Graph.{Marks, Visit, exhausted, found, clear, visit_all, leave, visit, search}
use janus_core.Graph.Search.{Visit-cases, Clears, visit-Cleared, visit_all-Cleared, Topological}

-- How many of the nodes are not being visited.
abbrev pub outside : List String → List String → ℕ
outside path [] = 0
outside path (x ∷ xs) = (if has x path then 0 else 1) + outside path xs

outside_mono : (id : String) (path ids : List String) → outside (id ∷ path) ids ≤ outside path ids
outside_mono id path [] = omega arith
outside_mono id path (x ∷ xs) = ground (arith, outside_mono id path xs)

outside_drops :
    (id : String) (path ids : List String)
    → has id ids ≡ true
    → has id path ≡ false
    → outside (id ∷ path) ids < outside path ids
outside_drops id path [] h k = cc
outside_drops id path (x ∷ xs) h k = elim (Bool-cases (id == x)) [
  | inl same ↦
      let e : id ≡ x = eq_of_== id x same in ground (arith, outside_mono id path xs, ==_refl x)
  | inr other ↦ ground (arith, outside_drops id path xs, outside_mono id path xs)
]

module _ (next : String → List String) (ids : List String) where
  abbrev Known : List String → Type 0
  Known ds = All (λ d. has d ids ≡ true) ds

  abbrev Answers : (String → Marks → Visit) → List String → Type 0
  Answers v path =
      (d : String) (m : Marks)
      → has d ids ≡ true
      → Topological next m.visited
      → m.visiting ≡ path
      → v d m ≢ exhausted

  pub visit_all-Answers :
      (v : String → Marks → Visit)
      → Clears next v
      → (path : List String) → Answers v path
      → (ds : List String) (m : Marks) → Known ds
      → Topological next m.visited
      → m.visiting ≡ path
      → visit_all v ds m ≢ exhausted
  unfolding visit_all
  visit_all-Answers v clears path one [] m k t e h = cc
  visit_all-Answers v clears path one (d ∷ ds) m (k, ks) t e h = elim (Visit-cases (v d m)) [
    | inl x ↦ one d m k t e x
    | inr (inl x) ↦ cc (rw (x, visit_all) at h)
    | inr (inr (m1, x)) ↦
        let (c, _) = clears d m m1 t x in
        visit_all-Answers v clears path one ds m1 ks c.ordered (c.restored ∙ e)
          (rw (x, visit_all) at h)
  ]

  leave-ne-exhausted : (id : String) (r : Visit) → r ≢ exhausted → leave id r ≢ exhausted
  leave-ne-exhausted id exhausted n h = n refl
  leave-ne-exhausted id found n h = cc
  leave-ne-exhausted id (clear m) n h = cc

  module _ (closed : (u : String) → Known (next u)) where
    pub visit-Answers :
        (fuel : ℕ) (path : List String) → outside path ids < fuel → Answers (visit next fuel) path
    unfolding visit
    visit-Answers zero path f id m k t e h = absurd (omega arith)
    visit-Answers (suc fuel) path f id m k t e h = elim (Bool-cases (has id m.visiting)) [
      | inl x ↦ cc (rw (x, visit) at h)
      | inr fresh ↦ elim (Bool-cases (has id m.visited)) [
        | inl old ↦ cc (rw (fresh, old, visit) at h)
        | inr new ↦
            let away : has id path ≡ false = rw (← e) fresh in
            leave-ne-exhausted id _
              (visit_all-Answers (visit next fuel) (visit-Cleared next fuel) (id ∷ path)
                (visit-Answers fuel (id ∷ path) (omega (arith, outside_drops id path ids k away)))
                (next id) (record m { visiting = id ∷ m.visiting }) (closed id) t
                (ap (λ p. id ∷ p) e))
              (rw (fresh, new, visit) at h)
      ]
    ]

outside-le-length : (path ids : List String) → outside path ids ≤ length ids
outside-le-length path [] = omega arith
outside-le-length path (x ∷ xs) = ground (arith, outside-le-length path xs)

-- With every successor among the nodes, the search ends within its fuel.
pub search-ne-exhausted :
    (next : String → List String) (ids : List String)
    → ((u : String) → All (λ d. has d ids ≡ true) (next u))
    → search next ids ≢ exhausted
unfolding search
search-ne-exhausted next ids closed =
    visit_all-Answers next ids (visit next (suc (length ids)))
      (visit-Cleared next (suc (length ids))) []
      (visit-Answers next ids closed (suc (length ids)) []
        (omega (arith, outside-le-length [] ids)))
      ids _ (has-members ids) tt refl

-- A search that ends with nothing found has every node in topological order behind it.
pub search-Topological :
    (next : String → List String) (ids : List String) (m : Marks)
    → search next ids ≡ clear m
    → Topological next m.visited × All (λ d. has d m.visited ≡ true) ids
unfolding search
search-Topological next ids m h =
    let (left, all_visited) =
      visit_all-Cleared next (visit next (suc (length ids))) (visit-Cleared next (suc (length ids)))
        ids _ m tt h in
    (left.ordered, all_visited)
