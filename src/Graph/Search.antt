-- ===== src/Graph/Search.antt =====
-- What the search leaves behind: the order of the nodes that it clears, and the set `visiting`.
use janus_core.Base.{
  ℕ, zero, suc, String, ◌≡◌, refl, ◌∙◌, ◌⊎◌, inl, inr, true, false, List, [], ◌∷◌, arith,
  Bool-cases, ◌==◌, string_eq, number_eq, ==_refl, eq_of_==, All, has, delete, delete_absent,
  All-has, has_self,
}
use mathlib.Core.Path.{subst}
use janus_core.Graph.{Marks, Visit, exhausted, found, clear, visit_all, leave, visit}

pub Visit-cases : (r : Visit) → (r ≡ exhausted) ⊎ (r ≡ found) ⊎ ((m : Marks) × (r ≡ clear m))
Visit-cases exhausted = inl refl
Visit-cases found = inr (inl refl)
Visit-cases (clear m) = inr (inr (m, refl))

module _ (next : String → List String) where
  -- One or more edges from the first node to the second.
  pub data Walk : String → String → Type 0 where
    edge : {u v : String} → has v (next u) ≡ true → Walk u v
    step : {u v w : String} → has v (next u) ≡ true → Walk v w → Walk u w

  -- Every node of the list has an edge to the one before it, and the head to `id`.
  abbrev pub Chain : String → List String → Type 0
  Chain id [] = Unit
  Chain id (v ∷ vs) = (has id (next v) ≡ true) × Chain v vs

  -- The successors of every node stand behind it.
  abbrev pub Topological : List String → Type 0
  Topological [] = Unit
  Topological (w ∷ ws) = All (λ d. has d ws ≡ true) (next w) × Topological ws

  pub Walk-concat : {u v w : String} → Walk u v → has w (next v) ≡ true → Walk u w
  Walk-concat (edge h) k = step h (edge k)
  Walk-concat (step h r) k = step h (Walk-concat r k)

  pub Chain-Walk :
      (id u : String) (path : List String) → Chain id path → has u path ≡ true → Walk u id
  Chain-Walk id u [] c h = cc
  Chain-Walk id u (v ∷ vs) (c, cs) h = elim (Bool-cases (u == v)) [
    | inl same ↦ rw (eq_of_== u v same) (edge c)
    | inr other ↦ Walk-concat (Chain-Walk v u vs cs (ground arith)) c
  ]

  has-next :
      (ws : List String) (u v : String)
      → Topological ws
      → has u ws ≡ true
      → has v (next u) ≡ true
      → has v ws ≡ true
  has-next [] u v t h k = cc
  has-next (w ∷ ws) u v (t, ts) h k = elim (Bool-cases (u == w)) [
    | inl same ↦
        let later : has v ws ≡ true =
          All-has (λ d. has d ws ≡ true) v (next w) t (rw (eq_of_== u w same) at k) in
        ground arith
    | inr other ↦ ground (arith, has-next ws u v ts)
  ]

  has-Walk :
      (ws : List String) {u v : String}
      → Topological ws
      → has u ws ≡ true
      → Walk u v
      → has v ws ≡ true
  has-Walk ws t h (edge k) = has-next ws _ _ t h k
  has-Walk ws t h (step k r) = has-Walk ws t (has-next ws _ _ t h k) r

  has-Walk_tail :
      (w : String) (ws : List String) {v : String}
      → Topological (w ∷ ws)
      → Walk w v
      → has v ws ≡ true
  has-Walk_tail w ws (t, ts) (edge k) = All-has (λ d. has d ws ≡ true) _ (next w) t k
  has-Walk_tail w ws (t, ts) (step k r) =
      has-Walk ws ts (All-has (λ d. has d ws ≡ true) _ (next w) t k) r

  pub Topological-acyclic :
      (ws : List String) (u : String) → Topological ws → has u ws ≡ true → ¬ Walk u u
  Topological-acyclic [] u t h r = cc
  Topological-acyclic (w ∷ ws) u t h r = elim (Bool-cases (u == w)) [
    | inl same ↦
        let e : u ≡ w = eq_of_== u w same in
        let again : Walk w u = rw (← e) r in
        Topological-acyclic ws u t.1 (has-Walk_tail w ws t again) r
    | inr other ↦ Topological-acyclic ws u t.1 (ground arith) r
  ]

  -- What a call that found nothing has done to the sets.
  pub record Cleared (m m' : Marks) : Type 0 where
    pub restored : m'.visiting ≡ m.visiting
    pub ordered : Topological m'.visited
    pub grown : (u : String) → has u m.visited ≡ true → has u m'.visited ≡ true

  Cleared-refl : (m : Marks) → Topological m.visited → Cleared m m
  Cleared-refl m t = record { restored = refl; ordered = t; grown = λ u h. h }

  Cleared-of_eq : (m m' : Marks) → Topological m.visited → clear m ≡ clear m' → Cleared m m'
  Cleared-of_eq m m' t e =
      let same : m ≡ m' = cc in subst (λ x. Cleared m x) same (Cleared-refl m t)

  abbrev pub Clears : (String → Marks → Visit) → Type 0
  Clears v =
      (d : String) (m m' : Marks)
      → Topological m.visited
      → v d m ≡ clear m'
      → Cleared m m' × (has d m'.visited ≡ true)

  pub visit_all-Cleared :
      (v : String → Marks → Visit)
      → Clears v
      → (ds : List String) (m m' : Marks) → Topological m.visited
      → visit_all v ds m ≡ clear m'
      → Cleared m m' × All (λ d. has d m'.visited ≡ true) ds
  unfolding visit_all
  visit_all-Cleared v one [] m m' t e = (Cleared-of_eq m m' t e, tt)
  visit_all-Cleared v one (d ∷ ds) m m' t e = elim (Visit-cases (v d m)) [
    | inl x ↦ absurd (cc (rw (x, visit_all) at e))
    | inr (inl x) ↦ absurd (cc (rw (x, visit_all) at e))
    | inr (inr (m1, x)) ↦
        let (c, here) = one d m m1 t x in
        let (c', later) = visit_all-Cleared v one ds m1 m' c.ordered (rw (x, visit_all) at e) in
        (
          record {
            restored = c'.restored ∙ c.restored;
            ordered = c'.ordered;
            grown = λ u h. c'.grown u (c.grown u h);
          },
          (c'.grown d here, later),
        )
  ]

  leave-Cleared :
      (id : String) (m m' : Marks)
      → has id m.visiting ≡ false
      → (r : Visit)
      → ((m1 : Marks)
          → r ≡ clear m1
          → Cleared (record m { visiting = id ∷ m.visiting }) m1
            × All (λ d. has d m1.visited ≡ true) (next id))
      → leave id r ≡ clear m'
      → Cleared m m' × (has id m'.visited ≡ true)
  leave-Cleared id m m' fresh exhausted k e = absurd (cc)
  leave-Cleared id m m' fresh found k e = absurd (cc)
  leave-Cleared id m m' fresh (clear m1) k e =
      let (c, later) = k m1 refl in
      let left : m' ≡ record m1 { visiting = delete id m1.visiting; visited = id ∷ m1.visited } =
        cc in
      rw left (
        record {
          restored = rw c.restored (ground (arith, ==_refl id, delete_absent id m.visiting fresh));
          ordered = (later, c.ordered);
          grown = λ u h. ground (arith, c.grown u h);
        },
        has_self id m1.visited,
      )

  pub visit-Cleared : (fuel : ℕ) → Clears (visit next fuel)
  unfolding visit
  visit-Cleared zero id m m' t e = absurd (cc)
  visit-Cleared (suc fuel) id m m' t e = elim (Bool-cases (has id m.visiting)) [
    | inl x ↦ absurd (cc (rw (x, visit) at e))
    | inr fresh ↦ elim (Bool-cases (has id m.visited)) [
      | inl old ↦
          let same : clear m ≡ clear m' = rw (fresh, old, visit) at e in
          let c = Cleared-of_eq m m' t same in (c, c.grown id old)
      | inr new ↦
          leave-Cleared id m m' fresh
            (visit_all (visit next fuel) (next id) (record m { visiting = id ∷ m.visiting }))
            (λ m1. visit_all-Cleared (visit next fuel) (visit-Cleared fuel) (next id) _ m1 t)
            (rw (fresh, new, visit) at e)
    ]
  ]
