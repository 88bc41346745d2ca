-- ===== src/Graph/Progress.antt =====
-- The search on a graph with unfinished nodes, and its fuel.
use janus_core.Base.{
  String, ◌≡◌, inl, inr, Bool, true, false, List, [], ◌∷◌, arith, Bool-cases, ◌==◌, string_eq,
  number_eq, eq_of_==, all, All, has, All-has, has_self, has-cons,
}
use janus_core.Graph.{Marks, clear, search, has_cycle}
use janus_core.Graph.Search.{Visit-cases, Topological}
use janus_core.Graph.Fuel.{search-ne-exhausted, search-Topological}

-- `every` fails at some element.
pub all-eq-false :
    (p : String → Bool) (q : String → Type 0) (xs : List String)
    → All q xs
    → all p xs ≡ false
    → (d : String) × (p d ≡ false) × (has d xs ≡ true) × q d
all-eq-false p q [] h e = absurd (cc)
all-eq-false p q (x ∷ xs) (k, h) e = elim (Bool-cases (p x)) [
  | inl yes_ ↦
      let (d, bad, member, kept) = all-eq-false p q xs h (ground arith) in
      (d, bad, has-cons d x xs member, kept)
  | inr fails ↦ (x, fails, has_self x xs, k)
]

module _ (next : String → List String) (ids : List String) (is_done : String → Bool) where
  -- An unfinished node whose successors are all finished.
  abbrev pub Minimal : Type 0
  Minimal = (w : String) × (has w ids ≡ true) × (is_done w ≡ false) × (all is_done (next w) ≡ true)

  module _ (closed : (u : String) → All (λ d. has d ids ≡ true) (next u)) where
    Topological-Minimal :
        (ws : List String) (u : String)
        → Topological next ws
        → has u ws ≡ true
        → has u ids ≡ true
        → is_done u ≡ false
        → Minimal
    Topological-Minimal [] u t h k e = absurd (cc)
    Topological-Minimal (w ∷ ws) u (t, ts) h k e = elim (Bool-cases (u == w)) [
      | inr other ↦ Topological-Minimal ws u ts (ground arith) k e
      | inl same ↦ elim (Bool-cases (all is_done (next u))) [
        | inl ready ↦ (u, k, e, ready)
        | inr waits ↦
            let later : All (λ d. has d ws ≡ true) (next u) = rw (eq_of_== u w same) t in
            let (d, open_, member, below) = all-eq-false is_done _ (next u) later waits in
            Topological-Minimal ws d ts below
              (All-has (λ x. has x ids ≡ true) d (next u) (closed u) member) open_
      ]
    ]

    pub has_cycle-Minimal :
        (u : String) → has_cycle next ids ≡ false → has u ids ≡ true → is_done u ≡ false → Minimal
    unfolding has_cycle
    has_cycle-Minimal u acyclic k e = elim (Visit-cases (search next ids)) [
      | inl x ↦ absurd (search-ne-exhausted next ids closed x)
      | inr (inl x) ↦ absurd (cc (rw (x, has_cycle) at acyclic))
      | inr (inr (m, x)) ↦ cleared m x
    ]
      where
        cleared : (m : Marks) → search next ids ≡ clear m → Minimal
        cleared m x =
            let (ordered, all_visited) = search-Topological next ids m x in
            Topological-Minimal m.visited u ordered
              (All-has (λ d. has d m.visited ≡ true) u ids all_visited k) k e
