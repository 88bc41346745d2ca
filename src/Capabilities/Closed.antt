-- ===== src/Capabilities/Closed.antt =====
-- What `check` of packages/core/src/capability-registry.ts says after `setState`.
use janus_core.Base.{
  String, ◌≡◌, refl, sym, ap, ◌∙◌, ◌⊎◌, inl, inr, true, false, Option, none, some, List, [], ◌∷◌,
  map, arith, Bool-cases, ◌==◌, string_eq, number_eq, ==_refl, eq_of_==, has, has-cons, get, set,
  get-set_same, get-set_other,
}
use mathlib.Core.Option.{Option-elim}
use janus_core.Capabilities.{
  CapabilityState, CapabilitySnapshot, Entries, key, truthy, rewritten, targets, set_states,
  set_state, is_available, checked, check,
}

-- The entry at a key, if there is one, has the state.
abbrev HasState : CapabilityState → String → Entries → Type 0
HasState s k es = (c : CapabilitySnapshot) → get k es ≡ some c → c.state ≡ s

module _ (state : CapabilityState) (reason : Option String) where
  rewritten-HasState :
      (k target : String) (es : Entries) (found : Option CapabilitySnapshot)
      → get target es ≡ found
      → (k == target) ≡ true ⊎ HasState state k es
      → HasState state k (rewritten state reason target es found)
  rewritten-HasState k target es none e (inl same) c h =
      absurd (cc (rw (eq_of_== k target same) at h, e))
  rewritten-HasState k target es none e (inr old) c h = old c h
  rewritten-HasState k target es (some d) e old c h = elim (Bool-cases (k == target)) [
    | inl same ↦
        let new : CapabilitySnapshot = record d { state = state; reason = truthy reason } in
        let k' : get target (set target new es) ≡ some c = rw (eq_of_== k target same) at h in
        let eq : some new ≡ some c = sym (get-set_same target new es) ∙ k' in
        let eq' : new ≡ c = cc in ap (λ v. v.state) (sym eq')
    | inr other ↦ elim old [
      | inl same ↦ absurd (cc)
      | inr had ↦ had c (
          sym (get-set_other k target (record d { state = state; reason = truthy reason }) es other)
          ∙ h)
    ]
  ]

  set_states-HasState :
      (k : String) (ts : List String) (es : Entries)
      → (has k ts ≡ true) ⊎ HasState state k es
      → HasState state k (set_states state reason ts es)
  unfolding set_states
  set_states-HasState k [] es (inl h) = cc
  set_states-HasState k [] es (inr h) = h
  set_states-HasState k (t ∷ ts) es h = set_states-HasState k ts _ (elim (Bool-cases (k == t)) [
    | inl same ↦ inr (rewritten-HasState k t es (get t es) refl (inl same))
    | inr other ↦ elim h [
      | inl later ↦ inl (ground (arith, later))
      | inr old ↦ inr (rewritten-HasState k t es (get t es) refl (inr old))
    ]
  ])

has-map :
    (f : String → String) (a : String) (as' : List String)
    → has a as' ≡ true
    → has (f a) (map f as') ≡ true
has-map f a [] h = cc
has-map f a (b ∷ bs) h = elim (Bool-cases (a == b)) [
  | inl same ↦
      let hit : (f a == f b) ≡ true =
        ap (λ x. x == f b) (ap f (eq_of_== a b same)) ∙ ==_refl (f b) in
      ground (arith, hit)
  | inr other ↦ has-cons (f a) (f b) (map f bs) (has-map f a bs (ground (arith, h)))
]

checked-closed :
    (state : CapabilityState) (tool action : String) (found : Option CapabilitySnapshot)
    → is_available state ≡ false
    → ((c : CapabilitySnapshot) → found ≡ some c → c.state ≡ state)
    → (checked tool action found).ok ≡ false
checked-closed state tool action none h k = refl
checked-closed state tool action (some c) h k = rw (k c refl, h) refl

-- After `setState` with a list of actions and a state that is not `available`, none of these actions
-- passes `check`, whether it was registered or not.
pub set_state-closes :
    (tool : String) (state : CapabilityState) (reason : Option String) (actions : List String)
    (action : String) (es : Entries)
    → is_available state ≡ false
    → has action actions ≡ true
    → (check tool action (set_state tool state reason (some actions) es)).ok ≡ false
unfolding check set_state targets Option-elim
set_state-closes tool state reason [] action es h k = absurd (cc)
set_state-closes tool state reason (a ∷ as') action es h k = checked-closed state tool action _ h (
    set_states-HasState state reason (key tool action) (map (key tool) (a ∷ as')) es
      (inl (has-map (key tool) action (a ∷ as') k)))
