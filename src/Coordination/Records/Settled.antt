-- ===== src/Coordination/Records/Settled.antt =====
-- packages/core/src/operator-coordination.ts: a handoff made again from one that was made.
use janus_core.Base.{
  ℕ, String, ◌≡◌, refl, ◌⊎◌, inl, inr, Bool, true, false, Option, none, some, List, [], ◌∷◌,
  Bool-cases, is_nil, trim, trim-trim, clean_list-clean_list,
}
use janus_core.Base.Once.{and_then}
use janus_core.Coordination.{permission_eq}
use janus_core.Coordination.Records.{
  RecordError, guards, handoff_checks, HandoffContents, normalized, contents_of, sealed, chosen_id,
  create_coordination_handoff,
}

and_then-guards :
    {A : Type 0} (cs : List (Bool × RecordError)) (a : A) (k : A → RecordError ⊎ A)
    → k a ≡ guards cs a
    → and_then (guards cs a) k ≡ guards cs a
and_then-guards [] a k h = h
and_then-guards ((true, e) ∷ cs) a k h = refl
and_then-guards ((false, e) ∷ cs) a k h = and_then-guards cs a k h

module _ (parse_date : String → Option ℕ) where
  chosen_id_again :
      (fresh fresh' : String) (id : Option String)
      → trim fresh ≡ fresh
      → is_nil fresh ≡ false
      → chosen_id fresh' (some (chosen_id fresh id)) ≡ chosen_id fresh id
  chosen_id_again fresh fresh' none e set_ = rw (e, set_) refl
  chosen_id_again fresh fresh' (some id) e set_ = elim (Bool-cases (is_nil (trim id))) [
    | inl nil ↦ rw nil (rw (e, set_) refl)
    | inr full ↦ rw full (rw (trim-trim id) (rw full refl))
  ]

  normalized-normalized : (c : HandoffContents) → normalized (normalized c) ≡ normalized c
  unfolding normalized
  normalized-normalized c =
      rw
        (
          trim-trim c.executive_summary,
          clean_list-clean_list c.conclusions,
          clean_list-clean_list c.completed,
          clean_list-clean_list c.pending,
          clean_list-clean_list c.blockers,
          clean_list-clean_list c.next_actions,
          clean_list-clean_list c.decisions,
          clean_list-clean_list c.evidence_refs,
        )
        refl

  handoff_checks_again :
      (c : HandoffContents) → handoff_checks parse_date (normalized c) ≡ handoff_checks parse_date c
  unfolding normalized handoff_checks
  handoff_checks_again c = rw (trim-trim c.executive_summary) refl

  remade :
      (digest : HandoffContents → String) (fresh fresh' : String) (id : Option String)
      (input : HandoffContents)
      → trim fresh ≡ fresh
      → is_nil fresh ≡ false
      → guards (handoff_checks parse_date (normalized input)) (
          sealed
            (chosen_id fresh' (some (chosen_id fresh id)))
            (digest (normalized (normalized input)))
            (normalized (normalized input)))
        ≡ guards
            (handoff_checks parse_date input)
            (sealed (chosen_id fresh id) (digest (normalized input)) (normalized input))
  remade digest fresh fresh' id input e set_ =
      rw
        (
          handoff_checks_again input,
          normalized-normalized input,
          chosen_id_again fresh fresh' id e set_,
        )
        refl

  -- A handoff made again from the contents of a made one, under its id, is the same handoff with the
  -- same id and checksum, whatever id the second call draws, when the id that the first call draws is
  -- not empty and has no white space at its ends.
  pub create_coordination_handoff_again :
      (digest : HandoffContents → String) (fresh fresh' : String) (id : Option String)
      (input : HandoffContents)
      → trim fresh ≡ fresh
      → is_nil fresh ≡ false
      → and_then
          (create_coordination_handoff parse_date digest fresh id input)
          (λ h. create_coordination_handoff parse_date digest fresh' (some h.id) (contents_of h))
        ≡ create_coordination_handoff parse_date digest fresh id input
  unfolding create_coordination_handoff
  create_coordination_handoff_again digest fresh fresh' id input e set_ =
      and_then-guards (handoff_checks parse_date input) _ _
        (remade digest fresh fresh' id input e set_)
