-- ===== src/Assistants/Surface/Resolved.antt =====
-- packages/core/src/assistant-control-plane.ts: what a surface resolves to.
use janus_core.Base.{
  String, ◌≡◌, refl, sym, ap, ◌∙◌, ◌↔◌, ◌⊎◌, inl, inr, Bool, true, false, not, Option, none, some,
  List, [], ◌∷◌, if◌then◌else◌, Bool-cases, Option-cases, number_eq, string_eq, ◌==◌, keep, All,
  All-map, has,
}
use mathlib.Core.Path.{subst}
use mathlib.Core.Option.{Option-elim}
use janus_core.Base.Number.{Number, less, not_less_trans, less_irrefl, less_asym}
use janus_core.Base.Members.{IsIn, IsIn-keep, keep-IsIn, IsIn-All}
use janus_core.Base.Once.{and_then, and_then-eq-inr}
use janus_core.Assistants.{
  AssistantProfileRevision, AssistantError, Platform, verify_assistant_profile_revision,
}
use janus_core.Assistants.Surface.{
  AssistantSurface, SurfaceInput, AssistantProfileTracking, tracks_current, tracks_pinned,
  ResolvedAssistantSurfaceConfig, number_equal, is_current, newest, find_pinned, pick,
  verify_assistant_surface, keep_verified, resolve_to, resolve_assistant_surface_config, config_of,
}

abbrev NoneNewer : AssistantProfileRevision → List AssistantProfileRevision → Type 0
NoneNewer p = All (λ q. less p.revision q.revision ≡ false)

newest-NoneNewer_empty :
    (q : AssistantProfileRevision) (qs : List AssistantProfileRevision)
    → newest qs ≡ none
    → NoneNewer q qs
unfolding newest
newest-NoneNewer_empty q [] h = tt
newest-NoneNewer_empty q (x ∷ xs) h = absurd (cc)

-- What `newest` finds is in the list, and nothing there is newer.
newest-NoneNewer :
    (ps : List AssistantProfileRevision) (p : AssistantProfileRevision)
    → newest ps ≡ some p
    → IsIn p ps × NoneNewer p ps
unfolding newest
newest-NoneNewer [] p h = absurd (cc)
newest-NoneNewer (q ∷ qs) p h = elim (Option-cases (newest qs)) [
  | inl none_ ↦
      let same : q ≡ p = cc (rw none_ at h) in
      subst (λ z. IsIn z (q ∷ qs) × NoneNewer z (q ∷ qs)) same
        (inl refl, (less_irrefl q.revision, newest-NoneNewer_empty q qs none_))
  | inr (r, found) ↦ elim (Bool-cases (less q.revision r.revision)) [
    | inl older ↦
        let same : r ≡ p = cc (rw (found, older) at h) in
        let (i, n) = newest-NoneNewer qs r found in
        subst (λ z. IsIn z (q ∷ qs) × NoneNewer z (q ∷ qs)) same
          (inr i, (less_asym q.revision r.revision older, n))
    | inr newer ↦
        let same : q ≡ p = cc (rw (found, newer) at h) in
        let (i, n) = newest-NoneNewer qs r found in
        subst (λ z. IsIn z (q ∷ qs) × NoneNewer z (q ∷ qs)) same
          (
            inl refl,
            (
              less_irrefl q.revision,
              All-map (λ s. less r.revision s.revision ≡ false)
                  (λ s. less q.revision s.revision ≡ false)
                  (λ s. not_less_trans q.revision r.revision s.revision newer) qs n,
            ),
          )
  ]
]

find_pinned-IsIn :
    (pinned : Option Number) (ps : List AssistantProfileRevision) (p : AssistantProfileRevision)
    → find_pinned pinned ps ≡ some p
    → IsIn p ps × (Option-elim pinned false (number_equal p.revision) ≡ true)
unfolding find_pinned
find_pinned-IsIn pinned [] p h = absurd (cc)
find_pinned-IsIn pinned (q ∷ qs) p h =
    elim (Bool-cases (Option-elim pinned false (number_equal q.revision))) [
      | inl yes_ ↦ let same : q ≡ p = cc (rw yes_ at h) in (inl (sym same), rw (← same) yes_)
      | inr no_ ↦ let (i, e) = find_pinned-IsIn pinned qs p (rw no_ at h) in (inr i, e)
    ]

abbrev holds : AssistantError ⊎ Bool → Bool
holds (inl e) = false
holds (inr ok) = ok

holds-eq-inr : (v : AssistantError ⊎ Bool) → holds v ≡ true → v ≡ inr true
holds-eq-inr (inl e) h = absurd (cc)
holds-eq-inr (inr ok) h = ap (λ b. inr b) h

kept_cons :
    {A : Type 0} (a : A) (v : AssistantError ⊎ Bool) (r : AssistantError ⊎ List A) {out : List A}
    → and_then v (λ ok. and_then r (λ rest. inr (if ok then a ∷ rest else rest))) ≡ inr out
    → (rest : List A) × (r ≡ inr rest) × ((if holds v then a ∷ rest else rest) ≡ out)
kept_cons a (inl e) r h = absurd (cc)
kept_cons a (inr ok) (inl e) h = absurd (cc)
kept_cons a (inr ok) (inr rest) h = (rest, refl, cc)

module _ (platform : Platform) where
  abbrev verifies : AssistantProfileRevision → Bool
  verifies p = holds (verify_assistant_profile_revision platform p)

  keep_verified-eq :
      (ps out : List AssistantProfileRevision)
      → keep_verified platform ps ≡ inr out
      → keep verifies ps ≡ out
  unfolding keep_verified
  keep_verified-eq [] out h = cc (h)
  keep_verified-eq (q ∷ qs) out h =
      let (rest, run, same) =
        kept_cons q (verify_assistant_profile_revision platform q) (keep_verified platform qs) h in
      rw (keep_verified-eq qs rest run) same

  -- The profile is one of the surface's own that verifies, it is the pinned revision or else the
  -- newest current one, and the surface's disabled capabilities are left out.
  pub Fits : AssistantSurface → List AssistantProfileRevision → AssistantProfileRevision → Type 0
  Fits surface profiles p =
      IsIn p profiles
      × ((p.profile_id == surface.contents.profile_id) ≡ true)
      × (verify_assistant_profile_revision platform p ≡ inr true)

  pub IsPicked :
      AssistantProfileTracking
      → AssistantSurface
      → List AssistantProfileRevision
      → AssistantProfileRevision
      → Type 0
  IsPicked tracks_pinned surface profiles p =
      Option-elim surface.contents.pinned_revision false (number_equal p.revision) ≡ true
  IsPicked tracks_current surface profiles p =
      (is_current p.status ≡ true)
      × ((q : AssistantProfileRevision)
          → Fits surface profiles q
          → is_current q.status ≡ true
          → less p.revision q.revision ≡ false)

  candidates_of : AssistantSurface → List AssistantProfileRevision → List AssistantProfileRevision
  candidates_of surface profiles =
      keep verifies (keep (λ p. p.profile_id == surface.contents.profile_id) profiles)

  candidate-Fits :
      (surface : AssistantSurface) (profiles : List AssistantProfileRevision)
      (p : AssistantProfileRevision)
      → IsIn p (candidates_of surface profiles) ↔ Fits surface profiles p
  unfolding candidates_of Fits
  candidate-Fits surface profiles p = (
    λ i.
        let (j, ok) = keep-IsIn verifies p _ i in
        let (k, same) = keep-IsIn (λ q. q.profile_id == surface.contents.profile_id) p profiles j in
        (k, same, holds-eq-inr _ ok),
    λ (i, same, ok).
        IsIn-keep verifies p _
          (IsIn-keep (λ q. q.profile_id == surface.contents.profile_id) p profiles i same)
          (ap holds ok),
  )

  pick-IsPicked :
      (tracking : AssistantProfileTracking) (surface : AssistantSurface)
      (profiles : List AssistantProfileRevision) (p : AssistantProfileRevision)
      → pick tracking surface.contents.pinned_revision (candidates_of surface profiles) ≡ some p
      → Fits surface profiles p × IsPicked tracking surface profiles p
  unfolding pick IsPicked
  pick-IsPicked tracks_pinned surface profiles p h =
      let (i, e) = find_pinned-IsIn surface.contents.pinned_revision _ p h in
      ((candidate-Fits surface profiles p).0 i, e)
  pick-IsPicked tracks_current surface profiles p h =
      let (i, n) = newest-NoneNewer _ p h in
      let (j, status) = keep-IsIn (λ q. is_current q.status) p _ i in
      (
        (candidate-Fits surface profiles p).0 j,
        (
          status,
          λ q fits c.
              IsIn-All (λ x. less p.revision x.revision ≡ false) q _ n
                (IsIn-keep (λ x. is_current x.status) q _
                  ((candidate-Fits surface profiles q).1 fits) c),
        ),
      )

if-eq-inr :
    {E A : Type 0} (b : Bool) (v : E ⊎ A) (e : E) {a : A}
    → (if b then v else inl e) ≡ inr a
    → (b ≡ true) × (v ≡ inr a)
if-eq-inr true v e h = (refl, h)
if-eq-inr false v e h = absurd (cc)

resolve_to-eq-inr :
    (config_digest : AssistantSurface → AssistantProfileRevision → List String → String)
    (surface : AssistantSurface) (o : Option AssistantProfileRevision)
    (config : ResolvedAssistantSurfaceConfig)
    → resolve_to config_digest surface o ≡ inr config
    → (p : AssistantProfileRevision) × (o ≡ some p)
      × (config_of config_digest surface p
            (keep (λ c. not (has c surface.contents.disabled_capabilities)) p.capabilities)
          ≡ config)
unfolding resolve_to
resolve_to-eq-inr config_digest surface none config h = absurd (cc)
resolve_to-eq-inr config_digest surface (some p) config h = (p, refl, cc (h))

pub IsResolution :
    (platform : Platform) (surface_digest : SurfaceInput → String)
    (config_digest : AssistantSurface → AssistantProfileRevision → List String → String)
    (surface : AssistantSurface)
    → List AssistantProfileRevision
    → ResolvedAssistantSurfaceConfig
    → Type 0
IsResolution platform surface_digest config_digest surface profiles config =
    (verify_assistant_surface platform surface_digest surface ≡ inr true)
    × Fits platform surface profiles config.profile
    × IsPicked platform surface.contents.tracking surface profiles config.profile
    × (config
        ≡ config_of config_digest surface config.profile (
            keep (λ c. not (has c surface.contents.disabled_capabilities))
              config.profile.capabilities))

-- A surface resolves only if it verifies, and only to a profile among those given that has its
-- profile id and verifies: the pinned revision, or the newest current one when nothing is pinned. The
-- effective capabilities are those of the profile without the disabled ones.
pub resolve-IsPicked :
    (platform : Platform) (surface_digest : SurfaceInput → String)
    (config_digest : AssistantSurface → AssistantProfileRevision → List String → String)
    (surface : AssistantSurface) (profiles : List AssistantProfileRevision)
    (config : ResolvedAssistantSurfaceConfig)
    → resolve_assistant_surface_config platform surface_digest config_digest surface profiles
      ≡ inr config
    → IsResolution platform surface_digest config_digest surface profiles config
unfolding resolve_assistant_surface_config candidates_of IsResolution
resolve-IsPicked platform surface_digest config_digest surface profiles config h =
    let (ok, judged, h1) =
      and_then-eq-inr (verify_assistant_surface platform surface_digest surface) _ h in
    let (good, h2) = if-eq-inr ok _ _ h1 in
    let (candidates, run, h3) = and_then-eq-inr (keep_verified platform _) _ h2 in
    let (p, picked, same) = resolve_to-eq-inr config_digest surface _ config h3 in
    let kept = keep_verified-eq platform _ candidates run in
    let (fits, chosen) =
      pick-IsPicked platform surface.contents.tracking surface profiles p
        (ap (pick surface.contents.tracking surface.contents.pinned_revision) kept ∙ picked) in
    subst (λ c. IsResolution platform surface_digest config_digest surface profiles c) same
      (judged ∙ ap (λ b. inr b) good, fits, chosen, refl)
