-- ===== src/Delivery/Gate.antt =====
-- What lets an artifact through the gate of packages/core/src/delivery-gate.ts.
use janus_core.Base.{
  ℕ, suc, String, ◌≡◌, refl, sym, ap, ◌∙◌, ◌↔◌, inl, inr, true, false, not, ◌&&◌, some, List, [],
  ◌∷◌, ◌++◌, arith, Bool-cases, Option-cases, is_empty, all, any, keep, All, is_blank,
}
use mathlib.Core.Bool.{false≢true}
use janus_core.Delivery.{
  QualityDimension, DeliveryArtifact, QualityReviewer, QualityFinding, QualityReview, DeliveryGate,
  DeliveryGateResult, Outcome, done, failed, Reviewed, threw, found, find_reviewer, is_error,
  review_dimension, review_all, blocking, evaluate, assert_deliverable, missing_review, review_of,
  reviewed, dimension_eq, ◌>>=◌, gate_result,
}

-- A reviewer for the dimension is there, and it found no error.
abbrev pub Approves : DeliveryGate → DeliveryArtifact → QualityDimension → Type 0
Approves gate artifact d =
    (r : QualityReviewer) × (findings : List QualityFinding) × (find_reviewer d gate.reviewers
      ≡ some r)
    × (r.review artifact ≡ found findings)
    × (any is_error findings ≡ false)

-- A review says whether its findings hold an error.
abbrev IsHonest : QualityReview → Type 0
IsHonest r = r.passed ≡ not (any is_error r.findings)

done_inj {ℓ} : {A : Type ℓ} (a b : A) → done a ≡ done b → a ≡ b
done_inj a b e = cc

>>=-eq-done {ℓ κ} :
    {A : Type ℓ} {B : Type κ} (m : Outcome A) (f : A → Outcome B) {b : B}
    → (m >>= f) ≡ done b
    → (a : A) × (m ≡ done a) × (f a ≡ done b)
>>=-eq-done (done a) f h = (a, refl, h)
>>=-eq-done (failed e) f h = absurd (cc)

reviewed_lem :
    (r : QualityReviewer) (d : QualityDimension) (at : String) (res : Reviewed)
    (review : QualityReview)
    → reviewed r d at res ≡ done review
    → (fs : List QualityFinding) × (res ≡ found fs) × (review ≡ review_of r d fs at)
reviewed_lem r d at (threw m) review h = absurd (cc)
reviewed_lem r d at (found fs) review h = (fs, refl, sym (done_inj (review_of r d fs at) review h))

-- The reviewer of a dimension is one, and so are the findings of a review.
Approves-errors :
    (gate : DeliveryGate) (artifact : DeliveryArtifact) (d : QualityDimension) (r : QualityReviewer)
    (fs : List QualityFinding)
    → find_reviewer d gate.reviewers ≡ some r
    → r.review artifact ≡ found fs
    → Approves gate artifact d
    → any is_error fs ≡ false
Approves-errors gate artifact d r fs known said (r', gs, known', said', clean) =
    let same_r : r' ≡ r = cc in
    let same_fs : gs ≡ fs = cc (rw same_r at said') in rw (← same_fs) clean

review_dimension-Approves :
    (gate : DeliveryGate) (artifact : DeliveryArtifact) (k : ℕ) (d : QualityDimension)
    (review : QualityReview)
    → review_dimension gate artifact k d ≡ done review
    → ((review.passed ≡ true) ↔ Approves gate artifact d) × IsHonest review
unfolding review_dimension
review_dimension-Approves gate artifact k d review h =
    elim (Option-cases (find_reviewer d gate.reviewers)) [
      | inl missing ↦
          let it : missing_review d (gate.now k) ≡ review =
            done_inj (missing_review d (gate.now k)) review (rw (missing, review_dimension) at h) in
          (
            (
              λ e. absurd (false≢true (ap (λ x. x.passed) it ∙ e)),
              λ (r, fs, e, _, _). absurd (cc (sym missing ∙ e)),
            ),
            rw (← it),
          )
      | inr (r, known) ↦
          let (fs, said, it) =
            reviewed_lem r d (gate.now k) (r.review artifact) review
              (rw (known, review_dimension) at h) in
          rw it (
            (
              λ e. (r, fs, known, said, ground arith),
              λ a. rw (Approves-errors gate artifact d r fs known said a),
            ),
            refl,
          )
    ]

module _ (gate : DeliveryGate) (artifact : DeliveryArtifact) where
  review_all-Approves :
      (k : ℕ) (ds : List QualityDimension) (reviews : List QualityReview)
      → review_all gate artifact k ds ≡ done reviews
      → ((all (λ r. r.passed) reviews ≡ true) ↔ All (Approves gate artifact) ds)
        × All IsHonest reviews
  unfolding review_all
  review_all-Approves k [] reviews h = rw (← done_inj [] reviews h) ((λ e. tt, λ e. refl), tt)
  review_all-Approves k (d ∷ ds) reviews h =
      let (review, first, h') = >>=-eq-done (review_dimension gate artifact k d) _ h in
      let (rest, later, h'') = >>=-eq-done (review_all gate artifact (suc k) ds) _ h' in
      let (one, honest) = review_dimension-Approves gate artifact k d review first in
      let (more, honests) = review_all-Approves (suc k) ds rest later in
      rw (← done_inj (review ∷ rest) reviews h'') (
        (λ e. (one.0 (ground arith), more.0 (ground arith)), λ (a, as'). rw (one.1 a, more.1 as')),
        (honest, honests),
      )

  is_empty-keep : (fs : List QualityFinding) → is_empty (keep is_error fs) ≡ not (any is_error fs)
  is_empty-keep [] = refl
  is_empty-keep (f ∷ fs) = elim (Bool-cases (is_error f)) [
    | inl bad ↦ rw bad
    | inr fine ↦ rw fine (is_empty-keep fs)
  ]

  is_empty-append :
      (xs ys : List QualityFinding) → is_empty (xs ++ ys) ≡ (is_empty xs && is_empty ys)
  is_empty-append [] ys = refl
  is_empty-append (x ∷ xs) ys = refl

  blocking-honest :
      (reviews : List QualityReview)
      → All IsHonest reviews
      → is_empty (blocking reviews) ≡ all (λ r. r.passed) reviews
  blocking-honest [] h = refl
  blocking-honest (r ∷ rs) (h, hs) = rw (
    is_empty-append (keep is_error r.findings) (blocking rs),
    is_empty-keep r.findings,
    blocking-honest rs hs,
    h,
  )

  -- A result says that the artifact passed exactly when every required dimension has a reviewer
  -- that found no error in it, and exactly when the result lists no blocking finding.
  pub evaluate-passed :
      (result : DeliveryGateResult)
      → evaluate gate artifact ≡ done result
      → ((result.passed ≡ true) ↔ All (Approves gate artifact) gate.required)
        × (is_empty result.blocking_findings ≡ result.passed)
  unfolding evaluate
  evaluate-passed result h = elim (Bool-cases (is_blank artifact.id)) [
    | inl blank ↦ absurd (cc (rw (blank, evaluate) at h))
    | inr id ↦ elim (Bool-cases (is_blank artifact.content)) [
      | inl blank ↦ absurd (cc (rw (id, blank, evaluate) at h))
      | inr content ↦
          let (reviews, got, it) =
            >>=-eq-done (review_all gate artifact 0 gate.required)
              (λ reviews. done (gate_result artifact reviews)) (rw (id, content, evaluate) at h) in
          let (iff, honest) = review_all-Approves 0 gate.required reviews got in
          rw (← done_inj (gate_result artifact reviews) result it)
            (iff, blocking-honest reviews honest)
    ]
  ]

  -- `assertDeliverable` returns only for an artifact that every required reviewer approves.
  pub assert_deliverable-Approves :
      (result : DeliveryGateResult)
      → assert_deliverable gate artifact ≡ done result
      → All (Approves gate artifact) gate.required × (is_empty result.blocking_findings ≡ true)
  unfolding assert_deliverable
  assert_deliverable-Approves result h =
      let (r, evaluated, k) = >>=-eq-done (evaluate gate artifact) _ h in
      elim (Bool-cases r.passed) [
        | inr bad ↦ absurd (cc (rw bad at k))
        | inl good ↦
            let same : r ≡ result = done_inj r result (rw good at k) in
            let (iff, clean) = evaluate-passed r evaluated in
            (iff.0 good, rw (← same) (clean ∙ good))
      ]
