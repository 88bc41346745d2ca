-- ===== src/Delivery.antt =====
-- packages/core/src/delivery-gate.ts: the quality gate in front of a delivery. A reviewer is outside
-- code: a function from the artifact to its findings, or to the message that it threw. The k-th
-- reading of the clock is `now k`.
pub mod Gate
use janus_core.Base.{
  refl, ℕ, suc, String, ◌≡◌, ◌↔◌, Bool, true, false, not, Option, none, some, List, [], ◌∷◌, ◌++◌,
  map, arith, nat_eq, if◌then◌else◌, ◌==◌, string_eq, number_eq, all, any, keep, is_blank, Eq,
}
use Prim.Native.String
use mathlib.Core.Option.{Option-elim}

pub data QualityDimension : Type 0 where
  coherence structural visual architectural orthographic synthesis i18n style : QualityDimension

pub data FindingSeverity : Type 0 where
  info warning error : FindingSeverity

pub data ArtifactKind : Type 0 where
  text document code ui plan other : ArtifactKind

pub record DeliveryArtifact : Type 0 where
  pub id : String
  pub kind : ArtifactKind
  pub content : String
  pub metadata : List (String × Option String)

pub record QualityFinding : Type 0 where
  pub code : String
  pub message : String
  pub severity : FindingSeverity

pub record QualityReview : Type 0 where
  pub dimension : QualityDimension
  pub passed : Bool
  pub findings : List QualityFinding
  pub reviewer : String
  pub checked_at : String

-- What the promise of a call of `review` becomes.
pub data Reviewed : Type 0 where
  threw : String → Reviewed
  found : List QualityFinding → Reviewed

pub record QualityReviewer : Type 0 where
  pub dimension : QualityDimension
  pub name : String
  pub review : DeliveryArtifact → Reviewed

pub record DeliveryGateResult : Type 0 where
  pub passed : Bool
  pub artifact_id : String
  pub reviews : List QualityReview
  pub blocking_findings : List QualityFinding

abbrev pub default_dimensions : List QualityDimension
default_dimensions = coherence ∷ structural ∷ visual ∷ architectural ∷ orthographic ∷ synthesis ∷ []

abbrev pub founder_required_dimensions : List QualityDimension
founder_required_dimensions = default_dimensions ++ i18n ∷ style ∷ []

abbrev rank : QualityDimension → ℕ
rank coherence = 0
rank structural = 1
rank visual = 2
rank architectural = 3
rank orthographic = 4
rank synthesis = 5
rank i18n = 6
rank style = 7

abbrev same : QualityDimension → QualityDimension → Bool
same a b = nat_eq (rank a) (rank b)

pub same_iff : (a b : QualityDimension) → (same a b ≡ true) ↔ (a ≡ b)
same_iff a b = ground arith

instance abbrev pub dimension_eq : Eq QualityDimension
dimension_eq = record {
  same = same;
  same_self = λ d. (same_iff d d).1 refl;
  same_sound = λ d e. (same_iff d e).0;
}

pub record DeliveryGate : Type 0 where
  pub reviewers : List QualityReviewer
  pub required : List QualityDimension
  pub now : ℕ → String

pub data GateError : Type 0 where
  duplicate_reviewer : QualityDimension → GateError
  artifact_id_required artifact_content_required : GateError
  reviewer_threw : String → GateError
  rejected : String → List String → GateError

pub data Outcome {ℓ} (A : Type ℓ) : Type ℓ where
  done : A → Outcome A
  failed : GateError → Outcome A

infixl 5 ◌>>=◌
abbrev pub ◌>>=◌ {ℓ κ} : {A : Type ℓ} {B : Type κ} → Outcome A → (A → Outcome B) → Outcome B
done a >>= k = k a
failed e >>= k = failed e

-- The loop of the constructor.
add_reviewers : List QualityReviewer → List QualityReviewer → Outcome (List QualityReviewer)
add_reviewers known [] = done known
add_reviewers known (r ∷ rs) =
    let rest = add_reviewers (known ++ r ∷ []) rs in
    if any (λ k. r.dimension == k.dimension) known
    then failed (duplicate_reviewer r.dimension)
    else rest

pub create_gate :
    List QualityReviewer → Option (List QualityDimension) → (ℕ → String) → Outcome DeliveryGate
unfolding add_reviewers
create_gate reviewers required now = do
  known ← add_reviewers [] reviewers
  done (record {
    reviewers = known;
    required = Option-elim required default_dimensions (λ r. r);
    now = now;
  })

pub find_reviewer : QualityDimension → List QualityReviewer → Option QualityReviewer
find_reviewer d [] = none
find_reviewer d (r ∷ rs) = if d == r.dimension then some r else find_reviewer d rs

abbrev pub is_error : QualityFinding → Bool
is_error f = elim f.severity [ error ↦ true | _ ↦ false ]

abbrev pub dimension_name : QualityDimension → String
dimension_name coherence = "coherence"
dimension_name structural = "structural"
dimension_name visual = "visual"
dimension_name architectural = "architectural"
dimension_name orthographic = "orthographic"
dimension_name synthesis = "synthesis"
dimension_name i18n = "i18n"
dimension_name style = "style"

abbrev pub missing_finding : QualityDimension → QualityFinding
missing_finding d = record {
  code = "reviewer.missing";
  message = String.◌++◌ "No reviewer is configured for required dimension: " (dimension_name d);
  severity = error;
}

abbrev pub missing_review : QualityDimension → String → QualityReview
missing_review d at = record {
  dimension = d;
  passed = false;
  findings = missing_finding d ∷ [];
  reviewer = "missing";
  checked_at = at;
}

abbrev pub review_of :
    QualityReviewer → QualityDimension → List QualityFinding → String → QualityReview
review_of r d findings at = record {
  dimension = d;
  passed = not (any is_error findings);
  findings = findings;
  reviewer = r.name;
  checked_at = at;
}

abbrev reviewed : QualityReviewer → QualityDimension → String → Reviewed → Outcome QualityReview
reviewed r d at (threw message) = failed (reviewer_threw message)
reviewed r d at (found findings) = done (review_of r d findings at)

-- The body of the loop over the required dimensions.
pub review_dimension :
    DeliveryGate → DeliveryArtifact → ℕ → QualityDimension → Outcome QualityReview
unfolding find_reviewer
review_dimension gate artifact k d = elim (find_reviewer d gate.reviewers) [
  | none ↦ done (missing_review d (gate.now k))
  | some r ↦ reviewed r d (gate.now k) (r.review artifact)
]

pub review_all :
    DeliveryGate → DeliveryArtifact → ℕ → List QualityDimension → Outcome (List QualityReview)
review_all gate artifact k [] = done []
review_all gate artifact k (d ∷ ds) = do
  review ← review_dimension gate artifact k d
  reviews ← review_all gate artifact (suc k) ds
  done (review ∷ reviews)

abbrev pub blocking : List QualityReview → List QualityFinding
blocking [] = []
blocking (r ∷ rs) = keep is_error r.findings ++ blocking rs

abbrev pub gate_result : DeliveryArtifact → List QualityReview → DeliveryGateResult
gate_result artifact reviews = record {
  passed = all (λ r. r.passed) reviews;
  artifact_id = artifact.id;
  reviews = reviews;
  blocking_findings = blocking reviews;
}

unfoldable pub evaluate : DeliveryGate → DeliveryArtifact → Outcome DeliveryGateResult
unfolding review_all review_dimension find_reviewer
evaluate gate artifact =
    if is_blank artifact.id
    then failed artifact_id_required
    else if is_blank artifact.content
    then failed artifact_content_required
    else do reviews ← review_all gate artifact 0 gate.required; done (gate_result artifact reviews)

unfoldable pub assert_deliverable : DeliveryGate → DeliveryArtifact → Outcome DeliveryGateResult
unfolding evaluate
assert_deliverable gate artifact = do
  result ← evaluate gate artifact
  if result.passed
      then done result
      else failed (rejected artifact.id (map (λ f. f.code) result.blocking_findings))
