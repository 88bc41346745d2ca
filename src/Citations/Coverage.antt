-- ===== src/Citations/Coverage.antt =====
-- The validator of packages/core/src/citation-ledger.ts, against the coverage.
use janus_core.Base.{
  String, ◌≡◌, refl, true, false, List, [], ◌∷◌, map, arith, number_eq, string_eq, length, is_empty,
  keep, All, append-eq-nil, has, is_blank, slice_to, when, when-eq-nil, each, each-nil_iff,
}
use janus_core.Base.Number.{whole, less}
use janus_core.Citations.{
  SupportedClaim, CitationLedger, check_sources, claim_errors, validate_citation_ledger, is_cited,
  share, citation_coverage, empty_claim, uncited_claim,
}

-- A claim with a citation, whose citations are all of sources in the ledger.
pub record IsSupported (ids : List String) (item : SupportedClaim) : Type 0 where
  pub cited : is_cited item ≡ true
  pub known : All (λ c. has c.source_id ids ≡ true) item.citations

claim_errors-IsSupported :
    (ids : List String) (item : SupportedClaim) → claim_errors ids item ≡ [] → IsSupported ids item
unfolding claim_errors
claim_errors-IsSupported ids item h =
    let (_, rest) = (append-eq-nil (when (is_blank item.claim) empty_claim) _).0 h in
    let (a, b) =
      (append-eq-nil (when (is_empty item.citations) (uncited_claim (slice_to 80 item.claim))) _).0
        rest in
    record {
      cited = ground (
        arith,
        (when-eq-nil (is_empty item.citations) (uncited_claim (slice_to 80 item.claim))).0 a,
      );
      known =
          (each-nil_iff (λ c. has c.source_id ids ≡ true) _
              (λ c. (λ k. ground arith, λ k. ground arith)) item.citations).0
            b;
    }

claims-IsSupported :
    (ids : List String) (items : List SupportedClaim)
    → each (claim_errors ids) items ≡ []
    → All (IsSupported ids) items
claims-IsSupported ids [] h = tt
claims-IsSupported ids (item ∷ items) h =
    let (a, b) = (append-eq-nil (claim_errors ids item) _).0 h in
    (claim_errors-IsSupported ids item a, claims-IsSupported ids items b)

length-cited :
    (ids : List String) (items : List SupportedClaim)
    → All (IsSupported ids) items
    → length (keep is_cited items) ≡ length items
length-cited ids [] h = refl
length-cited ids (item ∷ items) (h, hs) =
    let k = h.cited in rw k (omega (arith, length-cited ids items hs))

share-whole :
    (ids : List String) (items : List SupportedClaim)
    → All (IsSupported ids) items
    → less (share items) (whole 1) ≡ false
share-whole ids [] h = refl
share-whole ids (item ∷ items) h = rw (length-cited ids (item ∷ items) h) (ground arith)

-- In a ledger that the validator accepts every claim has a citation, every citation is of a source
-- of the ledger, and the coverage is not below one.
pub validate_citation_ledger-IsSupported :
    (ledger : CitationLedger)
    → validate_citation_ledger ledger ≡ []
    → All (IsSupported (map (λ s. s.id) ledger.sources)) ledger.claims
      × (less (citation_coverage ledger) (whole 1) ≡ false)
unfolding validate_citation_ledger citation_coverage
validate_citation_ledger-IsSupported ledger h =
    let ids = map (λ s. s.id) ledger.sources in
    let (_, b) = (append-eq-nil (check_sources [] ledger.sources) _).0 h in
    let supported = claims-IsSupported ids ledger.claims b in
    (supported, share-whole ids ledger.claims supported)
