-- ===== src/Citations.antt =====
-- packages/core/src/citation-ledger.ts: sources, and the claims that cite them. A message pushed onto
-- `errors` is a constructor that carries what the message interpolates.
pub mod Coverage
use janus_core.Base.{
  String, Bool, not, Option, List, [], ◌∷◌, ◌++◌, map, number_eq, string_eq, length, is_empty, keep,
  has, is_blank, slice_to, when, each,
}
use janus_core.Base.Number.{Number, whole}

pub data CitationSourceType : Type 0 where
  file web tool database user : CitationSourceType

pub record CitationSource : Type 0 where
  pub id : String
  pub title : Option String
  pub uri : Option String
  pub source_type : CitationSourceType
  pub retrieved_at : Option String
  pub checksum : Option String

pub record CitationAnchor : Type 0 where
  pub source_id : String
  pub locator : Option String
  pub quote_hash : Option String

pub record SupportedClaim : Type 0 where
  pub claim : String
  pub citations : List CitationAnchor

pub record CitationLedger : Type 0 where
  pub sources : List CitationSource
  pub claims : List SupportedClaim

pub data CitationError : Type 0 where
  source_id_required empty_claim : CitationError
  duplicate_source uncited_claim unknown_source : String → CitationError

unfoldable pub check_sources : List String → List CitationSource → List CitationError
check_sources ids [] = []
check_sources ids (source ∷ sources) =
    when (is_blank source.id) source_id_required
    ++ (when (has source.id ids) (duplicate_source source.id)
        ++ check_sources (source.id ∷ ids) sources)

-- The body of the second loop.
unfoldable pub claim_errors : List String → SupportedClaim → List CitationError
claim_errors ids item =
    when (is_blank item.claim) empty_claim
    ++ (when (is_empty item.citations) (uncited_claim (slice_to 80 item.claim))
        ++ each (λ c. when (not (has c.source_id ids)) (unknown_source c.source_id)) item.citations)

unfoldable pub validate_citation_ledger : CitationLedger → List CitationError
unfolding check_sources claim_errors
validate_citation_ledger ledger =
    check_sources [] ledger.sources
    ++ each (claim_errors (map (λ s. s.id) ledger.sources)) ledger.claims

abbrev pub is_cited : SupportedClaim → Bool
is_cited item = not (is_empty item.citations)

abbrev pub share : List SupportedClaim → Number
share [] = whole 1
share (item ∷ items) = record {
  above = length (keep is_cited (item ∷ items));
  below = 0;
  parts = length items;
}

unfoldable pub citation_coverage : CitationLedger → Number
citation_coverage ledger = share ledger.claims
