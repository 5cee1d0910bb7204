-- ===== src/Application/CommunityRanking.antt =====
-- application/community_ranking.py: the deterministic ranking of candidate stories. A document that
-- the sort key looks up has been found by the scoring before.
pub mod Bounds
pub mod Shares
pub mod Percentiles
pub mod Score
pub mod Ranked
mod Examples
use fpl_data_relay.Prelude.{
  ℕ, min, ◌*◌, String, Bool, true, false, Option, none, some, List, [], ◌∷◌, length, count, take,
  ltb, leb, ◌==◌, if◌then◌else◌, string_key, nat_key,
}
use fpl_data_relay.Prelude.Dict.{Dict, get, put}
use fpl_data_relay.Prelude.Collect.{collect}
use fpl_data_relay.Prelude.Sorting.{sort_by, by_key, by_key_desc, by_nothing}
use fpl_data_relay.Result.{Result, ok, err, ◌>>=◌, ◌>>◌, raise_if, value_error, zero_division_error}
use fpl_data_relay.Domain.Time.{Datetime, not_after, later_of}
use fpl_data_relay.Domain.Community.Kinds.{Actionability, SourceType, same_type, Text}
use fpl_data_relay.Domain.Community.Distinct.{distinct}
use fpl_data_relay.Domain.Community.Double.{Double, equal, less}
use fpl_data_relay.Domain.Community.Documents.{SourceDocumentMetadata, engagement_score}
use fpl_data_relay.Domain.Community.Topics.{CandidateStory}
use fpl_data_relay.Domain.Community.Reports.{
  MomentumComponents, ScoredCandidate, validate_components, component_list,
}

abbrev pub Documents : Type 0
Documents = Dict String SourceDocumentMetadata

abbrev pub with_value : Bool → Option ℕ → List ℕ → List ℕ
with_value on_platform none values = values
with_value true (some n) values = n ∷ values
with_value false (some n) values = values

-- `platform_values[source_type]`
unfoldable pub platform_values : SourceType → Documents → List ℕ
platform_values p [] = []
platform_values p ((k, m) ∷ ms) =
    with_value (same_type m.source_type p) (engagement_score m) (platform_values p ms)

module _ {W : Type 0} ⦃d : Double W⦄ where
  -- The share of the platform's values that are not above the score.
  unfoldable pub percentile : List ℕ → ℕ → W
  percentile values score =
      d.over (d.of_int (count (λ value. leb value score) values)) (length values)

  abbrev pub with_percentile : String → List ℕ → Option ℕ → Dict String W → Dict String W
  with_percentile k values none out = out
  with_percentile k values (some n) out = put k (percentile values n) out

  unfoldable pub percentiles_of : Documents → Documents → Dict String W → Dict String W
  unfolding percentile
  percentiles_of documents [] out = out
  percentiles_of documents ((k, m) ∷ ms) out =
      percentiles_of documents ms
        (with_percentile k (platform_values m.source_type documents) (engagement_score m) out)

  unfoldable pub engagement_percentiles : Documents → Dict String W
  unfolding percentiles_of
  engagement_percentiles documents = percentiles_of documents documents []

abbrev pub or_unknown : Option SourceDocumentMetadata → Result SourceDocumentMetadata
or_unknown none = err (value_error "Candidate cites unknown document.")
or_unknown (some m) = ok m

-- `[documents[document_id] for document_id in evidence_ids]`
unfoldable pub find_evidence : Documents → List String → Result (List SourceDocumentMetadata)
find_evidence documents [] = ok []
find_evidence documents (k ∷ ks) = do
  m ← or_unknown (get k documents)
  rest ← find_evidence documents ks
  ok (m ∷ rest)

abbrev pub newest : SourceDocumentMetadata → List SourceDocumentMetadata → Datetime
newest m [] = m.published_at
newest m (n ∷ ns) = later_of m.published_at (newest n ns)

abbrev pub source_keys : List SourceDocumentMetadata → List String
source_keys [] = []
source_keys (m ∷ ms) = m.source_key ∷ source_keys ms

module _ {W : Type 0} ⦃d : Double W⦄ where
  -- `ACTIONABILITY_FACTOR`
  unfoldable pub actionability_factor : Actionability → W
  actionability_factor Actionability.low = d.literal 25 2
  actionability_factor Actionability.medium = d.literal 60 2
  actionability_factor Actionability.high = d.of_int 1

  -- `max(0.0, min(1.0, x))`
  unfoldable pub clamp : W → W
  clamp x =
      let low = (if less x (d.of_int 1) then x else d.of_int 1) in
      if less (d.of_int 0) low then low else d.of_int 0

  abbrev pub recencies : Datetime → W → List SourceDocumentMetadata → List W
  recencies window_start window_seconds [] = []
  recencies window_start window_seconds (m ∷ ms) =
      clamp (d.divide (d.seconds_between m.published_at window_start) window_seconds)
      ∷ recencies window_start window_seconds ms

  abbrev pub measured : Dict String W → List SourceDocumentMetadata → List W
  measured percentiles = collect λ m. get m.document_id percentiles

  -- `0.0 if not measured else 20 * sum(measured) / len(measured)`
  unfoldable pub mean_engagement : List W → W
  mean_engagement [] = d.of_int 0
  mean_engagement (x ∷ xs) = d.over (d.times 20 (d.sum (x ∷ xs))) (length (x ∷ xs))

  abbrev pub components_of :
      CandidateStory
      → Dict String W
      → Datetime
      → W
      → List SourceDocumentMetadata
      → MomentumComponents W
  components_of candidate percentiles window_start window_seconds evidence = record {
    source_breadth =
        d.round4 (d.over (d.of_int (35 * min (length (distinct (source_keys evidence))) 5)) 5);
    evidence_volume = d.round4 (d.over (d.of_int (20 * min (length evidence) 10)) 10);
    engagement = d.round4 (mean_engagement (measured percentiles evidence));
    recency = d.round4 (
        d.over (d.times 15 (d.sum (recencies window_start window_seconds evidence)))
          (length evidence));
    actionability = d.round4 (d.times 10 (actionability_factor candidate.actionability));
  }

  unfoldable pub score_evidence :
      CandidateStory
      → Dict String W
      → Datetime
      → Datetime
      → List SourceDocumentMetadata
      → Result (ScoredCandidate W)
  score_evidence candidate percentiles window_start window_end [] =
      err (value_error "A candidate requires at least one evidence document.")
  score_evidence candidate percentiles window_start window_end (m ∷ ms) = do
    let window_seconds = d.seconds_between window_end window_start
    raise_if (equal window_seconds (d.of_int 0)) (zero_division_error "division by zero")
    components ←
        validate_components
          (components_of candidate percentiles window_start window_seconds (m ∷ ms))
    ok record {
      candidate = candidate;
      score = d.round4 (d.sum (component_list components));
      components = components;
      newest_evidence_at = newest m ms;
    }

  unfoldable pub score_candidate :
      CandidateStory → Documents → Dict String W → Datetime → Datetime → Result (ScoredCandidate W)
  unfolding score_evidence
  score_candidate candidate documents percentiles window_start window_end = do
    evidence ← find_evidence documents (distinct candidate.evidence_document_ids)
    score_evidence candidate percentiles window_start window_end evidence

  unfoldable pub score_all :
      List CandidateStory
      → Documents
      → Dict String W
      → Datetime
      → Datetime
      → Result (List (ScoredCandidate W))
  unfolding score_candidate
  score_all [] documents percentiles window_start window_end = ok []
  score_all (c ∷ cs) documents percentiles window_start window_end = do
    scored ← score_candidate c documents percentiles window_start window_end
    rest ← score_all cs documents percentiles window_start window_end
    ok (scored ∷ rest)

  -- The parts of the sort key.
  abbrev pub breadth : Documents → ScoredCandidate W → ℕ
  breadth documents s =
      length
        (distinct (source_keys (collect (λ k. get k documents) s.candidate.evidence_document_ids)))

  abbrev pub volume : ScoredCandidate W → ℕ
  volume s = length (distinct s.candidate.evidence_document_ids)

  abbrev pub headline_key : Text → ScoredCandidate W → String
  headline_key t s = t.strip (t.casefold s.candidate.headline)

  abbrev pub ranks_before : Text → Documents → ScoredCandidate W → ScoredCandidate W → Bool
  ranks_before t documents =
      by_key_desc ⦃key = d.order⦄ (λ s. s.score)
        (by_key_desc (breadth documents) (
          by_key_desc volume (
            by_key_desc ⦃key = d.order⦄ (λ s. d.timestamp s.newest_evidence_at)
              (by_key (headline_key t) by_nothing))))

  unfoldable pub rank :
      Text
      → List CandidateStory
      → Documents
      → Datetime
      → Datetime
      → ℕ
      → Result (List (ScoredCandidate W))
  unfolding score_all engagement_percentiles
  rank t candidates documents window_start window_end limit = do
    raise_if (not_after window_end window_start)
        (value_error "Ranking window_end must be after window_start.")
    raise_if (ltb limit 1) (value_error "Ranking limit must be positive.")
    scored ←
        score_all candidates documents (engagement_percentiles documents) window_start window_end
    ok (take limit (sort_by (ranks_before t documents) scored))
