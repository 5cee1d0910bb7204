-- ===== src/Application/CommunityRanking/Examples.antt =====
-- Three documents of two platforms and two candidates, with scores in whole millionths, and the
-- theorems of the ranking on them.
use fpl_data_relay.Prelude.{ℕ, ◌≡◌, refl, arith, String, some, List, [], ◌∷◌, map, string_key}
use fpl_data_relay.Prelude.Dict.{HasUniqueKeys, get, put}
use fpl_data_relay.Prelude.Sorting.{sort_by}
use fpl_data_relay.Result.{Result, ok, err}
use fpl_data_relay.Domain.Time.{utc, seconds}
use fpl_data_relay.Domain.Community.Kinds.{SourceType, Actionability, TopicCategory, Text}
use fpl_data_relay.Domain.Community.Distinct.{distinct}
use fpl_data_relay.Domain.Community.Double.{Within, ◌≼◌}
use fpl_data_relay.Domain.Community.Micros.{micros, micros-IsRounded}
use fpl_data_relay.Domain.Community.Documents.{
  Engagement, x_engagement, youtube_engagement, SourceDocumentMetadata, engagement_score,
  x_weighted_score, youtube_weighted_score,
}
use fpl_data_relay.Domain.Community.Topics.{CandidateStory}
use fpl_data_relay.Domain.Community.Reports.{ScoredCandidate, validate_components}
use fpl_data_relay.Application.CommunityRanking.{
  Documents, engagement_percentiles, platform_values, score_candidate, find_evidence,
  actionability_factor, clamp, mean_engagement, rank,
}
use fpl_data_relay.Application.CommunityRanking.Percentiles.{engagement_percentiles_ordered}
use fpl_data_relay.Application.CommunityRanking.Score.{IsScored, score_candidate_bounded}

abbrev document : String → String → SourceType → ℕ → Engagement → SourceDocumentMetadata
document id source kind at_second engagement = record {
  document_id = id;
  source_key = source;
  source_type = kind;
  external_id = id;
  publisher = "p";
  title = "t";
  url = "https://e.x/";
  published_at = utc (seconds at_second);
  engagement = engagement;
}

abbrev post : String → ℕ → ℕ → SourceDocumentMetadata
post id at_second likes =
    document id "x1" SourceType.x at_second
      (x_engagement (record { likes = likes; replies = 0; reposts = 0; quotes = 0 }))

abbrev documents : Documents
documents =
    ("a", post "a" 110 5)
    ∷ ("b", post "b" 190 8)
    ∷ (
      "c",
      document "c" "y1" SourceType.youtube 150
          (youtube_engagement (record { views = 70; likes = 1; comments = 1 })),
    )
    ∷ []

abbrev story : String → List String → Actionability → CandidateStory
story headline ids actionability = record {
  headline = headline;
  summary = "s";
  category = TopicCategory.captaincy;
  actionability = actionability;
  evidence_document_ids = ids;
  entity_links = [];
}

abbrev weak : CandidateStory
weak = story "Weak" ("a" ∷ []) Actionability.low

abbrev strong : CandidateStory
strong = story "Strong" ("b" ∷ "c" ∷ "b" ∷ []) Actionability.high

abbrev ascii : Text
ascii = record { strip = λ s. s; lower = λ s. s; casefold = λ s. s }

abbrev unique : HasUniqueKeys documents
unfolding get
unique = (refl, (refl, (refl, tt)))

abbrev outcome : Result (List (ScoredCandidate ℕ)) → List (String × ℕ)
outcome (err e) = []
outcome (ok ss) = map (λ (s : ScoredCandidate ℕ). (s.candidate.headline, s.score)) ss

-- Two sources of five, two documents of ten, full engagement, and two recencies of 0.9 and 0.5.
ranked :
    outcome (rank ascii (weak ∷ strong ∷ []) documents (utc (seconds 100)) (utc (seconds 200)) 5)
    ≡ ("Strong", 58_500_000) ∷ ("Weak", 23_000_000) ∷ []
unfolding rank engagement_score x_weighted_score youtube_weighted_score get distinct find_evidence
    platform_values actionability_factor clamp mean_engagement validate_components sort_by put
ranked = refl

engagement_percentiles_ordered_example :
    (x : ℕ) × (y : ℕ) × (get "a" (engagement_percentiles documents) ≡ some x)
    × (get "b" (engagement_percentiles documents) ≡ some y)
    × Within x 1
    × Within y 1
    × (x ≼ y)
unfolding get engagement_score x_weighted_score
engagement_percentiles_ordered_example =
    engagement_percentiles_ordered documents unique micros-IsRounded (omega arith) "a" "b"
      (post "a" 110 5) (post "b" 190 8) 5 8 refl refl refl refl refl (omega arith)

score_candidate_bounded_example :
    (s : ScoredCandidate ℕ) × (score_candidate strong documents
        (engagement_percentiles documents)
        (utc (seconds 100))
        (utc (seconds 200))
      ≡ ok s)
    × IsScored strong s
unfolding distinct get
score_candidate_bounded_example =
    score_candidate_bounded micros-IsRounded documents strong (utc (seconds 100))
      (utc (seconds 200)) unique (omega arith) ((post "b" 190 8, refl), ((_, refl), tt))
      (omega arith) (omega arith) (omega arith)
