-- ===== src/Application/CommunityRanking/Score.antt =====
-- score_candidate of application/community_ranking.py: the score of a candidate whose documents are
-- known, within the bounds of each of its components.
use mathlib.Core.Path.{subst}
use fpl_data_relay.Prelude.{
  ℕ, suc, ◌*◌, ◌≤◌, ◌<◌, ◌≡◌, refl, ap, arith, String, true, false, some, List, [], ◌∷◌, length,
  All, inl, inr, string_key, Option-cases, min,
}
use fpl_data_relay.Prelude.Dict.{Dict, get, HasUniqueKeys}
use fpl_data_relay.Result.{ok}
use fpl_data_relay.Domain.Time.{Datetime}
use fpl_data_relay.Domain.Community.Kinds.{Actionability}
use fpl_data_relay.Domain.Community.Distinct.{distinct, length-distinct}
use fpl_data_relay.Domain.Community.Double.{Double, IsRounded, Within, equal, exact_limit}
use fpl_data_relay.Domain.Community.Documents.{SourceDocumentMetadata}
use fpl_data_relay.Domain.Community.Topics.{CandidateStory}
use fpl_data_relay.Domain.Community.Reports.{
  MomentumComponents, ScoredCandidate, component_list, in_range, validate_components,
}
use fpl_data_relay.Application.CommunityRanking.{
  Documents, find_evidence, source_keys, actionability_factor, clamp, recencies, measured,
  mean_engagement, components_of, score_evidence, score_candidate, engagement_percentiles, newest,
}
use fpl_data_relay.Application.CommunityRanking.Bounds.{
  int_Within, clamp-Within, round4-Within, times-Within, over-Within, mean-Within,
}
use fpl_data_relay.Application.CommunityRanking.Percentiles.{engagement_percentiles-Within}

abbrev pub IsKnown : Documents → String → Type 0
IsKnown documents k = (m : SourceDocumentMetadata) × (get k documents ≡ some m)

pub find_evidence-IsKnown :
    (documents : Documents) (ks : List String)
    → All (IsKnown documents) ks
    → (ms : List SourceDocumentMetadata) × (find_evidence documents ks ≡ ok ms)
      × (length ms ≡ length ks)
unfolding find_evidence
find_evidence-IsKnown documents [] h = ([], refl, refl)
find_evidence-IsKnown documents (k ∷ ks) ((m, found), h) =
    let (ms, rest, size) = find_evidence-IsKnown documents ks h in
    (m ∷ ms, rw (found, rest) refl, ap suc size)

pub record IsBounded {W : Type 0} ⦃d : Double W⦄ (c : MomentumComponents W) : Type 0 where
  pub source_breadth : Within c.source_breadth 35
  pub evidence_volume : Within c.evidence_volume 20
  pub engagement : Within c.engagement 20
  pub recency : Within c.recency 15
  pub actionability : Within c.actionability 10

module _ {W : Type 0} ⦃d : Double W⦄ where
  in_range-Within : (x : W) (top : ℕ) → Within x top → in_range top x ≡ true
  in_range-Within x top h = ground arith

  -- What a scored candidate is.
  abbrev pub IsScored : CandidateStory → ScoredCandidate W → Type 0
  IsScored candidate s =
      (s.candidate ≡ candidate)
      × IsBounded s.components
      × (s.score ≡ d.round4 (d.sum (component_list s.components)))
      × Within s.score 100

  pub validate-IsBounded : (c : MomentumComponents W) → IsBounded c → validate_components c ≡ ok c
  unfolding validate_components
  validate-IsBounded c b =
      rw
        (
          in_range-Within c.source_breadth 35 b.source_breadth,
          in_range-Within c.evidence_volume 20 b.evidence_volume,
          in_range-Within c.engagement 20 b.engagement,
          in_range-Within c.recency 15 b.recency,
          in_range-Within c.actionability 10 b.actionability,
        )
        refl

module _ {W : Type 0} ⦃d : Double W⦄ (laws : IsRounded W) where
  open laws use {literal_le, sum_bounds, seconds_apart}

  factor-Within : (a : Actionability) → Within (actionability_factor {W = W} a) 1
  unfolding actionability_factor
  factor-Within Actionability.low = literal_le 25 2 (omega arith)
  factor-Within Actionability.medium = literal_le 60 2 (omega arith)
  factor-Within Actionability.high = int_Within laws 1 1 (omega arith) (omega arith)

  mean_engagement-Within :
      (xs : List W)
      → All (λ y. Within y 1) xs
      → 20 * length xs ≤ exact_limit
      → Within (mean_engagement xs) 20
  unfolding mean_engagement
  mean_engagement-Within [] h small = int_Within laws 0 20 (omega arith) (omega arith)
  mean_engagement-Within (x ∷ xs) h small = mean-Within laws 20 x xs h (omega arith) small

  recencies-Within :
      (window_start : Datetime) (window_seconds : W) (ms : List SourceDocumentMetadata)
      → All (λ y. Within y 1) (recencies window_start window_seconds ms)
  recencies-Within window_start window_seconds [] = tt
  recencies-Within window_start window_seconds (m ∷ ms) = (
    clamp-Within laws (d.divide (d.seconds_between m.published_at window_start) window_seconds),
    recencies-Within window_start window_seconds ms,
  )

  length-recencies :
      (window_start : Datetime) (window_seconds : W) (ms : List SourceDocumentMetadata)
      → length (recencies window_start window_seconds ms) ≡ length ms
  length-recencies window_start window_seconds [] = refl
  length-recencies window_start window_seconds (m ∷ ms) =
      ap suc (length-recencies window_start window_seconds ms)

  -- The sum of bounded components.
  score-Within : (c : MomentumComponents W) → IsBounded c → Within (d.sum (component_list c)) 100
  score-Within c b =
      sum_bounds (component_list c) (35 ∷ 20 ∷ 20 ∷ 15 ∷ 10 ∷ [])
        (b.source_breadth, (b.evidence_volume, (b.engagement, (b.recency, (b.actionability, tt)))))
        (omega arith)

  recency-Within :
      (window_start : Datetime) (window_seconds : W) (m : SourceDocumentMetadata)
      (ms : List SourceDocumentMetadata)
      → 20 * length (m ∷ ms) ≤ exact_limit
      → Within
          (d.over
            (d.times 15 (d.sum (recencies window_start window_seconds (m ∷ ms))))
            (length (m ∷ ms)))
          15
  recency-Within window_start window_seconds m ms small =
      let size = length-recencies window_start window_seconds (m ∷ ms) in
      let ages : List W = recencies window_start window_seconds (m ∷ ms) in
      subst (λ n. Within (d.over (d.times 15 (d.sum ages)) n) 15) size
        (mean-Within laws 15
          (clamp (d.divide (d.seconds_between m.published_at window_start) window_seconds))
          (recencies window_start window_seconds ms)
          (recencies-Within window_start window_seconds (m ∷ ms)) (omega arith)
          (omega (arith, size)))

  module _ (percentiles : Dict String W)
      (shares : (k : String) (x : W) → get k percentiles ≡ some x → Within x 1) where
    measured-Within :
        (ms : List SourceDocumentMetadata) → All (λ y. Within y 1) (measured percentiles ms)
    measured-Within [] = tt
    measured-Within (m ∷ ms) = elim (Option-cases (get m.document_id percentiles)) [
      | inl e ↦ rw e (measured-Within ms)
      | inr (x, e) ↦ rw e (shares m.document_id x e, measured-Within ms)
    ]

    length-measured :
        (ms : List SourceDocumentMetadata) → length (measured percentiles ms) ≤ length ms
    length-measured [] = omega arith
    length-measured (m ∷ ms) = elim (Option-cases (get m.document_id percentiles)) [
      | inl e ↦ rw e (omega (arith, length-measured ms))
      | inr (x, e) ↦ rw e (omega (arith, length-measured ms))
    ]

    components_of-IsBounded :
        (candidate : CandidateStory) (window_start : Datetime) (window_seconds : W)
        (m : SourceDocumentMetadata) (ms : List SourceDocumentMetadata)
        → 20 * length (m ∷ ms) ≤ exact_limit
        → IsBounded (components_of candidate percentiles window_start window_seconds (m ∷ ms))
    components_of-IsBounded candidate window_start window_seconds m ms small =
        let keys : ℕ = length (distinct (source_keys (m ∷ ms))) in
        let volume : ℕ = length (m ∷ ms) in
        let ages : List W = recencies window_start window_seconds (m ∷ ms) in
        let spread = int_Within laws (35 * min keys 5) 175 (omega arith) (omega arith) in
        let many = int_Within laws (20 * min volume 10) 200 (omega arith) (omega arith) in
        record {
          source_breadth =
              round4-Within laws _ 35 (omega arith)
                (over-Within laws 35 5 _ (omega arith) (omega arith) spread);
          evidence_volume =
              round4-Within laws _ 20 (omega arith)
                (over-Within laws 20 10 _ (omega arith) (omega arith) many);
          engagement = round4-Within laws _ 20 (omega arith) (
              mean_engagement-Within (measured percentiles (m ∷ ms)) (measured-Within (m ∷ ms))
                (omega (arith, length-measured (m ∷ ms))));
          recency =
              round4-Within laws _ 15 (omega arith)
                (recency-Within window_start window_seconds m ms small);
          actionability =
              round4-Within laws _ 10 (omega arith)
                (times-Within laws 10 1 _ (omega arith) (factor-Within candidate.actionability));
        }

  score_evidence-IsScored :
      (percentiles : Dict String W) (candidate : CandidateStory)
      (window_start window_end : Datetime) (evidence : List SourceDocumentMetadata)
      → ((k : String) (x : W) → get k percentiles ≡ some x → Within x 1)
      → equal (d.seconds_between window_end window_start) (d.of_int 0) ≡ false
      → 1 ≤ length evidence
      → 20 * length evidence ≤ exact_limit
      → (s : ScoredCandidate W) × (score_evidence candidate percentiles window_start window_end
            evidence
          ≡ ok s)
        × IsScored candidate s
  unfolding score_evidence
  score_evidence-IsScored percentiles candidate window_start window_end [] shares wide some_evidence
        small =
      absurd (omega arith)
  score_evidence-IsScored percentiles candidate window_start window_end (m ∷ ms) shares wide
        some_evidence small =
      let c : MomentumComponents W =
        components_of candidate percentiles window_start (d.seconds_between window_end window_start)
          (m ∷ ms) in
      let b =
        components_of-IsBounded percentiles shares candidate window_start
          (d.seconds_between window_end window_start) m ms small in
      let s : ScoredCandidate W = record {
        candidate = candidate;
        score = d.round4 (d.sum (component_list c));
        components = c;
        newest_evidence_at = newest m ms;
      } in
      (
        s,
        rw (wide, validate-IsBounded c b) refl,
        (
          refl,
          b,
          refl,
          round4-Within laws (d.sum (component_list c)) 100 (omega arith) (score-Within c b),
        ),
      )

  one_distinct : (ks : List String) → 1 ≤ length ks → 1 ≤ length (distinct ks)
  unfolding distinct
  one_distinct [] h = h
  one_distinct (k ∷ ks) h = omega arith

  -- A candidate that cites documents, each of them in the collection, is scored where the window is
  -- not empty: scoring returns, each component lies between 0 and its maximum, and the score is
  -- their rounded sum and lies between 0 and 100. The documents have an id each and are at most
  -- 2 ^ 25, and the citations a twentieth of that.
  pub score_candidate_bounded :
      (documents : Documents) (candidate : CandidateStory) (window_start window_end : Datetime)
      → HasUniqueKeys documents
      → length documents ≤ exact_limit
      → All (IsKnown documents) (distinct candidate.evidence_document_ids)
      → 1 ≤ length candidate.evidence_document_ids
      → 20 * length candidate.evidence_document_ids ≤ exact_limit
      → window_start.moment < window_end.moment
      → (s : ScoredCandidate W) × (score_candidate candidate documents
            (engagement_percentiles documents)
            window_start
            window_end
          ≡ ok s)
        × IsScored candidate s
  unfolding score_candidate
  score_candidate_bounded documents candidate window_start window_end unique few known cited small
        ordered =
      let ids : List String = candidate.evidence_document_ids in
      let (evidence, found, size) = find_evidence-IsKnown documents (distinct ids) known in
      let (s, scored, properties) =
        score_evidence-IsScored (engagement_percentiles documents) candidate window_start window_end
          evidence (λ k x. engagement_percentiles-Within documents unique laws few k)
          (seconds_apart window_start window_end ordered)
          (omega (arith, one_distinct ids cited, size))
          (omega (arith, length-distinct ids, size)) in
      (s, rw (found, scored) refl, properties)
