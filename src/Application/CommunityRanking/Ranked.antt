-- ===== src/Application/CommunityRanking/Ranked.antt =====
-- CommunityMomentumRankingPolicy.rank of application/community_ranking.py: the first stories of the
-- sorted scores.
use fpl_data_relay.Prelude.{◌*◌, ◌≤◌, List, [], ◌∷◌, length, All, string_key, nat_key}
use fpl_data_relay.Domain.Community.Distinct.{distinct}
use fpl_data_relay.Domain.Community.Double.{Double, exact_limit}
use fpl_data_relay.Domain.Community.Topics.{CandidateStory}
use fpl_data_relay.Domain.Community.Reports.{ScoredCandidate}
use fpl_data_relay.Application.CommunityRanking.{Documents}
use fpl_data_relay.Application.CommunityRanking.Score.{IsKnown, IsScored}

-- A candidate that cites documents, each of them in the collection.
pub record IsGrounded (documents : Documents) (c : CandidateStory) : Type 0 where
  pub known : All (IsKnown documents) (distinct c.evidence_document_ids)
  pub cited : 1 ≤ length c.evidence_document_ids
  pub small : 20 * length c.evidence_document_ids ≤ exact_limit

module _ {W : Type 0} ⦃d : Double W⦄ where
  -- Candidate by candidate.
  abbrev pub AreScored : List CandidateStory → List (ScoredCandidate W) → Type 0
  AreScored [] [] = Unit
  AreScored [] (s ∷ ss) = ⊥
  AreScored (c ∷ cs) [] = ⊥
  AreScored (c ∷ cs) (s ∷ ss) = IsScored c s × AreScored cs ss
