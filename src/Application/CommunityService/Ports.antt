-- ===== src/Application/CommunityService/Ports.antt =====
-- application/ports/community.py and application/ports/persistence.py: what the community service asks of
-- its gateway, its analyzer, its repositories and its clock, which act on an abstract world `S`.
use fpl_data_relay.Prelude.{ℕ, String, Option, List, Bool}
use fpl_data_relay.Domain.Json.{ℤ}
use fpl_data_relay.Application.CommunityStrategies.{CommunityStrategyRegistry}
use fpl_data_relay.Prelude.Dict.{Dict}
use fpl_data_relay.Result.{Result}
use fpl_data_relay.Exec.{Exec}
use fpl_data_relay.Domain.Time.{Datetime}
use fpl_data_relay.Domain.Reference.{Season, Event, Fixture}
use fpl_data_relay.Domain.Bootstrap.{Team, ElementType, Element}
use fpl_data_relay.Domain.Community.Sources.{CommunitySource}
use fpl_data_relay.Domain.Community.Documents.{
  SourceDocumentMetadata, DiscoveredDocument, SourceDiscoveryResult, SourceMaterializationResult,
}
use fpl_data_relay.Domain.Community.Topics.{
  AgentExtractionRequest, AgentExtractionResult, AgentSynthesisRequest, AgentSynthesisResult,
  CandidateStory,
}
use fpl_data_relay.Domain.Community.Cache.{
  ExtractionCacheLookup, ExtractionCacheEntry, ExtractionCacheEntryDraft,
}
use fpl_data_relay.Domain.Community.Reports.{CommunityReport, CommunityReportDraft, ScoredCandidate}

pub record CommunitySourceGateway (S : Type 0) : Type 0 where
  pub discover :
      CommunitySource → (window_start window_end : Datetime) → Exec S SourceDiscoveryResult
  pub materialize : CommunitySource → List DiscoveredDocument → Exec S SourceMaterializationResult

pub record AgentAnalyzer (S : Type 0) : Type 0 where
  pub extract : AgentExtractionRequest → Exec S AgentExtractionResult
  pub synthesize : AgentSynthesisRequest → Exec S AgentSynthesisResult

-- The operations that the service uses.
pub record CommunityReportRepository (S W : Type 0) : Type 0 where
  pub insert_report : CommunityReportDraft W → Exec S (CommunityReport W)
  pub get_report_for_date : String → ℕ → Exec S (Option (CommunityReport W))

pub record CommunityExtractionCacheRepository (S : Type 0) : Type 0 where
  pub prune_expired : Datetime → Exec S ℕ
  pub get_entries :
      String
      → ℕ
      → String
      → List ExtractionCacheLookup
      → Datetime
      → Exec S (List ExtractionCacheEntry)
  pub insert_entries : List ExtractionCacheEntryDraft → Exec S ℕ

pub record ReferenceRepository (S : Type 0) : Type 0 where
  pub get_current_season : Exec S (Option Season)
  pub get_current_event : String → Exec S (Option Event)
  pub list_events : String → Exec S (List Event)
  pub list_teams : String → Exec S (List Team)
  pub list_element_types : String → Exec S (List ElementType)
  pub list_elements : String → (after_id limit : ℕ) → Exec S (List Element)
  pub list_fixtures : String → Option ℕ → (after_id limit : ℕ) → Exec S (List Fixture)

pub record ReferenceBundle : Type 0 where
  pub season : Season
  pub current_event : Option Event
  pub events : Dict ℕ Event
  pub teams : Dict ℕ Team
  pub element_types : Dict ℕ ElementType
  pub elements : Dict ℕ Element
  pub fixtures : Dict ℕ Fixture

-- `f"{value}"` of an `int | None`, a `str | None`, an event id, a `bool`, and a `datetime | None`.
pub record Formats : Type 0 where
  pub of_cost : Option ℤ → String
  pub of_status : Option String → String
  pub of_event : Option ℕ → String
  pub of_flag : Bool → String
  pub of_time : Option Datetime → String

-- What the service takes from the standard library: the formatting of values, the date of an
-- instant in a timezone, and the SHA-256 digest of the JSON of an extraction contract.
pub record Libraries : Type 0 where
  pub formats : Formats
  pub local_date : String → ℕ → ℕ
  pub contract_hash :
      (instructions model reasoning_effort : String) → (chunk_characters : ℕ) → String

-- `CommunityService.__init__`
pub record CommunityService (S W : Type 0) : Type 0 where
  pub registry : CommunityStrategyRegistry
  pub source_gateway : CommunitySourceGateway S
  pub analyzer : AgentAnalyzer S
  pub ranking_policy :
      List CandidateStory
      → Dict String SourceDocumentMetadata
      → (window_start window_end : Datetime) → (limit : ℕ) → Result (List (ScoredCandidate W))
  pub reports : CommunityReportRepository S W
  pub extraction_cache : CommunityExtractionCacheRepository S
  pub references : ReferenceRepository S
  pub clock : Exec S Datetime
