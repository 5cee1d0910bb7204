-- ===== src/Application/CommunityService/Sample.antt =====
-- A strategy with one source that finds one post, a model that writes one story about it, and a database of
-- reports, on which the tests run the service.
use fpl_data_relay.Prelude.{
  ℕ, String, true, false, none, some, List, [], ◌∷◌, length, map, string_key, nat_key,
}
use fpl_data_relay.Result.{ok}
use fpl_data_relay.Exec.{return}
use fpl_data_relay.Domain.Json.{pos}
use fpl_data_relay.Domain.Time.{utc}
use fpl_data_relay.Domain.Reference.{Season}
use fpl_data_relay.Domain.Bootstrap.{Team}
use fpl_data_relay.Domain.Community.Kinds.{
  SourceType, Actionability, TopicCategory, EntityType, EntityConfidence, Text,
}
use fpl_data_relay.Domain.Community.Micros.{micros}
use fpl_data_relay.Domain.Community.Sources.{x_source, CommunityStrategyDefinition}
use fpl_data_relay.Domain.Community.Documents.{
  SourceDocumentMetadata, DiscoveredDocument, x_document, about, SourceDocument, x_engagement,
}
use fpl_data_relay.Domain.Community.Topics.{CandidateStory}
use fpl_data_relay.Domain.Community.Reports.{CommunityReport}
use fpl_data_relay.Application.CommunityRanking.{rank}
use fpl_data_relay.Application.CommunityStrategies.{
  ConfiguredCommunityStrategy, CommunityStrategyRegistry,
}
use fpl_data_relay.Application.CommunityJobs.{CommunityStrategyJob, days}
use fpl_data_relay.Application.CommunityService.Ports.{ReferenceBundle, Libraries, CommunityService}

pub record World : Type 0 where
  pub reports : List (CommunityReport ℕ)

abbrev pub sha : String
sha = "0123456789abcdef0123456789abcdef0123456789abcdef0123456789abcdef"

abbrev pub definition : CommunityStrategyDefinition
definition = record {
  key = "daily";
  version = 1;
  active = true;
  name = "Daily";
  description = "What the community says";
  schedule_expression = "cron(0 6 * * ? *)";
  schedule_timezone = "Europe/London";
  lookback_days = 2;
  target_story_count = 5;
  minimum_story_count = 1;
  maximum_candidate_stories = 8;
  ranking_policy = "community_momentum_v1";
  model = "m";
  reasoning_effort = "low";
  extraction_prompt_version = 1;
  synthesis_prompt_version = 1;
  extraction_concurrency = 1;
  chunk_characters = 1000;
  extraction_cache_retention_days = 3;
  supadata_requests_per_second = 1;
  sources =
      x_source (record {
        key = "x1";
        label = "X";
        user_id = "1";
        username = "u";
        include_replies = false;
        include_reposts = false;
        max_documents = 10;
        timeout_seconds = (pos 5, 0);
      })
      ∷ [];
}

abbrev pub strategy : ConfiguredCommunityStrategy
strategy = record { definition = definition }

abbrev pub registry : CommunityStrategyRegistry
registry = ("daily", strategy) ∷ []

abbrev pub day : ℕ → ℕ
day n = days n

abbrev pub metadata : String → SourceDocumentMetadata
metadata id = record {
  document_id = id;
  source_key = "x1";
  source_type = SourceType.x;
  external_id = id;
  publisher = "p";
  title = "t";
  url = "https://x.com/1";
  published_at = utc (day 9);
  engagement = x_engagement (record { likes = 3; replies = 0; reposts = 0; quotes = 0 });
}

abbrev pub post : DiscoveredDocument
post =
    x_document (record { metadata = metadata "a"; content_revision = sha; transient_text = "body" })

abbrev pub job : CommunityStrategyJob
job = record {
  version = 1;
  strategy_key = "daily";
  strategy_version = 1;
  report_date = 10;
  window_start = utc (day 8);
  window_end = utc (day 10);
}

abbrev pub season : Season
season = record {
  id = "2025-26";
  start_year = 2025;
  end_year = 2026;
  first_deadline_time = utc 0;
  last_deadline_time = utc 0;
  is_current = true;
}

abbrev pub team : Team
team = record {
  id = 1;
  name = "Arsenal";
  short_name = "ARS";
  code = none;
  strength = none;
  strength_overall_home = none;
  strength_overall_away = none;
  strength_attack_home = none;
  strength_attack_away = none;
  strength_defence_home = none;
  strength_defence_away = none;
  pulse_id = none;
}

abbrev pub story : CandidateStory
story = record {
  headline = "Sell";
  summary = "s";
  category = TopicCategory.sell;
  actionability = Actionability.high;
  evidence_document_ids = "a" ∷ [];
  entity_links =
      record { entity_type = EntityType.team; entity_id = 1; confidence = EntityConfidence.high }
      ∷ record { entity_type = EntityType.team; entity_id = 1; confidence = EntityConfidence.low }
      ∷ [];
}

abbrev pub bundle : ReferenceBundle
bundle = record {
  season = season;
  current_event = none;
  events = [];
  teams = (1, team) ∷ [];
  element_types = [];
  elements = [];
  fixtures = [];
}

abbrev pub libraries : Libraries
libraries = record {
  formats = record {
    of_cost = λ c. "";
    of_status = λ s. "";
    of_event = λ e. "";
    of_flag = λ f. "";
    of_time = λ t. "";
  };
  local_date = λ zone moment. 10;
  contract_hash = λ instructions model effort characters. sha;
}

abbrev pub ascii : Text
ascii = record { strip = λ s. s; lower = λ s. s; casefold = λ s. s }

abbrev pub service : CommunityService World ℕ
service = record {
  registry = registry;
  source_gateway = record {
    discover = λ source a b. return (record {
      source_key = "x1";
      documents = post ∷ [];
      excluded_document_count = 0;
      exclusions = [];
    });
    materialize = λ source documents. return (record {
      source_key = "x1";
      documents = map (λ d. record { metadata = about d; text = "body" }) documents;
      excluded_document_count = 0;
      exclusions = [];
    });
  };
  analyzer = record {
    extract = λ request. return (record {
      documents =
          map
            (λ (d : SourceDocument). record {
              document_id = d.metadata.document_id;
              topics =
                  record {
                    claim = "c";
                    category = TopicCategory.sell;
                    actionability = Actionability.high;
                    mentioned_entities = [];
                    document_ids = d.metadata.document_id ∷ [];
                  }
                  ∷ [];
            })
            request.documents;
      usage = record {
        model = "m";
        reasoning_effort = "low";
        response_ids = [];
        input_tokens = 1;
        output_tokens = 1;
      };
    });
    synthesize = λ request. return (record {
      candidates = story ∷ [];
      usage = record {
        model = "m";
        reasoning_effort = "low";
        response_ids = [];
        input_tokens = 1;
        output_tokens = 1;
      };
    });
  };
  ranking_policy = rank ascii;
  reports = record {
    insert_report = λ r s.
        let report : CommunityReport ℕ = record { id = 1; draft = r } in
        (ok report, record { reports = report ∷ s.reports });
    get_report_for_date = λ key date s. (ok none, s);
  };
  extraction_cache = record {
    prune_expired = λ as_of. return 0;
    get_entries = λ key version hash lookups as_of. return [];
    insert_entries = λ drafts. return (length drafts);
  };
  references = record {
    get_current_season = return (some season);
    get_current_event = λ id. return none;
    list_events = λ id. return [];
    list_teams = λ id. return (team ∷ []);
    list_element_types = λ id. return [];
    list_elements = λ id after_id limit. return [];
    list_fixtures = λ id event after_id limit. return [];
  };
  clock = return (utc (day 11));
}
