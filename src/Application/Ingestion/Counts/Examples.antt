-- ===== src/Application/Ingestion/Counts/Examples.antt =====
-- The outcomes of two phases, and the theorems on their counts.
use fpl_data_relay.Prelude.{ℕ, ◌≡◌, refl, ◌++◌, true, false, none, some, List, [], ◌∷◌}
use fpl_data_relay.Prelude.Dict.{get, put}
use fpl_data_relay.Domain.Time.{utc}
use fpl_data_relay.Domain.Changes.{EntityFamily, IngestionSourceKey, ChangeEvent, UpsertOutcome}
use fpl_data_relay.Domain.Changes.Families.{family_key}
use fpl_data_relay.Application.Ingestion.{
  IngestionResult, counts_of, result_from_outcomes, combine_results,
}
use fpl_data_relay.Application.Ingestion.Counts.{
  sum_outcomes, result_from_outcomes-counts, combine_results-counts, SameCounts,
  combine-result_from_outcomes,
}

abbrev change : EntityFamily → (created updated deleted : ℕ) → ChangeEvent
change family created updated deleted = record {
  id = 1;
  season_id = "2025-26";
  entity_family = family;
  event_name = "fpl.changed";
  source_key = IngestionSourceKey.bootstrap;
  source_event_id = none;
  payload_hash = "";
  created_count = created;
  updated_count = updated;
  deleted_count = deleted;
  fetched_at = utc 1;
  created_at = utc 2;
}

abbrev reference : List UpsertOutcome
reference =
    record {
      changed = true;
      change_events = change EntityFamily.teams 1 2 0 ∷ change EntityFamily.elements 0 7 1 ∷ [];
    }
    ∷ record { changed = false; change_events = [] }
    ∷ []

abbrev live : List UpsertOutcome
live = record { changed = true; change_events = change EntityFamily.elements 0 3 0 ∷ [] } ∷ []

abbrev reference_result : IngestionResult
reference_result = record {
  changed_count = 2;
  unchanged_count = 1;
  season_id = some "2025-26";
  current_event_id = some 3;
  has_active_fixture = false;
  entity_change_counts =
      (EntityFamily.teams, record { created = 1; updated = 2; deleted = 0 })
      ∷ (EntityFamily.elements, record { created = 0; updated = 7; deleted = 1 })
      ∷ [];
}

reference_runs : result_from_outcomes reference (some "2025-26") (some 3) false ≡ reference_result
unfolding result_from_outcomes get put
reference_runs = refl

result_from_outcomes-counts_example :
    counts_of EntityFamily.elements
      (result_from_outcomes reference (some "2025-26") (some 3) false).entity_change_counts
    ≡ sum_outcomes EntityFamily.elements reference
result_from_outcomes-counts_example =
    result_from_outcomes-counts reference (some "2025-26") (some 3) false EntityFamily.elements

combine_results-counts_example :
    counts_of EntityFamily.teams
      (combine_results reference_result reference_result).entity_change_counts
    ≡ record { created = 2; updated = 4; deleted = 0 }
unfolding get
combine_results-counts_example =
    combine_results-counts reference_result reference_result EntityFamily.teams

combine-result_from_outcomes_example :
    SameCounts
      (combine_results
        (result_from_outcomes reference none none false)
        (result_from_outcomes live (some "2025-26") (some 3) true))
      (result_from_outcomes (reference ++ live) (some "2025-26") (some 3) true)
combine-result_from_outcomes_example =
    combine-result_from_outcomes reference live none (some "2025-26") none (some 3) false true
