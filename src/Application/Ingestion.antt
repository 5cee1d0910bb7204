-- ===== src/Application/Ingestion.antt =====
-- application/ingestion/service.py: the summary of one ingestion cycle. The service itself is in
-- Ingestion/Service.antt.
pub mod Counts
pub mod Ports
pub mod Service
use fpl_data_relay.Prelude.{
  ℕ, ◌+◌, String, Bool, true, false, not, Option, none, some, List, [], ◌∷◌, ◌++◌, length, count,
  if◌then◌else◌,
}
use fpl_data_relay.Prelude.Dict.{Dict, get, put, keys, sorted_set}
use fpl_data_relay.Domain.Changes.{EntityFamily, ChangeEvent, UpsertOutcome}
use fpl_data_relay.Domain.Changes.Families.{family_key}

pub record EntityChangeCounts : Type 0 where
  pub created : ℕ
  pub updated : ℕ
  pub deleted : ℕ

pub record IngestionResult : Type 0 where
  pub changed_count : ℕ
  pub unchanged_count : ℕ
  pub season_id : Option String
  pub current_event_id : Option ℕ
  pub has_active_fixture : Bool
  pub entity_change_counts : Dict EntityFamily EntityChangeCounts

abbrev pub no_changes : EntityChangeCounts
no_changes = record { created = 0; updated = 0; deleted = 0 }

abbrev pub or_no_changes : Option EntityChangeCounts → EntityChangeCounts
or_no_changes none = no_changes
or_no_changes (some c) = c

abbrev pub add_counts : EntityChangeCounts → EntityChangeCounts → EntityChangeCounts
add_counts a b = record {
  created = a.created + b.created;
  updated = a.updated + b.updated;
  deleted = a.deleted + b.deleted;
}

-- `counts.get(family, EntityChangeCounts(created=0, updated=0, deleted=0))`
abbrev pub counts_of : EntityFamily → Dict EntityFamily EntityChangeCounts → EntityChangeCounts
counts_of family counts = or_no_changes (get family counts)

abbrev pub event_counts : ChangeEvent → EntityChangeCounts
event_counts e = record {
  created = e.created_count;
  updated = e.updated_count;
  deleted = e.deleted_count;
}

-- The inner loop: the events of one outcome.
count_events :
    List ChangeEvent → Dict EntityFamily EntityChangeCounts → Dict EntityFamily EntityChangeCounts
count_events [] counts = counts
count_events (e ∷ events) counts =
    count_events events
      (put e.entity_family (add_counts (counts_of e.entity_family counts) (event_counts e)) counts)

count_outcomes :
    List UpsertOutcome → Dict EntityFamily EntityChangeCounts → Dict EntityFamily EntityChangeCounts
unfolding count_events
count_outcomes [] counts = counts
count_outcomes (o ∷ outcomes) counts = count_outcomes outcomes (count_events o.change_events counts)

-- `sum(len(outcome.change_events) for outcome in outcomes)`
abbrev pub total_events : List UpsertOutcome → ℕ
total_events [] = 0
total_events (o ∷ outcomes) = length o.change_events + total_events outcomes

pub result_from_outcomes : List UpsertOutcome → Option String → Option ℕ → Bool → IngestionResult
unfolding count_outcomes
result_from_outcomes outcomes season_id current_event_id has_active_fixture = record {
  changed_count = total_events outcomes;
  unchanged_count = count (λ o. not o.changed) outcomes;
  season_id = season_id;
  current_event_id = current_event_id;
  has_active_fixture = has_active_fixture;
  entity_change_counts = count_outcomes outcomes [];
}

-- The loop of `combine_results` over the families of both, in the order of `EntityFamily`: the
-- source iterates over a set.
combine_counts :
    (first second : Dict EntityFamily EntityChangeCounts)
    → List EntityFamily
    → Dict EntityFamily EntityChangeCounts
combine_counts first second [] = []
combine_counts first second (f ∷ families) =
    (f, add_counts (counts_of f first) (counts_of f second)) ∷ combine_counts first second families

abbrev pub or_first : Option String → Option String → Option String
or_first (some b) a = some b
or_first none a = a

pub combine_results : (first second : IngestionResult) → IngestionResult
unfolding combine_counts
combine_results first second = record {
  changed_count = first.changed_count + second.changed_count;
  unchanged_count = first.unchanged_count + second.unchanged_count;
  season_id = or_first second.season_id first.season_id;
  current_event_id = second.current_event_id;
  has_active_fixture = second.has_active_fixture;
  entity_change_counts =
      combine_counts first.entity_change_counts second.entity_change_counts
        (sorted_set (keys first.entity_change_counts ++ keys second.entity_change_counts));
}
