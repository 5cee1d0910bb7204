-- ===== src/Application/Ingestion/Counts.antt =====
-- The counts of a result, by family.
mod Examples
use fpl_data_relay.Prelude.{
  ℕ, ◌+◌, ◌≡◌, refl, ap, sym, ◌∙◌, ◌⊎◌, inl, inr, Bool-cases, Bool, true, false, not, ◌||◌, Option,
  none, some, List, [], ◌∷◌, ◌++◌, arith, ◌=?◌, contains, contains-append, count, if◌then◌else◌,
  String,
}
use fpl_data_relay.Prelude.Dict.{
  Dict, get, get-nil, get-put, put, keys, is_some, contains-keys, sorted_set, contains-sorted_set,
}
use fpl_data_relay.Domain.Changes.{EntityFamily, ChangeEvent, UpsertOutcome}
use fpl_data_relay.Domain.Changes.Families.{family_key, family_beq_iff}
use fpl_data_relay.Application.Ingestion.{
  EntityChangeCounts, IngestionResult, no_changes, or_no_changes, add_counts, counts_of,
  event_counts, count_events, count_outcomes, total_events, result_from_outcomes, combine_counts,
  combine_results,
}

-- The sum of what the events of a family report.
abbrev pub sum_events : EntityFamily → List ChangeEvent → EntityChangeCounts
sum_events family [] = no_changes
sum_events family (e ∷ events) =
    if e.entity_family =? family
    then add_counts (event_counts e) (sum_events family events)
    else sum_events family events

abbrev pub sum_outcomes : EntityFamily → List UpsertOutcome → EntityChangeCounts
sum_outcomes family [] = no_changes
sum_outcomes family (o ∷ outcomes) =
    add_counts (sum_events family o.change_events) (sum_outcomes family outcomes)

add_counts_assoc :
    (a b c : EntityChangeCounts) → add_counts (add_counts a b) c ≡ add_counts a (add_counts b c)
add_counts_assoc a b c = ground arith

add_counts_zero : (a : EntityChangeCounts) → add_counts a no_changes ≡ a
add_counts_zero a = ground arith

zero_add_counts : (a : EntityChangeCounts) → add_counts no_changes a ≡ a
zero_add_counts a = ground arith

counts_of-put :
    (family f : EntityFamily) (c : EntityChangeCounts)
    (counts : Dict EntityFamily EntityChangeCounts)
    → counts_of family (put f c counts) ≡ (if f =? family then c else counts_of family counts)
counts_of-put family f c counts = ground (arith, get-put family f c counts)

count_events-counts :
    (family : EntityFamily) (events : List ChangeEvent)
    (counts : Dict EntityFamily EntityChangeCounts)
    → counts_of family (count_events events counts)
      ≡ add_counts (counts_of family counts) (sum_events family events)
unfolding count_events
count_events-counts family [] counts = sym (add_counts_zero (counts_of family counts))
count_events-counts family (e ∷ events) counts =
    count_events-counts family events _
    ∙ ap (λ c. add_counts c (sum_events family events))
        (counts_of-put family e.entity_family _ counts)
    ∙ step (Bool-cases (e.entity_family =? family))
  where
    rest : EntityChangeCounts
    rest = sum_events family events

    step :
        ((e.entity_family =? family) ≡ true) ⊎ ((e.entity_family =? family) ≡ false)
        → add_counts
            (if e.entity_family =? family
              then add_counts (counts_of e.entity_family counts) (event_counts e)
              else counts_of family counts)
            rest
          ≡ add_counts
              (counts_of family counts)
              (if e.entity_family =? family then add_counts (event_counts e) rest else rest)
    step (inl same) = rw same (
        rw ((family_beq_iff e.entity_family family).0 same)
          (add_counts_assoc (counts_of family counts) (event_counts e) rest))
    step (inr other) = rw other

count_outcomes-counts :
    (family : EntityFamily) (outcomes : List UpsertOutcome)
    (counts : Dict EntityFamily EntityChangeCounts)
    → counts_of family (count_outcomes outcomes counts)
      ≡ add_counts (counts_of family counts) (sum_outcomes family outcomes)
unfolding count_outcomes
count_outcomes-counts family [] counts = sym (add_counts_zero (counts_of family counts))
count_outcomes-counts family (o ∷ outcomes) counts =
    count_outcomes-counts family outcomes (count_events o.change_events counts)
    ∙ ap (λ c. add_counts c (sum_outcomes family outcomes))
        (count_events-counts family o.change_events counts)
    ∙ add_counts_assoc (counts_of family counts) (sum_events family o.change_events)
        (sum_outcomes family outcomes)

-- Each family's counts in a result are the sums over its events in all outcomes.
pub result_from_outcomes-counts :
    (outcomes : List UpsertOutcome) (season_id : Option String) (event_id : Option ℕ)
    (active : Bool) (family : EntityFamily)
    → counts_of family
        (result_from_outcomes outcomes season_id event_id active).entity_change_counts
      ≡ sum_outcomes family outcomes
unfolding result_from_outcomes
result_from_outcomes-counts outcomes season_id event_id active family =
    count_outcomes-counts family outcomes []
    ∙ ap (λ o. add_counts (or_no_changes o) (sum_outcomes family outcomes))
        (get-nil {V = EntityChangeCounts} family)
    ∙ zero_add_counts (sum_outcomes family outcomes)

get-combine_counts :
    (family : EntityFamily) (a b : Dict EntityFamily EntityChangeCounts)
    (families : List EntityFamily)
    → get family (combine_counts a b families) ≡ (
        if contains family families
        then some (add_counts (counts_of family a) (counts_of family b))
        else none)
unfolding combine_counts get
get-combine_counts family a b [] = refl
get-combine_counts family a b (f ∷ families) = elim (Bool-cases (f =? family)) [
  | inl same ↦ rw same (rw ((family_beq_iff f family).0 same))
  | inr other ↦ rw other (get-combine_counts family a b families)
]

absent_zero :
    (o p : Option EntityChangeCounts)
    → or_no_changes (
        if is_some o || is_some p
        then some (add_counts (or_no_changes o) (or_no_changes p))
        else none)
      ≡ add_counts (or_no_changes o) (or_no_changes p)
absent_zero none none = refl
absent_zero none (some p) = refl
absent_zero (some o) p = refl

-- The counts of a combined result are the sums of the counts of the two, family by family.
pub combine_results-counts :
    (first second : IngestionResult) (family : EntityFamily)
    → counts_of family (combine_results first second).entity_change_counts
      ≡ add_counts
          (counts_of family first.entity_change_counts)
          (counts_of family second.entity_change_counts)
unfolding combine_results
combine_results-counts first second family =
    let a = first.entity_change_counts in
    let b = second.entity_change_counts in
    ap or_no_changes (get-combine_counts family a b (sorted_set (keys a ++ keys b)))
    ∙ simp (contains-sorted_set, contains-append, contains-keys)
        (absent_zero (get family a) (get family b))

total_events-append :
    (xs ys : List UpsertOutcome) → total_events (xs ++ ys) ≡ total_events xs + total_events ys
total_events-append [] ys = omega arith
total_events-append (x ∷ xs) ys = omega (arith, total_events-append xs ys)

count-append :
    (test : UpsertOutcome → Bool) (xs ys : List UpsertOutcome)
    → count test (xs ++ ys) ≡ count test xs + count test ys
count-append test [] ys = omega arith
count-append test (x ∷ xs) ys = omega (arith, count-append test xs ys)

sum_outcomes-append :
    (family : EntityFamily) (xs ys : List UpsertOutcome)
    → sum_outcomes family (xs ++ ys) ≡ add_counts (sum_outcomes family xs) (sum_outcomes family ys)
sum_outcomes-append family [] ys = ground arith
sum_outcomes-append family (x ∷ xs) ys =
    ap (add_counts (sum_events family x.change_events)) (sum_outcomes-append family xs ys)
    ∙ sym (add_counts_assoc (sum_events family x.change_events) _ _)

-- The same totals, and the same counts of every family.
pub record SameCounts (a b : IngestionResult) : Type 0 where
  pub changed : a.changed_count ≡ b.changed_count
  pub unchanged : a.unchanged_count ≡ b.unchanged_count
  pub counts :
      (family : EntityFamily)
      → counts_of family a.entity_change_counts ≡ counts_of family b.entity_change_counts

-- Combining the results of two phases counts as one result over the outcomes of both does.
pub combine-result_from_outcomes :
    (xs ys : List UpsertOutcome) (s t : Option String) (i j : Option ℕ) (a b : Bool)
    → SameCounts
        (combine_results (result_from_outcomes xs s i a) (result_from_outcomes ys t j b))
        (result_from_outcomes (xs ++ ys) t j b)
combine-result_from_outcomes xs ys s t i j a b = record {
  changed = unfold combine_results result_from_outcomes in sym (total_events-append xs ys);
  unchanged = unfold combine_results result_from_outcomes in sym (count-append _ xs ys);
  counts = λ family.
      combine_results-counts (result_from_outcomes xs s i a) (result_from_outcomes ys t j b) family
      ∙ simp result_from_outcomes-counts (sym (sum_outcomes-append family xs ys));
}
