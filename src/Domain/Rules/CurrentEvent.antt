-- ===== src/Domain/Rules/CurrentEvent.antt =====
-- `select_current_event_id`.
use fpl_data_relay.Prelude.{
  ℕ, ◌≡◌, ◌≤◌, ◌⊎◌, inl, inr, refl, true, Bool-cases, Option, none, some, List, [], ◌∷◌, ap, arith,
  count, Any, length,
}
use fpl_data_relay.Result.{Result, ok, err, value_error}
use fpl_data_relay.Domain.Reference.{Event}
use fpl_data_relay.Domain.Rules.{current_events, select_from, select_current_event_id}

length-current_events :
    (events : List Event) → length (current_events events) ≡ count (λ e. e.is_current) events
length-current_events [] = refl
length-current_events (e ∷ events) = ground (arith, length-current_events events)

current_events-Any :
    (events rest : List Event) (e : Event)
    → current_events events ≡ e ∷ rest
    → Any (λ f. (f.is_current ≡ true) × (f.id ≡ e.id)) events
current_events-Any [] rest e h = cc
current_events-Any (f ∷ events) rest e h = elim (Bool-cases f.is_current) [
  | inl now ↦ inl (now, ground arith)
  | inr other ↦ inr (current_events-Any events rest e (rw other at h))
]

abbrev pub SelectsCurrent : List Event → Result (Option ℕ) → Type 0
SelectsCurrent events r =
    (count (λ e. e.is_current) events ≡ 0) × (r ≡ ok none)
    ⊎ (count (λ e. e.is_current) events ≡ 1)
      × ((id : ℕ) × (r ≡ ok (some id)) × Any (λ e. (e.is_current ≡ true) × (e.id ≡ id)) events)
    ⊎ (2 ≤ count (λ e. e.is_current) events)
      × (r ≡ err (value_error "Expected at most one current FPL event."))

-- No current event gives none, one gives its id, and two or more are an error.
pub select_current_event_cases :
    (events : List Event) → SelectsCurrent events (select_current_event_id events)
unfolding select_current_event_id
select_current_event_cases events = go (current_events events) refl
  where
    go : (es : List Event) → current_events events ≡ es → SelectsCurrent events (select_from es)
    go [] h = inl (omega (arith, length-current_events events, ap length h), refl)
    go (e ∷ []) h = inr (
        inl (
          omega (arith, length-current_events events, ap length h),
          (e.id, refl, current_events-Any events [] e h),
        ))
    go (e ∷ f ∷ rest) h = inr (inr (omega (arith, length-current_events events, ap length h), refl))
