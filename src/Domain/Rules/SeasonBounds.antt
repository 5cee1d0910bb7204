-- ===== src/Domain/Rules/SeasonBounds.antt =====
-- `derive_season`.
use fpl_data_relay.Prelude.{
  ◌+◌, ◌≡◌, ◌≤◌, ◌≢◌, ◌⊎◌, inl, inr, refl, Bool-cases, true, false, not, some, List, [], ◌∷◌, arith,
  All, Any, any, ◌==◌,
}
use fpl_data_relay.Prelude.Dict.{is_some}
use fpl_data_relay.Result.{Result, ok, err}
use fpl_data_relay.Domain.Time.{Datetime, earlier, is_aware, year}
use fpl_data_relay.Domain.Reference.{Event, Season}
use fpl_data_relay.Domain.Rules.{
  min_from, max_from, deadlines, not_adjacent, season_of, season_from, derive_season,
}

abbrev Aware : List Datetime → Type 0
Aware = All (λ d. is_aware d ≡ true)

abbrev IsLeast : Datetime → List Datetime → Datetime → Type 0
IsLeast best ds m =
    (m.moment ≤ best.moment)
    × All (λ d. m.moment ≤ d.moment) ds
    × ((m ≡ best) ⊎ Any (λ d. m ≡ d) ds)

abbrev IsGreatest : Datetime → List Datetime → Datetime → Type 0
IsGreatest best ds m =
    (best.moment ≤ m.moment)
    × All (λ d. d.moment ≤ m.moment) ds
    × ((m ≡ best) ⊎ Any (λ d. m ≡ d) ds)

min_from_lem :
    (best : Datetime) (ds : List Datetime)
    → is_aware best ≡ true
    → Aware ds
    → (m : Datetime) × (min_from best ds ≡ ok m) × IsLeast best ds m
unfolding min_from
min_from_lem best [] a aware = (best, refl, (omega arith, tt, inl refl))
min_from_lem best (d ∷ ds) a aware = elim (Bool-cases (earlier d best)) [
  | inl less ↦
      let (m, e, (p, q, r)) = min_from_lem d ds aware.0 aware.1 in
      (m, ground arith, (ground arith, (p, q), inr r))
  | inr more ↦
      let (m, e, (p, q, r)) = min_from_lem best ds a aware.1 in
      (m, ground arith, (p, (ground arith, q), elim r [ inl x ↦ inl x | inr x ↦ inr (inr x) ]))
]

max_from_lem :
    (best : Datetime) (ds : List Datetime)
    → is_aware best ≡ true
    → Aware ds
    → (m : Datetime) × (max_from best ds ≡ ok m) × IsGreatest best ds m
unfolding max_from
max_from_lem best [] a aware = (best, refl, (omega arith, tt, inl refl))
max_from_lem best (d ∷ ds) a aware = elim (Bool-cases (earlier best d)) [
  | inl less ↦
      let (m, e, (p, q, r)) = max_from_lem d ds aware.0 aware.1 in
      (m, ground arith, (ground arith, (p, q), inr r))
  | inr more ↦
      let (m, e, (p, q, r)) = max_from_lem best ds a aware.1 in
      (m, ground arith, (p, (ground arith, q), elim r [ inl x ↦ inl x | inr x ↦ inr (inr x) ]))
]

-- An event with an aware deadline that satisfies `P`.
abbrev pub HasDeadline : (Datetime → Type 0) → Event → Type 0
HasDeadline P e = (d : Datetime) × (e.deadline_time ≡ some d) × P d

abbrev pub IsTimed : Event → Type 0
IsTimed = HasDeadline (λ d. is_aware d ≡ true)

deadlines-All :
    (P : Datetime → Type 0) (events : List Event)
    → All IsTimed events
    → All P (deadlines events)
    → All (HasDeadline P) events
deadlines-All P [] t p = tt
deadlines-All P (e ∷ events) ((d, h, _), t) p =
    let p' = rw h at p in ((d, h, p'.0), deadlines-All P events t p'.1)

deadlines-Any :
    (P : Datetime → Type 0) (events : List Event)
    → All IsTimed events
    → Any P (deadlines events)
    → Any (HasDeadline P) events
deadlines-Any P [] t p = p
deadlines-Any P (e ∷ events) ((d, h, _), t) p =
    let p' : Any P (d ∷ deadlines events) = rw h at p in
    elim p' [ inl q ↦ inl (d, h, q) | inr q ↦ inr (deadlines-Any P events t q) ]

deadlines-Aware : (events : List Event) → All IsTimed events → Aware (deadlines events)
deadlines-Aware [] t = tt
deadlines-Aware (e ∷ events) ((d, h, a), t) = rw h (a, deadlines-Aware events t)

no_missing_deadline :
    (events : List Event)
    → All IsTimed events
    → any (λ e. not (is_some e.deadline_time)) events ≡ false
no_missing_deadline [] t = refl
no_missing_deadline (e ∷ events) ((d, h, a), t) = rw h (no_missing_deadline events t)

-- The season that runs from `first` to `last`, or the error if they are not in adjacent years.
abbrev pub Spans : Datetime → Datetime → Result Season → Type 0
Spans first last r =
    (year first + 1 ≡ year last)
      × ((s : Season) × (r ≡ ok s)
          × (s.start_year ≡ year first)
          × (s.end_year ≡ year last)
          × (s.first_deadline_time ≡ first)
          × (s.last_deadline_time ≡ last))
    ⊎ (year first + 1 ≢ year last) × (r ≡ err not_adjacent)

season_of-Spans : (first last : Datetime) → Spans first last (season_of first last)
unfolding season_of
season_of-Spans first last = elim (Bool-cases (year first + 1 == year last)) [
  | inl adjacent ↦ inl (ground arith, rw adjacent (_, refl, refl, refl, refl, refl))
  | inr apart ↦ inr (ground arith, rw apart)
]

pub record Derives (events : List Event) (r : Result Season) : Type 0 where
  pub first : Datetime
  pub last : Datetime
  pub first_stands : Any (HasDeadline (λ d. first ≡ d)) events
  pub last_stands : Any (HasDeadline (λ d. last ≡ d)) events
  pub after_first : All (HasDeadline (λ d. first.moment ≤ d.moment)) events
  pub before_last : All (HasDeadline (λ d. d.moment ≤ last.moment)) events
  pub outcome : Spans first last r

season_from-Derives :
    (d : Datetime) (ds : List Datetime) (events : List Event)
    → All IsTimed events
    → deadlines events ≡ d ∷ ds
    → is_aware d ≡ true
    → Aware ds
    → Derives events (season_from (d ∷ ds))
unfolding season_from
season_from-Derives d ds events t h a aware =
    let (first, fe, (f1, f2, f3)) = min_from_lem d ds a aware in
    let (last, le, (l1, l2, l3)) = max_from_lem d ds a aware in
    record {
      first = first;
      last = last;
      first_stands = deadlines-Any (λ x. first ≡ x) events t (rw h f3);
      last_stands = deadlines-Any (λ x. last ≡ x) events t (rw h l3);
      after_first = deadlines-All (λ x. first.moment ≤ x.moment) events t (rw h (f1, f2));
      before_last = deadlines-All (λ x. x.moment ≤ last.moment) events t (rw h (l1, l2));
      outcome = rw (fe, le) (season_of-Spans first last);
    }

-- With at least one event, all of aware deadlines, the season runs from the earliest to the latest
-- deadline if their years are adjacent, and the derivation fails for that reason if they are not.
pub derive_season-Derives :
    (e : Event) (events : List Event)
    → All IsTimed (e ∷ events)
    → Derives (e ∷ events) (derive_season (e ∷ events))
unfolding derive_season
derive_season-Derives e events t =
    let (d, h, a) = t.0 in
    rw (no_missing_deadline (e ∷ events) t) (
      simp h (
        season_from-Derives d (deadlines events) (e ∷ events) t (simp h) a
          (deadlines-Aware events t.1)))
