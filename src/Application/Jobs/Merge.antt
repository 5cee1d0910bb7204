-- ===== src/Application/Jobs/Merge.antt =====
-- The merge of sorted windows: it covers the same moments, and leaves a gap between two windows of
-- one event.
use fpl_data_relay.Prelude.{
  ℕ, ◌≡◌, ◌<◌, ◌⊎◌, inl, inr, refl, Bool, true, false, ◌&&◌, ◌||◌, List, [], ◌∷◌, arith, ◌==◌,
  Bool-cases,
}
use fpl_data_relay.Domain.Time.{later_of, not_after}
use fpl_data_relay.Application.Jobs.{MatchWindow, merge_from, merge_windows}
use fpl_data_relay.Application.Jobs.Sorted.{covers, covered, IsOrdered, IsOrderedFrom, IsSorted}

abbrev joins : MatchWindow → MatchWindow → Bool
joins p w = p.event_id == w.event_id && not_after w.start p.stop

abbrev extend : MatchWindow → MatchWindow → MatchWindow
extend p w = record p { stop = later_of p.stop w.stop }

-- A window takes in the next one without a gap.
covers-extend :
    (event t : ℕ) (p w : MatchWindow)
    → IsOrdered p w
    → joins p w ≡ true
    → covers event t (extend p w) ≡ (covers event t p || covers event t w)
covers-extend event t p w o j = ground arith

IsOrderedFrom-extend :
    (p w : MatchWindow) (ws : List MatchWindow)
    → IsOrdered p w
    → IsOrderedFrom w ws
    → IsOrderedFrom (extend p w) ws
IsOrderedFrom-extend p w [] o f = tt
IsOrderedFrom-extend p w (x ∷ ws) o f = (ground arith, f.1)

covered-merge_from :
    (event t : ℕ) (p : MatchWindow) (ws : List MatchWindow)
    → IsOrderedFrom p ws
    → covered event t (merge_from p ws) ≡ (covers event t p || covered event t ws)
unfolding merge_from
covered-merge_from event t p [] o = refl
covered-merge_from event t p (w ∷ ws) o = elim (Bool-cases (joins p w)) [
  | inl j ↦ rw j (
      ground (
        arith,
        covered-merge_from event t (extend p w) ws (IsOrderedFrom-extend p w ws o.0 o.1),
        covers-extend event t p w o.0 j,
      ))
  | inr n ↦ rw n (ground (arith, covered-merge_from event t w ws o.1))
]

pub covered-merge_windows :
    (event t : ℕ) (ws : List MatchWindow)
    → IsSorted ws
    → covered event t (merge_windows ws) ≡ covered event t ws
unfolding merge_windows
covered-merge_windows event t [] o = refl
covered-merge_windows event t (w ∷ ws) o = covered-merge_from event t w ws o

-- A later event, or a start after the end of the window before.
abbrev pub IsApart : MatchWindow → MatchWindow → Type 0
IsApart v w =
    (v.event_id < w.event_id) ⊎ (v.event_id ≡ w.event_id) × (v.stop.moment < w.start.moment)

abbrev pub AreApartFrom : MatchWindow → List MatchWindow → Type 0
AreApartFrom v [] = Unit
AreApartFrom v (w ∷ ws) = IsApart v w × AreApartFrom w ws

abbrev pub AreApart : List MatchWindow → Type 0
AreApart [] = Unit
AreApart (w ∷ ws) = AreApartFrom w ws

-- The merged list begins with the window it was given, perhaps extended.
abbrev Begins : MatchWindow → List MatchWindow → Type 0
Begins p [] = ⊥
Begins p (h ∷ rest) =
    (h.event_id ≡ p.event_id) × (h.start.moment ≡ p.start.moment) × AreApartFrom h rest

Begins-cons :
    (p w : MatchWindow) (merged : List MatchWindow)
    → IsOrdered p w
    → joins p w ≡ false
    → Begins w merged
    → AreApartFrom p merged
Begins-cons p w [] o n b = absurd b
Begins-cons p w (h ∷ rest) o n b = (ground arith, b.2)

Begins-extend :
    (p w : MatchWindow) (merged : List MatchWindow) → Begins (extend p w) merged → Begins p merged
Begins-extend p w [] b = b
Begins-extend p w (h ∷ rest) b = b

merge_from-Begins :
    (p : MatchWindow) (ws : List MatchWindow) → IsOrderedFrom p ws → Begins p (merge_from p ws)
unfolding merge_from
merge_from-Begins p [] o = (refl, refl, tt)
merge_from-Begins p (w ∷ ws) o = elim (Bool-cases (joins p w)) [
  | inl j ↦ rw j (
      Begins-extend p w (merge_from (extend p w) ws)
        (merge_from-Begins (extend p w) ws (IsOrderedFrom-extend p w ws o.0 o.1)))
  | inr n ↦ rw n (refl, refl, Begins-cons p w (merge_from w ws) o.0 n (merge_from-Begins w ws o.1))
]

Begins-AreApart : (p : MatchWindow) (merged : List MatchWindow) → Begins p merged → AreApart merged
Begins-AreApart p [] b = tt
Begins-AreApart p (h ∷ rest) b = b.2

pub merge_windows-AreApart : (ws : List MatchWindow) → IsSorted ws → AreApart (merge_windows ws)
unfolding merge_windows
merge_windows-AreApart [] o = tt
merge_windows-AreApart (w ∷ ws) o = Begins-AreApart w (merge_from w ws) (merge_from-Begins w ws o)
