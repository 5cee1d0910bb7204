-- ===== src/Application/Jobs/Sorted.antt =====
-- The sort of the candidate windows: it orders them and covers the same moments.
use fpl_data_relay.Prelude.{
  ℕ, ◌≡◌, ◌≤◌, ◌<◌, ◌⊎◌, refl, Bool, ◌&&◌, ◌||◌, List, [], ◌∷◌, arith, ◌==◌, leb, any,
}
use fpl_data_relay.Application.Jobs.{MatchWindow, insert_window, sort_windows}

-- Whether a window of the event holds the moment.
abbrev pub covers : ℕ → ℕ → MatchWindow → Bool
covers event t w = w.event_id == event && leb w.start.moment t && leb t w.stop.moment

abbrev pub covered : ℕ → ℕ → List MatchWindow → Bool
covered event t ws = any (covers event t) ws

-- By event, and by start within an event.
abbrev pub IsOrdered : MatchWindow → MatchWindow → Type 0
IsOrdered v w =
    (v.event_id < w.event_id) ⊎ (v.event_id ≡ w.event_id) × (v.start.moment ≤ w.start.moment)

abbrev pub IsOrderedFrom : MatchWindow → List MatchWindow → Type 0
IsOrderedFrom v [] = Unit
IsOrderedFrom v (w ∷ ws) = IsOrdered v w × IsOrderedFrom w ws

abbrev pub IsSorted : List MatchWindow → Type 0
IsSorted [] = Unit
IsSorted (w ∷ ws) = IsOrderedFrom w ws

insert_window-IsOrderedFrom :
    (v w : MatchWindow) (ws : List MatchWindow)
    → IsOrdered v w
    → IsOrderedFrom v ws
    → IsOrderedFrom v (insert_window w ws)
unfolding insert_window
insert_window-IsOrderedFrom v w [] h o = (h, tt)
insert_window-IsOrderedFrom v w (x ∷ ws) h o = ground (arith, insert_window-IsOrderedFrom x w ws)

insert_window-IsSorted :
    (w : MatchWindow) (ws : List MatchWindow) → IsSorted ws → IsSorted (insert_window w ws)
unfolding insert_window
insert_window-IsSorted w [] o = tt
insert_window-IsSorted w (x ∷ ws) o = ground (arith, insert_window-IsOrderedFrom x w ws)

pub sort_windows-IsSorted : (ws : List MatchWindow) → IsSorted (sort_windows ws)
unfolding sort_windows
sort_windows-IsSorted [] = tt
sort_windows-IsSorted (w ∷ ws) =
    insert_window-IsSorted w (sort_windows ws) (sort_windows-IsSorted ws)

covered-insert_window :
    (event t : ℕ) (w : MatchWindow) (ws : List MatchWindow)
    → covered event t (insert_window w ws) ≡ (covers event t w || covered event t ws)
unfolding insert_window
covered-insert_window event t w [] = refl
covered-insert_window event t w (x ∷ ws) = ground (arith, covered-insert_window event t w ws)

pub covered-sort_windows :
    (event t : ℕ) (ws : List MatchWindow) → covered event t (sort_windows ws) ≡ covered event t ws
unfolding sort_windows
covered-sort_windows event t [] = refl
covered-sort_windows event t (w ∷ ws) =
    ground
      (arith, covered-insert_window event t w (sort_windows ws), covered-sort_windows event t ws)
