-- ===== src/LambdaIngestion/Pages/Complete.antt =====
-- The pages together are the fixtures of the season, and the loop ends.
use fpl_data_relay.Prelude.{
  ℕ, zero, suc, ◌*◌, ◌≡◌, ◌≤◌, ◌<◌, ap, sym, ◌∙◌, String, false, none, some, List, [], ◌++◌, arith,
  ltb, leb, ltb→lt, append_assoc, lt→not-leb, length, take, filter, Bool-cases, inl, inr,
}
use fpl_data_relay.Prelude.Paging
use fpl_data_relay.Prelude.Paging.{
  AscendAbove, drop, after_all, take-drop, length-drop, after-AscendAbove, after-after, take_all,
  last_of_full,
}
use fpl_data_relay.Result.{ok}
use fpl_data_relay.Domain.Reference.{Fixture}
use fpl_data_relay.LambdaIngestion.Ports.{Services}
use fpl_data_relay.LambdaIngestion.Pages.{page_size, last_id, read_pages, read_all_fixtures}

abbrev id_of : Fixture → ℕ
id_of f = f.id

abbrev after : ℕ → List Fixture → List Fixture
after = Paging.after id_of

-- The query of the database: the rows in the order of their ids, those after an id, up to a limit.
pub record FixtureTable {S : Type 0} (services : Services S) : Type 0 where
  pub rows : String → S → List Fixture
  pub ascending : (season_id : String) (s : S) → AscendAbove id_of 0 (rows season_id s)
  pub page :
      (season_id : String) (after_id limit : ℕ) (s : S)
      → services.list_fixtures season_id none after_id limit s
        ≡ (ok (take limit (filter (λ f. ltb after_id f.id) (rows season_id s))), s)

full_page : (fs : List Fixture) → ltb (length fs) page_size ≡ false → page_size ≤ length fs
full_page fs h = ground arith

module _ {S : Type 0} (services : Services S) (table : FixtureTable services) where
  open table use {rows, ascending, page}

  read_pages_lem :
      (fuel : ℕ) (season_id : String) (read : List Fixture) (a : ℕ) (s : S)
      → length (after a (rows season_id s)) < fuel * page_size
      → read_pages services fuel season_id read a s
        ≡ (ok (some (read ++ after a (rows season_id s))), s)
  unfolding read_pages
  read_pages_lem zero season_id read a s enough = ground arith
  read_pages_lem (suc fuel) season_id read a s enough =
      rw (page season_id a page_size s) (elim (Bool-cases (ltb (length this) page_size)) [
        | inl short ↦ rw short (
            ap (λ r. (ok (some (read ++ r)), s)) (take_all id_of page_size rest (ltb→lt _ _ short)))
        | inr full ↦
            let (above, left) =
              last_of_full id_of 199 a rest
                (after-AscendAbove id_of a 0 (rows season_id s) (ascending season_id s))
                (ground (arith, full)) in
            let advances : leb (last_id this) a ≡ false = lt→not-leb a (last_id this) above in
            let next : after (last_id this) (rows season_id s) ≡ drop id_of page_size rest =
              sym (after-after id_of a (last_id this) (rows season_id s) (omega arith)) ∙ left in
            rw (full, advances)
              (read_pages_lem fuel season_id (read ++ this) (last_id this) s (
                  rw next
                    (omega (arith, length-drop id_of page_size rest, enough, full_page this full)))
                ∙ ap (λ r. (ok (some r), s))
                    (ap (λ r. (read ++ this) ++ r) next
                      ∙ append_assoc read this (drop id_of page_size rest)
                      ∙ ap (λ r. read ++ r) (take-drop id_of page_size rest)))
      ])
    where
      rest : List Fixture
      rest = after a (rows season_id s)

      this : List Fixture
      this = take page_size rest

  -- With fuel for more pages than the fixtures of the season fill, all of them are returned, in
  -- order and once, and the error for pages that do not advance is not raised.
  pub read_all_fixtures_complete :
      (fuel : ℕ) (season_id : String) (s : S)
      → length (rows season_id s) < fuel * page_size
      → read_all_fixtures services fuel season_id s ≡ (ok (some (rows season_id s)), s)
  unfolding read_all_fixtures
  read_all_fixtures_complete fuel season_id s enough =
      let all = after_all id_of 0 0 (rows season_id s) (omega arith) (ascending season_id s) in
      read_pages_lem fuel season_id [] 0 s (rw all enough) ∙ ap (λ r. (ok (some r), s)) all
