-- ===== src/LambdaIngestion/Pages.antt =====
-- lambda_ingestion.py, `read_all_fixtures`: the fixtures of a season, page by page.
pub mod Complete
use fpl_data_relay.Prelude.{
  ℕ, zero, suc, ◌+◌, ◌≡◌, ◌≤◌, ◌<◌, refl, String, Bool, true, false, not, ◌&&◌, ◌||◌, Option, none,
  some, List, [], ◌∷◌, ◌++◌, arith, ltb, leb, length, last?, if◌then◌else◌,
}
use fpl_data_relay.Result.{Result, ok, err, runtime_error}
use fpl_data_relay.Exec.{Exec, return, raise, proceed, ◌>>=◌, ◌>>◌}
use fpl_data_relay.Domain.Reference.{Fixture}
use fpl_data_relay.LambdaIngestion.Ports.{Services}

abbrev pub page_size : ℕ
page_size = 200

-- `page[-1].id`; a full page is not empty.
abbrev pub last_id : List Fixture → ℕ
last_id page = elim (last? page) [ none ↦ 0 | some f ↦ f.id ]

module _ {S : Type 0} (services : Services S) where
  open services use {list_fixtures}

  -- The loop, with the fixtures read so far and the id to start after. None is a loop that the
  -- fuel has not seen end.
  pub read_pages : (fuel : ℕ) → String → List Fixture → ℕ → Exec S (Option (List Fixture))
  read_pages zero season_id fixtures after_id = return none
  read_pages (suc fuel) season_id fixtures after_id = do
    page ← list_fixtures season_id none after_id page_size
    (let rest = read_pages fuel season_id (fixtures ++ page) (last_id page) in
        if ltb (length page) page_size
        then return (some (fixtures ++ page))
        else if leb (last_id page) after_id
        then raise (runtime_error "Fixture pagination did not advance.")
        else rest)

  pub read_all_fixtures : (fuel : ℕ) → String → Exec S (Option (List Fixture))
  unfolding read_pages
  read_all_fixtures fuel season_id = read_pages fuel season_id [] 0
