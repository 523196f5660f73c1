-- ===== src/Dashboard/Samples.antt =====
-- Tests of the dashboard, and its theorem at concrete events.
use cronova.Base.{◌≡◌, refl, true, false, List, [], ◌∷◌, none, some, Text, codes, text_eq}
use cronova.Session.Api.{Result, thrown}
use cronova.Dashboard.Rows.{DagRow, all_rows, failed_rows, is_failing}
use cronova.Dashboard.Bulk.{Dashboard, DashEvent, refreshed, filtered, ticked_row, ticked_all}
use cronova.Dashboard.Health.{
  health_bar, trouble, others_well, failed_run, health_rest, last_time, getting_started,
  first_steps,
}

abbrev good : DagRow
good = record {
  dag_id = codes "etl";
  latest_state = codes "success";
  paused = false;
  states = codes "success" ∷ [];
}

abbrev bad : DagRow
bad = record {
  dag_id = codes "mail";
  latest_state = codes "failed";
  paused = false;
  states = codes "failed" ∷ [];
}

abbrev fresh : Dashboard
fresh = record { dags = []; query = []; filter = all_rows; bulk_sel = [] }

abbrev clicks : List DashEvent
clicks =
    refreshed (good ∷ bad ∷ [])
    ∷ ticked_all true
    ∷ filtered failed_rows
    ∷ ticked_row (codes "etl") true
    ∷ []

abbrev refusing : Text → Result (Unit {0})
refusing i = thrown (record { message = codes "busy"; status = some 409; code = [] })

health_bar_test : health_bar (good ∷ bad ∷ []) [] ≡ trouble bad none (others_well 1)
unfolding health_bar failed_run health_rest last_time is_failing text_eq
health_bar_test = refl

getting_started_test : (getting_started false (good ∷ [])).0 ≡ none
unfolding getting_started first_steps text_eq
getting_started_test = refl
