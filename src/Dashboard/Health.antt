-- ===== src/Dashboard/Health.antt =====
-- The health bar and the first steps of the dashboard: healthBarHtml and gettingStartedHtml.
use cronova.Base.{
  ℕ, suc, ◌-◌, Bool, true, false, ◌||◌, ◌&&◌, not, List, [], ◌∷◌, keep, find, any, length, Option,
  none, some, Text, codes, text_eq, is_empty, if◌then◌else◌, ltb,
}
use cronova.Dashboard.Rows.{DagRow, is_failing}

-- An entry of the feed: `started` and `finished` are empty where the server gives none.
pub record Activity : Type 0 where
  pub run_id : Text
  pub of_dag : Text
  pub run_state : Text
  pub started : Text
  pub finished : Text

unfoldable pub when_text : Activity → Text
when_text a = if is_empty a.started then a.finished else a.started

-- What the bar adds: how many others fail too, or how many do not where one fails alone.
pub data HealthRest : Type 0 where
  more_failing : ℕ → HealthRest
  others_well : ℕ → HealthRest
  nothing_else : HealthRest

-- All is well, since the run of an entry; or a definition fails, with the run that the bar leads to.
pub data HealthBar : Type 0 where
  all_well : Option Text → HealthBar
  trouble : DagRow → Option Activity → HealthRest → HealthBar

unfoldable pub failed_run : DagRow → List Activity → Option Activity
unfolding text_eq
failed_run d feed =
    find
      (λ (a : Activity).
        text_eq a.of_dag d.dag_id
        && (text_eq a.run_state (codes "failed") || text_eq a.run_state (codes "timed_out")))
      feed

unfoldable pub health_rest : ℕ → ℕ → HealthRest
health_rest failing total =
    if ltb 1 failing
    then more_failing (failing - 1)
    else if ltb failing total
    then others_well (total - failing)
    else nothing_else

unfoldable pub last_time : List Activity → Option Text
unfolding when_text
last_time feed =
    elim (find (λ (a : Activity). not (is_empty a.started) || not (is_empty a.finished)) feed) [
      | none ↦ none
      | some a ↦ some (when_text a)
    ]

unfoldable pub health_bar : List DagRow → List Activity → HealthBar
unfolding failed_run health_rest last_time
health_bar dags feed =
    let total = length dags in
    elim (keep is_failing dags) [
      | [] ↦ all_well (last_time feed)
      | d ∷ more ↦ trouble d (failed_run d feed) (health_rest (suc (length more)) total)
    ]

-- The three steps that are done, and whether the box is hidden for good from now on.
pub record FirstSteps : Type 0 where
  pub has_dag : Bool
  pub has_run : Bool
  pub has_ok : Bool

unfoldable pub first_steps : List DagRow → FirstSteps
unfolding text_eq
first_steps dags = record {
  has_dag = ltb 0 (length dags);
  has_run = any (λ (d : DagRow). ltb 0 (length d.states)) dags;
  has_ok =
      any
        (λ (d : DagRow).
          any (λ s. text_eq s (codes "success")) d.states
          || text_eq d.latest_state (codes "success"))
        dags;
}

-- The box that is shown, and whether `cnv_gs_done` is set, given whether it was.
unfoldable pub getting_started : Bool → List DagRow → Option FirstSteps × Bool
unfolding first_steps
getting_started done dags =
    let f = first_steps dags in
    if done
    then (none, true)
    else if f.has_dag && f.has_run && f.has_ok
    then (none, true)
    else (some f, false)
