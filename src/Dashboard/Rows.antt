-- ===== src/Dashboard/Rows.antt =====
-- The rows of the dashboard: what the overview tells of a definition, and the filter of renderDags.
use cronova.Base.{Bool, true, ◌||◌, ◌&&◌, List, map, keep, Text, codes, text_eq, is_empty}
use cronova.Wizard.{contains}
use cronova.Dag.Validate.{lower}

-- What the page reads of a definition in the overview: `states` are those of its sparkline.
pub record DagRow : Type 0 where
  pub dag_id : Text
  pub latest_state : Text
  pub paused : Bool
  pub states : List Text

pub data RowFilter : Type 0 where
  all_rows running_rows failed_rows paused_rows : RowFilter

-- `d.latest_state === "failed" || d.latest_state === "timed_out"`
unfoldable pub is_failing : DagRow → Bool
unfolding text_eq
is_failing d = text_eq d.latest_state (codes "failed") || text_eq d.latest_state (codes "timed_out")

unfoldable pub passes_filter : RowFilter → DagRow → Bool
unfolding text_eq is_failing
passes_filter all_rows d = true
passes_filter running_rows d = text_eq d.latest_state (codes "running")
passes_filter failed_rows d = is_failing d
passes_filter paused_rows d = d.paused

unfoldable pub passes_query : Text → DagRow → Bool
passes_query q d = is_empty q || contains q (map lower d.dag_id)

-- `list`
unfoldable pub listed_rows : Text → RowFilter → List DagRow → List DagRow
unfolding passes_query passes_filter
listed_rows q f ds = keep (λ d. passes_query q d && passes_filter f d) ds

-- `list.map((d) => d.dag_id)`
unfoldable pub row_ids : List DagRow → List Text
row_ids ds = map (λ (d : DagRow). d.dag_id) ds
