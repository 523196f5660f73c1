-- ===== src/Dashboard/Bulk.antt =====
-- The selection of rows and what is done with it: wireBulk, renderBulkBar and runBulk. The set of the
-- selected ids keeps their order.
use cronova.Base.{
  ℕ, suc, Bool, not, List, [], ◌∷◌, ◌++◌, map, keep, includes, take, Text, codes, text_eq,
  if◌then◌else◌,
}
use cronova.Dag.Validate.{lower}
use cronova.Session.Api.{Result, returned, thrown}
use cronova.Dashboard.Rows.{DagRow, RowFilter, listed_rows, row_ids}

-- The definitions of the overview, `query`, `filter` and `bulkSel`.
pub record Dashboard : Type 0 where
  pub dags : List DagRow
  pub query : Text
  pub filter : RowFilter
  pub bulk_sel : List Text

-- The ids of the rows on the page; an empty overview has no table.
unfoldable pub listed : Dashboard → List Text
unfolding listed_rows row_ids
listed s = row_ids (listed_rows s.query s.filter s.dags)

-- `bulkSel.add`, `bulkSel.delete`
unfoldable pub set_add : Text → List Text → List Text
unfolding text_eq
set_add i xs = if includes i xs then xs else xs ++ i ∷ []

unfoldable pub set_delete : Text → List Text → List Text
unfolding text_eq
set_delete i xs = keep (λ x. not (text_eq x i)) xs

unfoldable pub add_all : List Text → List Text → List Text
add_all [] xs = xs
add_all (i ∷ is) xs = add_all is (set_add i xs)

unfoldable pub delete_all : List Text → List Text → List Text
delete_all [] xs = xs
delete_all (i ∷ is) xs = delete_all is (set_delete i xs)

-- renderDags, with wireBulk at its end: an empty overview returns before it.
unfoldable pub render_dags : Dashboard → Dashboard
render_dags s = elim s.dags [
  | [] ↦ s
  | d ∷ ds ↦ record s { bulk_sel = keep (λ i. includes i (listed s)) s.bulk_sel }
]

pub data DashEvent : Type 0 where
  refreshed : List DagRow → DashEvent
  searched : Text → DashEvent
  filtered : RowFilter → DashEvent
  ticked_row : Text → Bool → DashEvent
  ticked_all : Bool → DashEvent
  cleared : DashEvent

-- A row has its box only if it is on the page.
unfoldable pub dash_step : DashEvent → Dashboard → Dashboard
dash_step (refreshed ds) s = render_dags (record s { dags = ds })
dash_step (searched q) s = render_dags (record s { query = map lower q })
dash_step (filtered f) s = render_dags (record s { filter = f })
dash_step (ticked_row i on) s =
    if includes i (listed s)
    then record s { bulk_sel = if on then set_add i s.bulk_sel else set_delete i s.bulk_sel }
    else s
dash_step (ticked_all on) s = record s {
  bulk_sel = if on then add_all (listed s) s.bulk_sel else delete_all (listed s) s.bulk_sel;
}
dash_step cleared s = render_dags (record s { bulk_sel = [] })

unfoldable pub dash_run : List DashEvent → Dashboard → Dashboard
dash_run [] s = s
dash_run (e ∷ es) s = dash_run es (dash_step e s)

pub data BulkOp : Type 0 where
  pause_op resume_op trigger_op delete_op : BulkOp

-- `call`: the method and the path of a request, with encodeURIComponent as an argument.
unfoldable pub bulk_request : (Text → Text) → BulkOp → Text → Text × Text
bulk_request encode pause_op i =
    (codes "POST", codes "/api/dags/" ++ (encode i ++ codes "/pause?paused=true"))
bulk_request encode resume_op i =
    (codes "POST", codes "/api/dags/" ++ (encode i ++ codes "/pause?paused=false"))
bulk_request encode trigger_op i =
    (codes "POST", codes "/api/dags/" ++ (encode i ++ codes "/trigger"))
bulk_request encode delete_op i = (codes "DELETE", codes "/api/dags/" ++ encode i)

-- What an operation did: its requests in order, how many went well, and what the others said.
pub record BulkDone : Type 0 where
  pub requests : List (Text × Text)
  pub went_well : ℕ
  pub fails : List Text

-- One turn of the loop, with the answer to its request.
unfoldable pub bulk_turn : (Text → Text) → BulkOp → Text → Result (Unit {0}) → BulkDone → BulkDone
unfolding bulk_request
bulk_turn encode op i (returned u) b = record b {
  requests = b.requests ++ bulk_request encode op i ∷ [];
  went_well = suc b.went_well;
}
bulk_turn encode op i (thrown f) b = record b {
  requests = b.requests ++ bulk_request encode op i ∷ [];
  fails = b.fails ++ (i ++ (codes ": " ++ f.message)) ∷ [];
}

-- The loop over the ids, given the answer to each request.
unfoldable pub bulk_loop :
    (Text → Text) → BulkOp → (Text → Result (Unit {0})) → List Text → BulkDone → BulkDone
bulk_loop encode op reply [] b = b
bulk_loop encode op reply (i ∷ is) b =
    bulk_loop encode op reply is (bulk_turn encode op i (reply i) b)

unfoldable pub nothing_done : BulkDone
nothing_done = record { requests = []; went_well = 0; fails = [] }

-- `[...bulkSel]`, where there is a bar to press: there is none without rows.
unfoldable pub bulk_ids : Dashboard → List Text
bulk_ids s = elim s.dags [ [] ↦ [] | d ∷ ds ↦ s.bulk_sel ]

-- `runBulk` on the selection, once a deletion is confirmed.
unfoldable pub run_bulk :
    (Text → Text) → BulkOp → (Text → Result (Unit {0})) → Dashboard → BulkDone × Dashboard
unfolding bulk_loop nothing_done bulk_ids
run_bulk encode op reply s =
    (bulk_loop encode op reply (bulk_ids s) nothing_done, record s { bulk_sel = [] })

-- `fails.slice(0, 3)`
unfoldable pub fail_toasts : BulkDone → List Text
fail_toasts b = take 3 b.fails
