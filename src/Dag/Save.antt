-- ===== src/Dag/Save.antt =====
-- Saving the definition while it is edited: `saveDag`, `flushSave`, `flushPendingSaves`,
-- `reflectSaveState` and `deleteActiveDag` of internal/web/static/views.js. An `await` ends a step,
-- so a request and its answer are two steps, with any steps between them.
mod Marks
pub mod Delivery
pub mod Delete
pub mod Settles
pub mod Invalid
pub mod Stale
mod Samples
use cronova.Base.{
  ℕ, suc, ◌+◌, ◌==◌, Bool, true, false, ◌||◌, List, [], ◌∷◌, Option, none, some, Text, codes,
  text_eq, is_empty, if◌then◌else◌,
}
use cronova.Dag.Model.{Task, Form}
use cronova.Dag.Validate.{Err, validate}
use cronova.Dag.Spec.{Spec, dag_spec_from}
use cronova.Schedule.{compute_schedule}

-- `D`. `graph_base` is the snapshot that a graph session restores.
pub record Doc : Type 0 where
  pub tasks : List Task
  pub dag : Form
  pub graph_base : Option (List Task)
  pub graph_dirty : ℕ
  pub graph_pending : Option Text
  pub diff_cache : Option Text
  pub diff_open : Bool
  pub connect_mode : Bool
  pub active_task_id : Option Text

pub data Indicator : Type 0 where
  saved saving invalid error : Indicator

-- `timer_set` is whether `saveTimer` holds an id, `armed` whether that timeout is still to fire;
-- `inflight` holds the number of the request under way; `sent` are the requests, latest first.
pub record Editor : Type 0 where
  pub doc : Doc
  pub timer_set : Bool
  pub armed : Bool
  pub save_seq : ℕ
  pub inflight : Option ℕ
  pub pending : Bool
  pub deleting : Bool
  pub shown : Indicator
  pub errors : List Err
  pub sent : List Spec
  pub toasts : List Text

abbrev pub errors_of : Doc → List Err
errors_of d = validate d.tasks d.dag

abbrev pub with_doc : Editor → Doc → Editor
with_doc e d = record e { doc = d }

-- A save takes the pending graph changes with it.
abbrev pub end_session : Doc → Doc
end_session d = record d { graph_base = none; graph_dirty = 0; diff_cache = none }

unfoldable pub schedule_save : Editor → List Err → Editor
schedule_save e [] = record e {
  doc = end_session e.doc;
  timer_set = true;
  armed = true;
  shown = saving;
  errors = [];
}
schedule_save e (x ∷ xs) = record e { shown = invalid; errors = x ∷ xs }

unfoldable pub save_dag : Editor → Editor
save_dag e = if e.deleting then e else schedule_save e (errors_of e.doc)

-- The part of `flushSave` up to the request.
unfoldable pub dispatch : Editor → Editor
dispatch e =
    let d = record e.doc { dag = compute_schedule e.doc.dag } in
    record e {
      doc = d;
      save_seq = suc e.save_seq;
      inflight = some (suc e.save_seq);
      sent = dag_spec_from d.tasks d.dag ∷ e.sent;
    }

unfoldable pub flush_save : Editor → Editor
flush_save e =
    if e.deleting
    then e
    else elim e.inflight [ some seq ↦ record e { pending = true } | none ↦ dispatch e ]

-- `finally`
unfoldable pub settle : Editor → Editor
settle e =
    let idle = record e { inflight = none; pending = false } in
    if e.pending then flush_save idle else record e { inflight = none }

abbrev show_if_latest : ℕ → Indicator → Editor → Editor
show_if_latest seq i e = if seq == e.save_seq then record e { shown = i } else e

abbrev adopt_hash : Text → Doc → Doc
adopt_hash h d = if is_empty h then d else record d { dag = record (d.dag) { definition_hash = h } }

-- After the `await` of a request that succeeded, and in `catch`.
unfoldable pub on_success : Text → ℕ → Editor → Editor
on_success hash seq e = show_if_latest seq saved (with_doc e (adopt_hash hash e.doc))

unfoldable pub on_error : Text → ℕ → Editor → Editor
on_error code seq e =
    let shown = show_if_latest seq error e in
    if text_eq code (codes "dag_conflict")
    then record shown { toasts = codes "err_code_dag_conflict" ∷ shown.toasts }
    else shown

-- `flushPendingSaves` up to its wait.
unfoldable pub flush_pending : Editor → Editor
flush_pending e =
    if e.timer_set then flush_save (record e { timer_set = false; armed = false }) else e

-- `deleteActiveDag` once the dialog is confirmed, up to its wait; then its `finally`.
unfoldable pub begin_delete : Editor → Editor
begin_delete e = record e { deleting = true; timer_set = false; armed = false; pending = false }

unfoldable pub end_delete : Editor → Editor
end_delete e = record e { deleting = false }

unfoldable pub reflect : Editor → Editor
reflect e = elim (errors_of e.doc) [
  | x ∷ xs ↦ record e { shown = invalid; errors = x ∷ xs }
  | [] ↦ record e {
    shown = elim (e.timer_set) [
      | true ↦ saving
      | false ↦ elim e.inflight [ some seq ↦ saving | none ↦ saved ]
    ];
    errors = [];
  }
]

-- What can happen: a handler that changes the tasks and the form and calls `saveDag`, the timeout,
-- an answer, a wait for pending saves, the start and the end of a deletion, and a render.
pub data Event : Type 0 where
  edit : List Task → Form → Event
  fire : Event
  reply_ok reply_error : Text → Event
  await_saves begin_deletion end_deletion render : Event

unfoldable pub step : Editor → Event → Editor
step e (edit ts f) = save_dag (with_doc e (record (e.doc) { tasks = ts; dag = f }))
step e fire = if e.armed then flush_save (record e { armed = false }) else e
step e (reply_ok hash) = elim e.inflight [ some seq ↦ settle (on_success hash seq e) | none ↦ e ]
step e (reply_error code) = elim e.inflight [ some seq ↦ settle (on_error code seq e) | none ↦ e ]
step e await_saves = flush_pending e
step e begin_deletion = begin_delete e
step e end_deletion = end_delete e
step e render = reflect e

unfoldable pub run : Editor → List Event → Editor
run e [] = e
run e (v ∷ vs) = run (step e v) vs
