-- ===== src/TopoOrder.antt =====
-- `topoOrder` of internal/web/static/base.js: the order in which a run's steps are numbered.
pub mod Passes
pub mod Waits
mod Samples
use cronova.Base.{
  ℕ, zero, suc, ◌+◌, Bool, true, false, ◌&&◌, ◌||◌, not, List, [], ◌∷◌, ◌++◌, Option, none, some,
  ◌>>=◌, Text, includes, if◌then◌else◌, all, keep, length, ltb,
}
use cronova.Dag.Model.{Task}
use cronova.Dag.Cycle.{known}

-- `out`, `done` with the latest name first, and `progress`.
pub record Order : Type 0 where
  pub out : List Task
  pub done : List Text
  pub progress : Bool

-- `tk.deps.every((d) => done.has(d) || !byId[d])`
abbrev pub can_go : List Task → List Text → Task → Bool
can_go ts done t = all (λ d. includes d done || not (known ts d)) t.deps

abbrev pub is_left : List Text → Task → Bool
is_left done t = not (includes t.id done)

-- The body of the loop over the tasks.
unfoldable pub place : List Task → Task → Order → Order
place ts t s =
    if is_left s.done t && can_go ts s.done t
    then record { out = s.out ++ t ∷ []; done = t.id ∷ s.done; progress = true }
    else s

unfoldable pub pass : List Task → List Task → Order → Order
unfolding place
pass ts [] s = s
pass ts (t ∷ rest) s = pass ts rest (place ts t s)

-- The condition of the outer loop.
abbrev pub goes_on : List Task → Order → Bool
goes_on ts s = ltb (length s.out) (length ts) && s.progress

-- The outer loop; `none` means that the fuel ran out.
unfoldable pub passes : List Task → ℕ → Order → Option Order
unfolding pass
passes ts zero s = none
passes ts (suc fuel) s =
    let next = passes ts fuel (pass ts ts (record s { progress = false })) in
    if goes_on ts s then next else some s

abbrev pub start : Order
start = record { out = []; done = []; progress = true }

-- A pass with progress places a task, and one more finds that there is none.
unfoldable pub topo_order : List Task → Option (List Task)
unfolding passes
topo_order ts = passes ts (length ts + 2) start >>= λ s. some (s.out ++ keep (is_left s.done) ts)
