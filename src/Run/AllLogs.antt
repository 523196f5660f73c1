-- ===== src/Run/AllLogs.antt =====
-- The log of all tasks of a run, as their streams bring lines: `showAllLogs` of views.js. A stream
-- that has settled is closed and brings nothing more. `cap` is LOG_CAP.
use cronova.Base.{
  ℕ, suc, ◌-◌, ◌%◌, Bool, true, ◌&&◌, not, List, [], ◌∷◌, ◌++◌, length, any, get_or, Text,
  if◌then◌else◌, ltb, leb, ◌==◌,
}

-- A line with the number of its colour and the id of its task, or the notice that no more are shown.
pub data Shown : Type 0 where
  line : ℕ → Text → Text → Shown
  notice : Shown

-- `lineCount`, `open`, the streams that are closed, the box, and the mark of a live log.
pub record AllState : Type 0 where
  pub line_count : ℕ
  pub still_open : ℕ
  pub closed : List ℕ
  pub box : List Shown
  pub live : Bool

pub data AllEvent : Type 0 where
  came : ℕ → Text → AllEvent
  settled : ℕ → AllEvent

-- Whether a stream can still bring something.
unfoldable pub streams_on : List Text → ℕ → AllState → Bool
streams_on ids i s = ltb i (length ids) && not (any (λ j. j == i) s.closed)

unfoldable pub tagged : List Text → ℕ → Text → Shown
tagged ids i x = line (i % 8) (get_or ids i []) x

-- `es.onmessage`
unfoldable pub all_line : ℕ → List Text → ℕ → Text → AllState → AllState
all_line cap ids i x s =
    let c = suc s.line_count in
    if ltb cap c
    then record s { line_count = c; box = if c == suc cap then s.box ++ notice ∷ [] else s.box }
    else record s { line_count = c; box = s.box ++ tagged ids i x ∷ [] }

-- `settle`
unfoldable pub settle_stream : ℕ → AllState → AllState
settle_stream i s = record s {
  closed = i ∷ s.closed;
  still_open = s.still_open - 1;
  live = s.live && not (leb (s.still_open - 1) 0);
}

unfoldable pub all_step : ℕ → List Text → AllEvent → AllState → AllState
all_step cap ids (came i x) s = if streams_on ids i s then all_line cap ids i x s else s
all_step cap ids (settled i) s = if streams_on ids i s then settle_stream i s else s

unfoldable pub all_run : ℕ → List Text → List AllEvent → AllState → AllState
unfolding all_step
all_run cap ids [] s = s
all_run cap ids (e ∷ es) s = all_run cap ids es (all_step cap ids e s)

-- `showAllLogs` of tasks with these ids
unfoldable pub show_all : List Text → AllState
show_all ids = record {
  line_count = 0;
  still_open = length ids;
  closed = [];
  box = [];
  live = true;
}
