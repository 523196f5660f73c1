-- ===== src/Run/Poll.antt =====
-- The poll of a run's page: showRun, startRunPoll and renderRunDynamic of views.js. The waits for
-- answers and for the interval end a step. An interval is named by the generation of its showRun.
use cronova.Base.{
  ℕ, suc, Bool, false, ◌||◌, not, List, [], ◌∷◌, keep, Option, none, some, Text, codes, text_eq,
  if◌then◌else◌, ◌==◌,
}

-- `runLive`
unfoldable pub run_live : Text → Bool
unfolding text_eq
run_live s = text_eq s (codes "queued") || text_eq s (codes "running")

-- `runPollGen`, the run of the page if the view is one, the runs that calls of showRun were for, by
-- their generation, the intervals that are set, `runPoll`, the state that is drawn last with its
-- generation, and the count of messages that a run has ended.
pub record PollState : Type 0 where
  pub gen : ℕ
  pub page : Option Text
  pub runs : List (ℕ × Text)
  pub timers : List ℕ
  pub run_poll : Option ℕ
  pub drawn : Option (ℕ × Text)
  pub ended : ℕ

unfoldable pub run_of : List (ℕ × Text) → ℕ → Option Text
run_of [] g = none
run_of ((h, r) ∷ rs) g = let older = run_of rs g in if h == g then some r else older

unfoldable pub same_run : Option Text → Option Text → Bool
unfolding text_eq
same_run none b = false
same_run (some a) none = false
same_run (some a) (some b) = text_eq a b

-- `clearInterval`
unfoldable pub clear_interval : ℕ → List ℕ → List ℕ
clear_interval g ts = keep (λ h. not (h == g)) ts

-- `gen !== runPollGen || view !== "run" || currentRun !== runID`
unfoldable pub is_stale : ℕ → PollState → Bool
unfolding run_of same_run
is_stale g s = not (g == s.gen) || not (same_run s.page (run_of s.runs g))

-- `showRun` up to its request
unfoldable pub show_run : Text → PollState → PollState
unfolding clear_interval
show_run r s = record s {
  gen = suc s.gen;
  page = some r;
  runs = (suc s.gen, r) ∷ s.runs;
  timers = elim s.run_poll [ none ↦ s.timers | some g ↦ clear_interval g s.timers ];
}

-- The first answer of a call of showRun draws the page and starts the poll.
unfoldable pub first_answer : ℕ → Text → PollState → PollState
unfolding run_live
first_answer g st s =
    if run_live st
    then record s { drawn = some (g, st); timers = g ∷ s.timers; run_poll = some g }
    else record s { drawn = some (g, st) }

-- The start of the interval's function, up to its request
unfoldable pub tick : ℕ → PollState → PollState
unfolding is_stale clear_interval
tick g s = if is_stale g s then record s { timers = clear_interval g s.timers } else s

-- The rest of it, from the answer on
unfoldable pub polled : ℕ → Text → PollState → PollState
unfolding is_stale clear_interval run_live
polled g st s =
    if is_stale g s
    then record s { timers = clear_interval g s.timers }
    else if run_live st
    then record s { drawn = some (g, st) }
    else record s { drawn = some (g, st); timers = clear_interval g s.timers; ended = suc s.ended }

pub data PollEvent : Type 0 where
  opened : Text → PollEvent
  left : PollEvent
  first : ℕ → Text → PollEvent
  ticked : ℕ → PollEvent
  answer : ℕ → Text → PollEvent
  no_answer : ℕ → PollEvent

unfoldable pub poll_step : PollEvent → PollState → PollState
poll_step (opened r) s = show_run r s
poll_step left s = record s { page = none }
poll_step (first g st) s = first_answer g st s
poll_step (ticked g) s = tick g s
poll_step (answer g st) s = polled g st s
poll_step (no_answer g) s = s

unfoldable pub poll_run : List PollEvent → PollState → PollState
unfolding poll_step
poll_run [] s = s
poll_run (e ∷ es) s = poll_run es (poll_step e s)
