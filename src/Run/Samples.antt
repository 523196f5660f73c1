-- ===== src/Run/Samples.antt =====
-- Tests of the page of a run, and its theorems at concrete events.
use cronova.Base.{ℕ, ◌≡◌, refl, false, List, [], ◌∷◌, ◌++◌, some, Text, codes, text_eq, arith}
use cronova.Run.Tail.{last_of}
use cronova.Run.Log.{
  log_cap, join_lines, text_of, shown_lines, line_came, typed, LogEvent, log_run, empty_log,
}
use cronova.Run.Joined.{starts_blank}
use cronova.Run.LogView.{received, last_filter, log_run-view}
use cronova.Run.AllLogs.{AllEvent, came, settled, all_run, show_all}
use cronova.Run.AllView.{heard, clipped, all_run-clipped}
use cronova.Run.Poll.{PollState, run_of, run_live, PollEvent, ticked, answer, no_answer, poll_run}
use cronova.Run.Watch.{IsWatched, is_set, poll_run-IsWatched, poll_run-late}
use cronova.Run.Actions.{TaskRun}

abbrev three_lines : List LogEvent
three_lines =
    line_came (codes "start")
    ∷ line_came (codes "error: disk")
    ∷ typed (codes "error")
    ∷ typed []
    ∷ line_came (codes "done")
    ∷ []

log_run-view_example :
    text_of (log_run 2 (λ (s : Text). s) three_lines empty_log).nodes
    ≡ codes "error: disk" ++ b'\n' ∷ codes "done"
unfolding received last_filter last_of shown_lines join_lines starts_blank
log_run-view_example = log_run-view 2 (λ (s : Text). s) three_lines (omega arith) refl

log_cap_test : ◌≡◌ {A = ℕ} log_cap 5000
log_cap_test = refl

abbrev two_tasks : List Text
two_tasks = codes "extract" ∷ codes "load" ∷ []

abbrev mixed : List AllEvent
mixed =
    came 0 (codes "a")
    ∷ came 1 (codes "b")
    ∷ settled 0
    ∷ came 0 (codes "late")
    ∷ came 1 (codes "c")
    ∷ []

all_run-clipped_example :
    (all_run 2 two_tasks mixed (show_all two_tasks)).box
    ≡ clipped 2 (heard 2 two_tasks mixed (show_all two_tasks))
all_run-clipped_example = all_run-clipped 2 two_tasks mixed

-- The page of the run r1, the second that was opened, with its interval set.
abbrev on_r1 : PollState
on_r1 = record {
  gen = 2;
  page = some (codes "r1");
  runs = (2, codes "r1") ∷ (1, codes "r0") ∷ [];
  timers = 2 ∷ 1 ∷ [];
  run_poll = some 2;
  drawn = some (2, codes "running");
  ended = 0;
}

on_r1-IsWatched : IsWatched (codes "r1") on_r1
unfolding run_of
on_r1-IsWatched = (refl, refl, refl)

abbrev quiet : List PollEvent
quiet =
    ticked 2 ∷ answer 1 (codes "success") ∷ no_answer 2 ∷ answer 2 (codes "running") ∷ ticked 1 ∷ []

poll_run-IsWatched_example : IsWatched (codes "r1") (poll_run quiet on_r1)
unfolding run_live text_eq
poll_run-IsWatched_example = poll_run-IsWatched (codes "r1") quiet on_r1 on_r1-IsWatched refl

poll_run-late_example :
    ((poll_run (answer 2 (codes "success") ∷ answer 2 (codes "running") ∷ []) on_r1).drawn
      ≡ some (2, codes "running"))
    × (is_set 2
          (poll_run (answer 2 (codes "success") ∷ answer 2 (codes "running") ∷ []) on_r1).timers
        ≡ false)
unfolding run_live text_eq
poll_run-late_example =
    poll_run-late (codes "r1") (codes "success") (codes "running") on_r1 on_r1-IsWatched refl refl

abbrev finished : List TaskRun
finished =
    record { id = 1; task_id = codes "extract"; state = codes "success" }
    ∷ record { id = 2; task_id = codes "load"; state = codes "failed" }
    ∷ []
