-- ===== src/Run/Log.antt =====
-- The live log of a task: `showLog` of views.js. `cap` is LOG_CAP, and `lower` is toLowerCase.
use cronova.Base.{
  ℕ, ◌||◌, not, List, [], ◌∷◌, ◌++◌, length, keep, Text, is_empty, if◌then◌else◌, ltb, leb,
}
use cronova.Wizard.{contains}
use cronova.Run.Tail.{last_of}

-- `LOG_CAP`
abbrev pub log_cap : ℕ
log_cap = 5000

-- What the count beside the filter says.
pub data LogCount : Type 0 where
  no_count : LogCount
  matches : ℕ → LogCount
  capped : LogCount

-- `lines`, `filter`, the text nodes of the box, and the count.
pub record LogState : Type 0 where
  pub lines : List Text
  pub filter : Text
  pub nodes : List Text
  pub log_count : LogCount

-- `shown.join("\n")`
unfoldable pub join_lines : List Text → Text
join_lines [] = []
join_lines (l ∷ []) = l
join_lines (l ∷ m ∷ ls) = l ++ b'\n' ∷ join_lines (m ∷ ls)

-- The nodes after `box.textContent = s`
unfoldable pub content : Text → List Text
content [] = []
content (c ∷ s) = (c ∷ s) ∷ []

-- `box.textContent`
unfoldable pub text_of : List Text → Text
text_of [] = []
text_of (n ∷ ns) = n ++ text_of ns

unfoldable pub shown_lines : (Text → Text) → Text → List Text → List Text
shown_lines lower f ls = if is_empty f then ls else keep (λ l. contains f (lower l)) ls

-- `render`
unfoldable pub render_log : ℕ → (Text → Text) → LogState → LogState
unfolding shown_lines join_lines content
render_log cap lower s = record s {
  nodes = content (join_lines (shown_lines lower s.filter s.lines));
  log_count =
      if is_empty s.filter
      then if leb cap (length s.lines) then capped else no_count
      else matches (length (shown_lines lower s.filter s.lines));
}

-- `$("log-find").oninput`
unfoldable pub set_filter : ℕ → (Text → Text) → Text → LogState → LogState
unfolding render_log
set_filter cap lower v s = render_log cap lower (record s { filter = lower v })

-- `box.appendChild(document.createTextNode((box.firstChild ? "\n" : "") + e.data))`
unfoldable pub append_line : Text → List Text → List Text
append_line l [] = l ∷ []
append_line l (n ∷ ns) = (n ∷ ns) ++ (b'\n' ∷ l) ∷ []

-- `logES.onmessage`
unfoldable pub log_line : ℕ → (Text → Text) → Text → LogState → LogState
unfolding last_of render_log append_line
log_line cap lower l s =
    let all_lines = s.lines ++ l ∷ [] in
    let full = ltb cap (length all_lines) in
    let kept = if full then last_of cap all_lines else all_lines in
    if not (is_empty s.filter) || full
    then render_log cap lower (record s { lines = kept })
    else record s { lines = kept; nodes = append_line l s.nodes }

pub data LogEvent : Type 0 where
  line_came : Text → LogEvent
  typed : Text → LogEvent

unfoldable pub log_step : ℕ → (Text → Text) → LogEvent → LogState → LogState
unfolding log_line set_filter
log_step cap lower (line_came l) s = log_line cap lower l s
log_step cap lower (typed v) s = set_filter cap lower v s

unfoldable pub log_run : ℕ → (Text → Text) → List LogEvent → LogState → LogState
unfolding log_step
log_run cap lower [] s = s
log_run cap lower (e ∷ es) s = log_run cap lower es (log_step cap lower e s)

unfoldable pub empty_log : LogState
empty_log = record { lines = []; filter = []; nodes = []; log_count = no_count }
