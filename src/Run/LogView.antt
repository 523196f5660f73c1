-- ===== src/Run/LogView.antt =====
-- The box of the live log shows the last lines that came, those that pass the filter, however its
-- handlers built it up.
use mathlib.Core.List.{append-nil, append_assoc}
use cronova.Base.{
  ℕ, ◌≤◌, ◌≡◌, refl, sym, ap, ◌∙◌, inl, inr, Bool, true, false, ◌||◌, not, Bool-cases, List, [],
  ◌∷◌, ◌++◌, length, subst, Text, is_empty, if◌then◌else◌, ltb, arith,
}
use cronova.Run.Tail.{last_of, last_of-short, last_of-snoc}
use cronova.Run.Log.{
  LogState, join_lines, content, text_of, shown_lines, render_log, set_filter, append_line,
  log_line, LogEvent, line_came, typed, log_step, log_run, empty_log,
}
use cronova.Run.Joined.{
  text_of-content, starts_blank, starts_blank-append, starts_blank-left, append_line-text,
  append_line-nil, snoc-nil, shown_lines-all, join_lines-content,
}

abbrev pub IsShown : ℕ → (Text → Text) → List Text → Text → LogState → Type 0
IsShown cap lower r f s =
    (s.lines ≡ last_of cap r)
    × (s.filter ≡ f)
    × (text_of s.nodes ≡ join_lines (shown_lines lower f (last_of cap r)))
    × (is_empty f ≡ true → s.nodes ≡ [] → s.lines ≡ [])
    × (is_empty f ≡ true → s.lines ≡ [] → s.nodes ≡ [])

render_log-IsShown :
    (cap : ℕ) (lower : Text → Text) (r : List Text) (s : LogState)
    → 2 ≤ cap
    → starts_blank r ≡ false
    → s.lines ≡ last_of cap r
    → IsShown cap lower r s.filter (render_log cap lower s)
unfolding render_log
render_log-IsShown cap lower r s two b e = (
  e,
  refl,
  text_of-content (join_lines (shown_lines lower s.filter s.lines))
      ∙ ap (λ ls. join_lines (shown_lines lower s.filter ls)) e,
  λ f n.
      e
      ∙ join_lines-content cap r two b (
          ap (λ ls. content (join_lines ls))
            (sym e ∙ sym (shown_lines-all lower s.filter s.lines f))
          ∙ n),
  λ f n. ap (λ ls. content (join_lines ls)) (shown_lines-all lower s.filter s.lines f ∙ n),
)

-- The lines that are kept when one comes.
kept_lines :
    (cap : ℕ) (r ls : List Text) (x : Text)
    → ls ≡ last_of cap r
    → (if ltb cap (length (ls ++ x ∷ [])) then last_of cap (ls ++ x ∷ []) else ls ++ x ∷ [])
      ≡ last_of cap (r ++ x ∷ [])
kept_lines cap r ls x e =
    let all_lines : List Text = ls ++ x ∷ [] in
    let same : last_of cap all_lines ≡ last_of cap (r ++ x ∷ []) =
      ap (λ (k : List Text). last_of cap (k ++ x ∷ [])) e ∙ last_of-snoc cap r x in
    elim (Bool-cases (ltb cap (length all_lines))) [
      | inl full ↦ rw full same
      | inr room ↦ rw room (sym (last_of-short cap all_lines (ground arith)) ∙ same)
    ]

-- A line comes, nothing is filtered, and there is room.
fast-IsShown :
    (cap : ℕ) (lower : Text → Text) (r : List Text) (f x : Text) (s : LogState) (kept : List Text)
    → kept ≡ last_of cap (r ++ x ∷ [])
    → kept ≡ s.lines ++ x ∷ []
    → is_empty f ≡ true
    → IsShown cap lower r f s
    → IsShown cap lower (r ++ x ∷ []) f (record s { lines = kept; nodes = append_line x s.nodes })
fast-IsShown cap lower r f x s kept same room empty h =
    let before : text_of s.nodes ≡ join_lines s.lines =
      h.2 ∙ ap join_lines (shown_lines-all lower f (last_of cap r) empty ∙ sym h.0) in
    (
      same,
      h.1,
      append_line-text s.lines x s.nodes before (h.3 empty) (h.4 empty)
          ∙ ap join_lines (sym room ∙ same)
          ∙ ap join_lines (sym (shown_lines-all lower f (last_of cap (r ++ x ∷ [])) empty)),
      λ e n. absurd (append_line-nil x s.nodes n),
      λ e n. absurd (snoc-nil s.lines x (sym room ∙ n)),
    )

log_line-IsShown :
    (cap : ℕ) (lower : Text → Text) (r : List Text) (f x : Text) (s : LogState)
    → 2 ≤ cap
    → starts_blank (r ++ x ∷ []) ≡ false
    → IsShown cap lower r f s
    → IsShown cap lower (r ++ x ∷ []) f (log_line cap lower x s)
unfolding log_line
log_line-IsShown cap lower r f x s two b h =
    let full : Bool = ltb cap (length (s.lines ++ x ∷ [])) in
    let kept : List Text = if full then last_of cap (s.lines ++ x ∷ []) else s.lines ++ x ∷ [] in
    let same : kept ≡ last_of cap (r ++ x ∷ []) = kept_lines cap r s.lines x h.0 in
    let s' : LogState = record s { lines = kept } in
    elim (Bool-cases (not (is_empty s.filter) || full)) [
      | inl t ↦ rw t (
          subst (λ g. IsShown cap lower (r ++ x ∷ []) g (render_log cap lower s')) h.1
            (render_log-IsShown cap lower (r ++ x ∷ []) s' two b same))
      | inr t ↦ rw t (
          let room : full ≡ false = ground arith in
          let all_kept : kept ≡ s.lines ++ x ∷ [] = rw room refl in
          let empty : is_empty s.filter ≡ true = ground arith in
          fast-IsShown cap lower r f x s kept same all_kept
            (subst (λ g. is_empty g ≡ true) h.1 empty) h)
    ]

-- The lines that came, and the filter, after more events.
unfoldable pub received : List LogEvent → List Text
received [] = []
received (line_came l ∷ es) = l ∷ received es
received (typed v ∷ es) = received es

unfoldable pub last_filter : (Text → Text) → Text → List LogEvent → Text
last_filter lower f [] = f
last_filter lower f (line_came l ∷ es) = last_filter lower f es
last_filter lower f (typed v ∷ es) = last_filter lower (lower v) es

run_from-IsShown :
    (cap : ℕ) (lower : Text → Text) (es : List LogEvent) (r : List Text) (f : Text) (s : LogState)
    → 2 ≤ cap
    → starts_blank (r ++ received es) ≡ false
    → IsShown cap lower r f s
    → IsShown cap lower (r ++ received es) (last_filter lower f es) (log_run cap lower es s)
unfolding log_run log_step received last_filter set_filter
run_from-IsShown cap lower [] r f s two b h = rw (append-nil r) h
run_from-IsShown cap lower (line_came l ∷ es) r f s two b h =
    let whole : (r ++ l ∷ []) ++ received es ≡ r ++ l ∷ received es =
      append_assoc r (l ∷ []) (received es) in
    subst
      (λ q.
        IsShown cap lower q (last_filter lower f es)
          (log_run cap lower es (log_line cap lower l s)))
      whole
      (run_from-IsShown cap lower es (r ++ l ∷ []) f (log_line cap lower l s) two
        (ap starts_blank whole ∙ b)
        (log_line-IsShown cap lower r f l s two (sym (starts_blank-append r l (received es)) ∙ b)
          h))
run_from-IsShown cap lower (typed v ∷ es) r f s two b h =
    run_from-IsShown cap lower es r (lower v) (render_log cap lower (record s { filter = lower v }))
      two b
      (render_log-IsShown cap lower r (record s { filter = lower v }) two
        (starts_blank-left r (received es) b) h.0)

-- With room for two lines or more, and where the first line that comes is not blank, the text of the
-- box is the last lines that came, those that pass the filter, joined by line ends, after any lines
-- and any changes of the filter in any order.
pub log_run-view :
    (cap : ℕ) (lower : Text → Text) (es : List LogEvent)
    → 2 ≤ cap
    → starts_blank (received es) ≡ false
    → text_of (log_run cap lower es empty_log).nodes
      ≡ join_lines (shown_lines lower (last_filter lower [] es) (last_of cap (received es)))
unfolding empty_log text_of join_lines shown_lines
log_run-view cap lower es two b =
    let nil : [] ≡ last_of cap [] = sym (last_of-short {A = Text} cap [] (omega arith)) in
    (run_from-IsShown cap lower es [] [] empty_log two b
      (nil, refl, ap (λ ls. join_lines (shown_lines lower [] ls)) nil, λ e n. refl, λ e n. refl)).2
