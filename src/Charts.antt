-- ===== src/Charts.antt =====
-- Durations and the small bars of runs: secsLabel, fmtMs and sparkline of internal/web/static/base.js.
pub mod Heights
mod Samples
use cronova.Base.{
  ℕ, zero, suc, ◌+◌, ◌-◌, ◌*◌, ◌/◌, ◌%◌, max, Bool, true, false, ◌||◌, List, [], ◌∷◌, ◌++◌, map,
  length, Text, codes, text_eq, is_empty, print_nat, if◌then◌else◌, ltb, leb, ◌==◌,
}
use cronova.I18n.{Lang, t}
use cronova.Run.Tail.{last_of}

-- `secsLabel`
unfoldable pub secs_label : Lang → ℕ → Text
unfolding t print_nat
secs_label l sec =
    if sec == 0
    then t l (codes "set_off") []
    else if ltb sec 60
    then print_nat sec ++ codes "s"
    else if ltb sec 3600
    then (print_nat (sec / 60) ++ codes "m")
      ++ (if sec % 60 == 0 then [] else print_nat (sec % 60) ++ codes "s")
    else (print_nat (sec / 3600) ++ codes "h")
      ++ (if sec % 3600 / 60 == 0 then [] else print_nat (sec % 3600 / 60) ++ codes "m")

-- `fmtMs`, with `Math.round(ms / 1000)`
unfoldable pub fmt_ms : ℕ → Text
unfolding print_nat
fmt_ms ms =
    let s = (ms + 500) / 1000 in
    if ms == 0
    then codes "—"
    else if ltb ms 1000
    then print_nat ms ++ codes "ms"
    else if ltb s 60
    then print_nat s ++ codes "s"
    else (print_nat (s / 60) ++ codes "m") ++ (print_nat (s % 60) ++ codes "s")

-- A point of a sparkline: the state of a run and its duration.
pub record Point : Type 0 where
  pub state : Text
  pub ms : ℕ

unfoldable pub no_run : Point
no_run = record { state = codes "noruns"; ms = 0 }

-- `while (arr.length < 14) arr.unshift(…)`, as many times as there are points missing
unfoldable pub pad_points : ℕ → List Point → List Point
pad_points zero ps = ps
pad_points (suc n) ps = pad_points n (no_run ∷ ps)

-- `arr`
unfoldable pub spark_points : List Point → List Point
unfolding last_of pad_points
spark_points ps = let recent = last_of 14 ps in pad_points (14 - length recent) recent

-- `maxMs`
unfoldable pub max_ms : ℕ → List Point → ℕ
max_ms scale [] = max 1 scale
max_ms scale (p ∷ ps) = max p.ms (max_ms scale ps)

-- `Math.round(LO + (ms / maxMs) * (HI - LO))`, up to the rounding of the machine's fractions
unfoldable pub scaled_height : ℕ → ℕ → ℕ
scaled_height ms top = 6 + (32 * ms + top) / (2 * top)

-- The height of a bar: a short one for no run, one by the duration, or one in the middle.
unfoldable pub spark_height : ℕ → Point → ℕ
unfolding text_eq scaled_height
spark_height top p =
    if is_empty p.state || text_eq p.state (codes "noruns") || text_eq p.state (codes "skipped")
    then 6
    else if ltb 0 p.ms
    then scaled_height p.ms top
    else 15

-- The heights of the bars of `sparkline`.
unfoldable pub sparkline : List Point → ℕ → List ℕ
unfolding max_ms spark_points
sparkline ps scale = map (spark_height (max_ms scale (spark_points ps))) (spark_points ps)
