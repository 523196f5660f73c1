-- ===== src/Charts/Samples.antt =====
-- Tests of durations, and the bounds of a concrete sparkline.
use cronova.Base.{◌≤◌, ◌≡◌, refl, List, [], ◌∷◌, length, All, codes, print_nat, print_from}
use cronova.I18n.{en}
use cronova.Charts.{secs_label, fmt_ms, Point, sparkline}
use cronova.Charts.Heights.{sparkline-bounds}

secs_label_test : secs_label en 3725 ≡ codes "1h2m"
unfolding secs_label print_nat print_from
secs_label_test = refl

fmt_ms_test : fmt_ms 61499 ≡ codes "1m1s"
unfolding fmt_ms print_nat print_from
fmt_ms_test = refl

abbrev two_runs : List Point
two_runs =
    record { state = codes "success"; ms = 900 } ∷ record { state = codes "failed"; ms = 4000 } ∷ []

sparkline-bounds_example :
    (length (sparkline two_runs 2000) ≡ 14)
    × All (λ h. (6 ≤ h) × (h ≤ 22)) (sparkline two_runs 2000)
sparkline-bounds_example = sparkline-bounds two_runs 2000
