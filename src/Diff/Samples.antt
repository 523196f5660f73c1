-- ===== src/Diff/Samples.antt =====
-- Runs of the diff and the theorems at small texts.
use cronova.Base.{◌≡◌, ◌≤◌, refl, List, Text, length, [], ◌∷◌, codes, text_eq, split}
use cronova.Diff.{same, del, add, diff_lines}
use cronova.Diff.Sides.{old_side, new_side, diff_lines-sides}
use cronova.Diff.Optimal.{IsSub, kept_lines, diff_lines-kept_most}

three_lines :
    diff_lines (codes "a\nb\nc") (codes "b\nd")
    ≡ record { k = del; s = codes "a" }
      ∷ record { k = same; s = codes "b" }
      ∷ record { k = del; s = codes "c" }
      ∷ record { k = add; s = codes "d" }
      ∷ []
unfolding diff_lines text_eq
three_lines = refl

diff_lines-kept_most_example :
    let kept_ones = kept_lines (diff_lines (codes "a\nb\nc") (codes "a\nx\nc")) in
    IsSub kept_ones (split 10 (codes "a\nb\nc"))
    × IsSub kept_ones (split 10 (codes "a\nx\nc"))
    × ((zs : List Text)
        → IsSub zs (split 10 (codes "a\nb\nc"))
        → IsSub zs (split 10 (codes "a\nx\nc"))
        → length zs ≤ length kept_ones)
diff_lines-kept_most_example = diff_lines-kept_most (codes "a\nb\nc") (codes "a\nx\nc")

diff_lines-sides_example :
    (old_side (diff_lines (codes "a\nb") (codes "b\nd")) ≡ split 10 (codes "a\nb"))
    × (new_side (diff_lines (codes "a\nb") (codes "b\nd")) ≡ split 10 (codes "b\nd"))
diff_lines-sides_example = diff_lines-sides (codes "a\nb") (codes "b\nd")
