-- ===== src/Charts/Heights.antt =====
-- A sparkline has fourteen bars, and each stays within its height.
use native.Mathlib.Nat.{le-div_iff_mul-le}
use cronova.Base.{
  ℕ, zero, suc, ◌+◌, ◌-◌, ◌*◌, ◌/◌, ◌≤◌, ◌<◌, max, ◌≡◌, refl, Bool-cases, inl, inr, List, [], ◌∷◌,
  map, length, All, leb, leb→le, arith,
}
use cronova.Run.Tail.{last_of, length-last_of}
use cronova.Charts.{
  Point, no_run, pad_points, spark_points, max_ms, scaled_height, spark_height, sparkline,
}

length-pad_points : (n : ℕ) (ps : List Point) → length (pad_points n ps) ≡ n + length ps
unfolding pad_points
length-pad_points zero ps = omega arith
length-pad_points (suc n) ps = omega (arith, length-pad_points n (no_run ∷ ps))

length-spark_points : (ps : List Point) → length (spark_points ps) ≡ 14
unfolding spark_points
length-spark_points ps =
    omega
      (arith, length-pad_points (14 - length (last_of 14 ps)) (last_of 14 ps), length-last_of 14 ps)

length-map : (f : Point → ℕ) (ps : List Point) → length (map f ps) ≡ length ps
length-map f [] = refl
length-map f (p ∷ ps) = omega (arith, length-map f ps)

max_ms-pos : (scale : ℕ) (ps : List Point) → 0 < max_ms scale ps
unfolding max_ms
max_ms-pos scale [] = omega arith
max_ms-pos scale (p ∷ ps) = omega (arith, max_ms-pos scale ps)

scaled_height-le : (ms top : ℕ) → ms ≤ top → 0 < top → scaled_height ms top ≤ 22
unfolding scaled_height
scaled_height-le ms top h z =
    let pos : 0 < 2 * top = omega arith in
    elim (Bool-cases (leb ((32 * ms + top) / (2 * top)) 16)) [
      | inl low ↦ omega (arith, leb→le ((32 * ms + top) / (2 * top)) 16 low)
      | inr high ↦
          (let above : 17 ≤ (32 * ms + top) / (2 * top) = ground arith in
            absurd (omega (arith, (le-div_iff_mul-le pos).0 above)))
    ]

spark_height-bounds :
    (top : ℕ) (p : Point)
    → p.ms ≤ top
    → 0 < top
    → (6 ≤ spark_height top p) × (spark_height top p ≤ 22)
unfolding spark_height
spark_height-bounds top p h z =
    let high : scaled_height p.ms top ≤ 22 = scaled_height-le p.ms top h z in
    let low : 6 ≤ scaled_height p.ms top = unfold scaled_height in omega arith in
    (ground arith, ground arith)

All-spark_height :
    (top : ℕ) (ps : List Point)
    → 0 < top
    → All (λ (p : Point). p.ms ≤ top) ps
    → All (λ h. (6 ≤ h) × (h ≤ 22)) (map (spark_height top) ps)
All-spark_height top [] z h = tt
All-spark_height top (p ∷ ps) z h = (spark_height-bounds top p h.0 z, All-spark_height top ps z h.1)

All-le_max :
    (a b : ℕ) (ps : List Point)
    → a ≤ b
    → All (λ (p : Point). p.ms ≤ a) ps
    → All (λ (p : Point). p.ms ≤ b) ps
All-le_max a b [] e h = tt
All-le_max a b (p ∷ ps) e h = (omega (arith, h.0), All-le_max a b ps e h.1)

All-max_ms : (scale : ℕ) (ps : List Point) → All (λ (p : Point). p.ms ≤ max_ms scale ps) ps
unfolding max_ms
All-max_ms scale [] = tt
All-max_ms scale (p ∷ ps) = (
  omega arith,
  All-le_max (max_ms scale ps) (max p.ms (max_ms scale ps)) ps (omega arith) (All-max_ms scale ps),
)

-- A sparkline of any runs and any scale has fourteen bars, each at least 6 and at most 22 pixels high.
pub sparkline-bounds :
    (ps : List Point) (scale : ℕ)
    → (length (sparkline ps scale) ≡ 14) × All (λ h. (6 ≤ h) × (h ≤ 22)) (sparkline ps scale)
unfolding sparkline
sparkline-bounds ps scale =
    let points : List Point = spark_points ps in
    (
      omega (arith, length-map (spark_height (max_ms scale points)) points, length-spark_points ps),
      All-spark_height (max_ms scale points) points (max_ms-pos scale points)
          (All-max_ms scale points),
    )
