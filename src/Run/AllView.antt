-- ===== src/Run/AllView.antt =====
-- The box of the log of all tasks holds the first lines that came and at most one notice.
use mathlib.Core.List.{append-nil, append_assoc}
use cronova.Base.{
  ℕ, zero, suc, ◌≤◌, ◌<◌, ◌≡◌, refl, sym, ap, inl, inr, true, false, Bool-cases, List, [], ◌∷◌,
  ◌++◌, length, length-append, take, Text, if◌then◌else◌, ltb, ◌==◌, arith,
}
use cronova.Run.AllLogs.{
  Shown, notice, AllState, AllEvent, came, settled, streams_on, tagged, all_line, settle_stream,
  all_step, all_run, show_all,
}

-- The lines that open streams bring, in order.
unfoldable pub heard : ℕ → List Text → List AllEvent → AllState → List Shown
heard cap ids [] s = []
heard cap ids (came i x ∷ es) s =
    let rest = heard cap ids es (all_step cap ids (came i x) s) in
    if streams_on ids i s then tagged ids i x ∷ rest else rest
heard cap ids (settled i ∷ es) s = heard cap ids es (all_step cap ids (settled i) s)

-- The first lines, and a notice where there are more.
unfoldable pub clipped : ℕ → List Shown → List Shown
clipped cap ls = take cap ls ++ (if ltb cap (length ls) then notice ∷ [] else [])

take-snoc-lt {ℓ} :
    {A : Type ℓ} (n : ℕ) (xs : List A) (x : A)
    → length xs < n
    → take n (xs ++ x ∷ []) ≡ take n xs ++ x ∷ []
take-snoc-lt zero xs x h = absurd (omega arith)
take-snoc-lt (suc n) [] x h = elim n as (λ k. x ∷ take k [] ≡ x ∷ []) [ zero ↦ refl | suc k ↦ refl ]
take-snoc-lt (suc n) (y ∷ xs) x h = ap (λ r. y ∷ r) (take-snoc-lt n xs x (omega arith))

take-snoc-le {ℓ} :
    {A : Type ℓ} (n : ℕ) (xs : List A) (x : A) → n ≤ length xs → take n (xs ++ x ∷ []) ≡ take n xs
take-snoc-le zero xs x h = refl
take-snoc-le (suc n) [] x h = absurd (omega arith)
take-snoc-le (suc n) (y ∷ xs) x h = ap (λ r. y ∷ r) (take-snoc-le n xs x (omega arith))

abbrev IsClipped : ℕ → List Shown → AllState → Type 0
IsClipped cap h s = (s.box ≡ clipped cap h) × (s.line_count ≡ length h)

clipped-snoc :
    (cap : ℕ) (h : List Shown) (x : Shown)
    → clipped cap (h ++ x ∷ []) ≡ (
        if ltb cap (suc (length h))
        then if suc (length h) == suc cap then clipped cap h ++ notice ∷ [] else clipped cap h
        else clipped cap h ++ x ∷ [])
unfolding clipped
clipped-snoc cap h x = elim (Bool-cases (ltb (length h) cap)) [
  | inl room ↦ ground (
    arith,
    take-snoc-lt cap h x (ground arith),
    length-append h (x ∷ []),
    append-nil (take cap h),
    append-nil (take cap h ++ x ∷ []),
  )
  | inr full ↦ ground (
    arith,
    take-snoc-le cap h x (ground arith),
    length-append h (x ∷ []),
    append-nil (take cap h),
  )
]

all_line-IsClipped :
    (cap : ℕ) (ids : List Text) (i : ℕ) (x : Text) (h : List Shown) (s : AllState)
    → IsClipped cap h s
    → IsClipped cap (h ++ tagged ids i x ∷ []) (all_line cap ids i x s)
unfolding all_line
all_line-IsClipped cap ids i x h s v =
    ground (arith, clipped-snoc cap h (tagged ids i x), length-append h (tagged ids i x ∷ []))

settled-IsClipped :
    (cap : ℕ) (ids : List Text) (i : ℕ) (h : List Shown) (s : AllState)
    → IsClipped cap h s
    → IsClipped cap h (all_step cap ids (settled i) s)
unfolding all_step settle_stream
settled-IsClipped cap ids i h s v = ground arith

step-on :
    (cap : ℕ) (ids : List Text) (i : ℕ) (x : Text) (s : AllState)
    → streams_on ids i s ≡ true
    → all_step cap ids (came i x) s ≡ all_line cap ids i x s
unfolding all_step
step-on cap ids i x s on = rw on refl

step-off :
    (cap : ℕ) (ids : List Text) (i : ℕ) (x : Text) (s : AllState)
    → streams_on ids i s ≡ false
    → all_step cap ids (came i x) s ≡ s
unfolding all_step
step-off cap ids i x s off = rw off refl

all_run-cons :
    (cap : ℕ) (ids : List Text) (e : AllEvent) (es : List AllEvent) (s : AllState)
    → all_run cap ids (e ∷ es) s ≡ all_run cap ids es (all_step cap ids e s)
unfolding all_run
all_run-cons cap ids e es s = refl

heard-came :
    (cap : ℕ) (ids : List Text) (i : ℕ) (x : Text) (es : List AllEvent) (s : AllState)
    → heard cap ids (came i x ∷ es) s ≡ (
        if streams_on ids i s
        then tagged ids i x ∷ heard cap ids es (all_step cap ids (came i x) s)
        else heard cap ids es (all_step cap ids (came i x) s))
unfolding heard
heard-came cap ids i x es s = refl

heard-settled :
    (cap : ℕ) (ids : List Text) (i : ℕ) (es : List AllEvent) (s : AllState)
    → heard cap ids (settled i ∷ es) s ≡ heard cap ids es (all_step cap ids (settled i) s)
unfolding heard
heard-settled cap ids i es s = refl

run_from-IsClipped :
    (cap : ℕ) (ids : List Text) (es : List AllEvent) (h : List Shown) (s : AllState)
    → IsClipped cap h s
    → IsClipped cap (h ++ heard cap ids es s) (all_run cap ids es s)
run_from-IsClipped cap ids [] h s v = unfold heard all_run in rw (append-nil h) v
run_from-IsClipped cap ids (came i x ∷ es) h s v = elim (Bool-cases (streams_on ids i s)) [
  | inl on ↦
      rw
        (
          all_run-cons cap ids (came i x) es s,
          heard-came cap ids i x es s,
          on,
          step-on cap ids i x s on,
          sym (append_assoc h (tagged ids i x ∷ []) (heard cap ids es (all_line cap ids i x s))),
        )
        (run_from-IsClipped cap ids es (h ++ tagged ids i x ∷ []) (all_line cap ids i x s)
          (all_line-IsClipped cap ids i x h s v))
  | inr off ↦
      rw
        (
          all_run-cons cap ids (came i x) es s,
          heard-came cap ids i x es s,
          off,
          step-off cap ids i x s off,
        )
        (run_from-IsClipped cap ids es h s v)
]
run_from-IsClipped cap ids (settled i ∷ es) h s v =
    rw (all_run-cons cap ids (settled i) es s, heard-settled cap ids i es s)
      (run_from-IsClipped cap ids es h (all_step cap ids (settled i) s)
        (settled-IsClipped cap ids i h s v))

clipped-nil : (cap : ℕ) → [] ≡ clipped cap []
unfolding clipped
clipped-nil zero = refl
clipped-nil (suc cap) = ground arith

-- The box of the log of all tasks is the first lines that open streams brought, as many as there is
-- room for, followed by a single notice exactly where there were more.
pub all_run-clipped :
    (cap : ℕ) (ids : List Text) (es : List AllEvent)
    → (all_run cap ids es (show_all ids)).box ≡ clipped cap (heard cap ids es (show_all ids))
unfolding show_all
all_run-clipped cap ids es =
    (run_from-IsClipped cap ids es [] (show_all ids) (clipped-nil cap, refl)).0
