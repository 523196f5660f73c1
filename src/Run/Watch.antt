-- ===== src/Run/Watch.antt =====
-- A live run stays watched until it ends or the page is left; and what a late answer does.
use cronova.Base.{
  ℕ, suc, ◌≡◌, refl, Bool, true, false, ◌||◌, not, Bool-cases, inl, inr, List, [], ◌∷◌, any, all,
  subst, sym, ◌∙◌, ==_iff, some, Text, text_eq_self, ◌==◌, arith,
}
use cronova.Run.Poll.{
  run_live, PollState, run_of, same_run, clear_interval, is_stale, first_answer, tick, polled,
  PollEvent, opened, left, first, ticked, answer, no_answer, poll_step, poll_run,
}

abbrev pub is_set : ℕ → List ℕ → Bool
is_set g ts = any (λ h. h == g) ts

-- The page is of this run, and its interval is set.
abbrev pub IsWatched : Text → PollState → Type 0
IsWatched r s = (s.page ≡ some r) × (run_of s.runs s.gen ≡ some r) × (is_set s.gen s.timers ≡ true)

-- Whether an event leaves a page with this generation open: no other page is opened, and no answer to
-- its poll says that the run has ended.
abbrev pub leaves_open : ℕ → PollEvent → Bool
leaves_open g (opened r) = false
leaves_open g left = false
leaves_open g (answer h st) = not (h == g) || run_live st
leaves_open g (first h st) = true
leaves_open g (ticked h) = true
leaves_open g (no_answer h) = true

is_set-clear_interval :
    (g h : ℕ) (ts : List ℕ) → (h == g) ≡ false → is_set g (clear_interval h ts) ≡ is_set g ts
unfolding clear_interval
is_set-clear_interval g h [] e = refl
is_set-clear_interval g h (k ∷ ts) e = ground (arith, is_set-clear_interval g h ts e)

is_stale-own :
    (r : Text) (s : PollState)
    → s.page ≡ some r
    → run_of s.runs s.gen ≡ some r
    → is_stale s.gen s ≡ false
unfolding is_stale same_run
is_stale-own r s p q = rw (p, q) (ground (arith, text_eq_self r))

is_stale-other :
    (r : Text) (g : ℕ) (s : PollState) → IsWatched r s → is_stale g s ≡ true → (g == s.gen) ≡ false
is_stale-other r g s w e = elim (Bool-cases (g == s.gen)) [
  | inl own ↦
      (let same : g ≡ s.gen = (==_iff g s.gen).0 own in
        let fresh : is_stale g s ≡ false = rw same (is_stale-own r s w.0 w.1) in absurd (cc))
  | inr other ↦ other
]

clear-IsWatched :
    (r : Text) (g : ℕ) (s : PollState)
    → IsWatched r s
    → (g == s.gen) ≡ false
    → IsWatched r (record s { timers = clear_interval g s.timers })
clear-IsWatched r g s w e = (w.0, w.1, is_set-clear_interval s.gen g s.timers e ∙ w.2)

tick-IsWatched : (r : Text) (g : ℕ) (s : PollState) → IsWatched r s → IsWatched r (tick g s)
unfolding tick
tick-IsWatched r g s w = elim (Bool-cases (is_stale g s)) [
  | inl stale ↦ rw stale (clear-IsWatched r g s w (is_stale-other r g s w stale))
  | inr fresh ↦ rw fresh w
]

first_answer-IsWatched :
    (r : Text) (g : ℕ) (st : Text) (s : PollState)
    → IsWatched r s
    → IsWatched r (first_answer g st s)
unfolding first_answer
first_answer-IsWatched r g st s w = ground arith

polled-IsWatched :
    (r : Text) (g : ℕ) (st : Text) (s : PollState)
    → (not (g == s.gen) || run_live st) ≡ true
    → IsWatched r s
    → IsWatched r (polled g st s)
unfolding polled
polled-IsWatched r g st s o w = elim (Bool-cases (is_stale g s)) [
  | inl stale ↦ rw stale (clear-IsWatched r g s w (is_stale-other r g s w stale))
  | inr fresh ↦ rw fresh (elim (Bool-cases (run_live st)) [
    | inl on ↦ rw on w
    | inr over ↦ rw over (
        let other : (g == s.gen) ≡ false = ground arith in
        (w.0, w.1, is_set-clear_interval s.gen g s.timers other ∙ w.2))
  ])
]

poll_step-IsWatched :
    (r : Text) (e : PollEvent) (s : PollState)
    → leaves_open s.gen e ≡ true
    → IsWatched r s
    → IsWatched r (poll_step e s)
unfolding poll_step
poll_step-IsWatched r (opened q) s o w = absurd (cc)
poll_step-IsWatched r left s o w = absurd (cc)
poll_step-IsWatched r (first h st) s o w = first_answer-IsWatched r h st s w
poll_step-IsWatched r (ticked h) s o w = tick-IsWatched r h s w
poll_step-IsWatched r (answer h st) s o w = polled-IsWatched r h st s o w
poll_step-IsWatched r (no_answer h) s o w = w

poll_step-gen :
    (e : PollEvent) (s : PollState) → leaves_open s.gen e ≡ true → (poll_step e s).gen ≡ s.gen
unfolding poll_step first_answer tick polled
poll_step-gen (opened q) s o = absurd (cc)
poll_step-gen left s o = absurd (cc)
poll_step-gen (first h st) s o = ground arith
poll_step-gen (ticked h) s o = ground arith
poll_step-gen (answer h st) s o = ground arith
poll_step-gen (no_answer h) s o = refl

-- A page whose run is polled stays so: its interval stays set through any answers, late ones to
-- earlier pages and failures included, until another page is opened or an answer to its own poll says
-- that the run has ended.
pub poll_run-IsWatched :
    (r : Text) (es : List PollEvent) (s : PollState)
    → IsWatched r s
    → all (leaves_open s.gen) es ≡ true
    → IsWatched r (poll_run es s)
unfolding poll_run
poll_run-IsWatched r [] s w o = w
poll_run-IsWatched r (e ∷ es) s w o =
    let here : leaves_open s.gen e ≡ true = ground arith in
    let later : all (leaves_open s.gen) es ≡ true = ground arith in
    poll_run-IsWatched r es (poll_step e s) (poll_step-IsWatched r e s here w)
      (subst (λ g. all (leaves_open g) es ≡ true) (sym (poll_step-gen e s here)) later)

polled-ends :
    (r st : Text) (s : PollState)
    → IsWatched r s
    → run_live st ≡ false
    → polled s.gen st s ≡ record s {
      drawn = some (s.gen, st);
      timers = clear_interval s.gen s.timers;
      ended = suc s.ended;
    }
unfolding polled
polled-ends r st s w over = rw (is_stale-own r s w.0 w.1, over) refl

polled-draws :
    (r st : Text) (s : PollState)
    → s.page ≡ some r
    → run_of s.runs s.gen ≡ some r
    → run_live st ≡ true
    → polled s.gen st s ≡ record s { drawn = some (s.gen, st) }
unfolding polled
polled-draws r st s p q on = rw (is_stale-own r s p q, on) refl

is_set-clear_own : (g : ℕ) (ts : List ℕ) → is_set g (clear_interval g ts) ≡ false
unfolding clear_interval
is_set-clear_own g [] = refl
is_set-clear_own g (k ∷ ts) = ground (arith, is_set-clear_own g ts)

-- Where two answers to the poll of a page come out of order, the one that says that the run has ended
-- before one that was sent while it was live, the page is left showing the live state with no
-- interval set to correct it.
pub poll_run-late :
    (r over live : Text) (s : PollState)
    → IsWatched r s
    → run_live over ≡ false
    → run_live live ≡ true
    → ((poll_run (answer s.gen over ∷ answer s.gen live ∷ []) s).drawn ≡ some (s.gen, live))
      × (is_set s.gen (poll_run (answer s.gen over ∷ answer s.gen live ∷ []) s).timers ≡ false)
unfolding poll_run poll_step
poll_run-late r over live s w o l =
    let s' : PollState = record s {
      drawn = some (s.gen, over);
      timers = clear_interval s.gen s.timers;
      ended = suc s.ended;
    } in
    rw (polled-ends r over s w o, polled-draws r live s' w.0 w.1 l)
      (refl, is_set-clear_own s.gen s.timers)
