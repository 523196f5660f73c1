-- ===== src/Schedule/RoundTrip.antt =====
-- Reading a schedule into the controls and writing it back.
use cronova.Base.{
  ℕ, suc, ◌≡◌, ◌⊎◌, refl, ap, ◌∙◌, true, false, [], ◌∷◌, ◌++◌, Option, none, some, all, Text, codes,
  is_digit, is_space, is_empty, span, read_nat, print_nat, skip_spaces, span-append, all-print_nat,
  print_nat_cons, read_nat-print_nat, arith, if◌then◌else◌, ltb, inl, inr,
}
use cronova.Dag.Model.{pos, every, Form}
use cronova.Schedule.{
  unit_end, interval_end, match_every, parse_schedule_state, print_int, is_positive, schedule_of,
  compute_schedule,
}

abbrev pub IsUnit : Text → Type 0
IsUnit u = (u ≡ codes "s") ⊎ (u ≡ codes "m") ⊎ (u ≡ codes "h")

digit_not_space : (c : ℕ) → is_digit c ≡ true → is_space c ≡ false
unfolding is_digit is_space
digit_not_space c h = ground arith

-- No white space is skipped before a printed number.
span-print_nat : (n : ℕ) (u : Text) → (span is_space (print_nat n ++ u)).1 ≡ print_nat n ++ u
unfolding span
span-print_nat n u =
    let (c, s, e) = print_nat_cons n in
    let digits : all is_digit (c ∷ s) ≡ true = rw e at (all-print_nat n) in
    let first : is_digit c ≡ true = ground arith in rw e (rw (digit_not_space c first) refl)

interval_end-print :
    (n x : ℕ)
    → is_digit x ≡ false
    → unit_end (x ∷ []) ≡ some (x ∷ [])
    → interval_end (span is_digit (print_nat n ++ x ∷ [])) ≡ some (n, x ∷ [])
unfolding interval_end
interval_end-print n x h k =
    let (c, s, e) = print_nat_cons n in
    let back : read_nat (c ∷ s) ≡ n = rw (← e) (read_nat-print_nat n) in
    rw (span-append is_digit (print_nat n) x [] (all-print_nat n) h) (rw e (rw (k, back) refl))

interval_end-unit :
    (n : ℕ) (u : Text) → IsUnit u → interval_end (span is_digit (print_nat n ++ u)) ≡ some (n, u)
unfolding is_digit unit_end
interval_end-unit n u (inl e) = rw e (interval_end-print n b's' refl refl)
interval_end-unit n u (inr (inl e)) = rw e (interval_end-print n b'm' refl refl)
interval_end-unit n u (inr (inr e)) = rw e (interval_end-print n b'h' refl refl)

match_every-print :
    (n : ℕ) (u : Text) → IsUnit u → match_every (codes "@every " ++ print_nat n ++ u) ≡ some (n, u)
unfolding match_every
match_every-print n u h = rw (span-print_nat n u) (interval_end-unit n u h)

schedule_of-every :
    (d : Form) (n : ℕ)
    → d.sched_mode ≡ every
    → d.sched_every ≡ pos (suc n)
    → schedule_of d.sched_mode d ≡ codes "@every " ++ print_nat (suc n) ++ d.sched_unit
unfolding schedule_of print_int is_positive
schedule_of-every d n m e = ground arith

parse-every :
    (d : Form) (n : ℕ) (u : Text)
    → is_empty d.schedule ≡ false
    → match_every d.schedule ≡ some (n, u)
    → ((parse_schedule_state d).sched_mode ≡ every)
      × ((parse_schedule_state d).sched_every ≡ pos n)
      × ((parse_schedule_state d).sched_unit ≡ u)
unfolding parse_schedule_state
parse-every d n u some_text e = ground arith

-- A written interval of at least one unit is read back as it was: the mode, the number and the
-- unit.
pub parse_schedule_state-compute_schedule :
    (d : Form) (n : ℕ)
    → d.sched_mode ≡ every
    → d.sched_every ≡ pos (suc n)
    → IsUnit d.sched_unit
    → ((parse_schedule_state (compute_schedule d)).sched_mode ≡ every)
      × ((parse_schedule_state (compute_schedule d)).sched_every ≡ pos (suc n))
      × ((parse_schedule_state (compute_schedule d)).sched_unit ≡ d.sched_unit)
unfolding compute_schedule
parse_schedule_state-compute_schedule d n m e h =
    let written : schedule_of d.sched_mode d
        ≡ codes "@every " ++ print_nat (suc n) ++ d.sched_unit =
      schedule_of-every d n m e in
    parse-every (compute_schedule d) (suc n) d.sched_unit (rw written refl)
      (rw written (match_every-print (suc n) d.sched_unit h))

-- One interval as it may be written: white space, digits and a unit after the word.
pub record IsInterval (schedule gap digits unit : Text) : Type 0 where
  pub spelled : schedule ≡ codes "@every" ++ (gap ++ (digits ++ unit))
  pub some_gap : is_empty gap ≡ false
  pub gap_spaces : all is_space gap ≡ true
  pub some_digits : is_empty digits ≡ false
  pub all_digits : all is_digit digits ≡ true
  pub unit_known : IsUnit unit

interval_end-digits :
    (d : ℕ) (ds u : Text)
    → all is_digit (d ∷ ds) ≡ true
    → IsUnit u
    → interval_end (span is_digit ((d ∷ ds) ++ u)) ≡ some (read_nat (d ∷ ds), u)
unfolding interval_end unit_end is_digit
interval_end-digits d ds u h (inl e) = rw (e, span-append is_digit (d ∷ ds) b's' [] h refl) refl
interval_end-digits d ds u h (inr (inl e)) =
    rw (e, span-append is_digit (d ∷ ds) b'm' [] h refl) refl
interval_end-digits d ds u h (inr (inr e)) =
    rw (e, span-append is_digit (d ∷ ds) b'h' [] h refl) refl

skip_spaces-gap :
    (gap : Text) (d : ℕ) (rest : Text)
    → is_empty gap ≡ false
    → all is_space gap ≡ true
    → is_space d ≡ false
    → skip_spaces (gap ++ d ∷ rest) ≡ some (d ∷ rest)
unfolding skip_spaces
skip_spaces-gap [] d rest g h e = absurd (cc)
skip_spaces-gap (c ∷ gap) d rest g h e =
    let run : span is_space ((c ∷ gap) ++ d ∷ rest) ≡ (c ∷ gap, d ∷ rest) =
      span-append is_space (c ∷ gap) d rest h e in
    ap
      (λ (r : Text × Text). elim (r.0) as (λ (x : Text). Option Text) [
        | [] ↦ none
        | y ∷ ys ↦ some r.1
      ])
      run

match_every-IsInterval :
    (s gap digits unit : Text)
    → IsInterval s gap digits unit
    → match_every s ≡ some (read_nat digits, unit)
unfolding match_every
match_every-IsInterval s gap [] unit w =
    absurd (let none_there : is_empty [] ≡ false = w.some_digits in cc)
match_every-IsInterval s gap (d ∷ ds) unit w =
    let digit : is_digit d ≡ true = ground (arith, w.all_digits) in
    let seen : match_every (codes "@every" ++ (gap ++ ((d ∷ ds) ++ unit)))
        ≡ some (read_nat (d ∷ ds), unit) =
      rw (skip_spaces-gap gap d (ds ++ unit) w.some_gap w.gap_spaces (digit_not_space d digit))
        (interval_end-digits d ds unit w.all_digits w.unit_known) in
    ap match_every w.spelled ∙ seen

-- A schedule that spells an interval, with any white space before the number and any zeros before its
-- digits, is written back, by the controls that were read from it, with one space and the number in
-- its shortest digits; an interval of zero units is dropped.
pub compute_schedule-parse_schedule_state :
    (d : Form) (gap digits unit : Text)
    → IsInterval d.schedule gap digits unit
    → (compute_schedule (parse_schedule_state d)).schedule ≡ (
        if ltb 0 (read_nat digits)
        then codes "@every " ++ (print_nat (read_nat digits) ++ unit)
        else [])
unfolding parse_schedule_state compute_schedule schedule_of print_int is_positive
compute_schedule-parse_schedule_state d gap digits unit w =
    let seen : match_every d.schedule ≡ some (read_nat digits, unit) =
      match_every-IsInterval d.schedule gap digits unit w in
    let some_text : is_empty d.schedule ≡ false = rw (w.spelled) refl in ground arith
