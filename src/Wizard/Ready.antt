-- ===== src/Wizard/Ready.antt =====
-- The last step is reached only with a name and commands that can be sent.
use cronova.Base.{
  zero, suc, ◌≤◌, ◌≡◌, refl, inl, inr, true, false, Option-cases, List, [], ◌∷◌, none, trim, any,
  arith,
}
use cronova.Dag.Model.{Num, blank, num, pos, negsuc}
use cronova.Dag.Validate.{id_re, is_blank}
use cronova.Wizard.{
  Wizard, WizardEvent, list_loaded, go_back, go_prev, go_next, insert_date, pick_template,
  type_name, type_command, pick_timing, set_time, set_interval, Template, etl, report, one_step,
  Step, fresh_wizard, wz_steps, wz_validate, advance, choose, seed_time, preset_time, add_date,
  at_least_1, wz_step, wz_run,
}

-- The name is legal and no command is blank.
pub record IsSendable (w : Wizard) : Type 0 where
  pub legal : id_re (trim w.name) ≡ true
  pub commands : any (λ s. is_blank s.cmd) (wz_steps w) ≡ false

pub record IsReady (w : Wizard) : Type 0 where
  pub low : 1 ≤ w.step_no
  pub high : w.step_no ≤ 3
  pub minutes : 1 ≤ w.interval_n
  pub checked : w.step_no ≡ 3 → IsSendable w

validate-IsSendable : (w : Wizard) → wz_validate w ≡ none → IsSendable w
unfolding wz_validate
validate-IsSendable w v = ground arith

at_least_1-ge : (x : Num) → 1 ≤ at_least_1 x
unfolding at_least_1
at_least_1-ge blank = omega arith
at_least_1-ge (num (pos zero)) = omega arith
at_least_1-ge (num (pos (suc n))) = omega arith
at_least_1-ge (num (negsuc n)) = omega arith

advance-IsReady : (w : Wizard) → IsReady w → IsReady (advance w)
unfolding advance wz_steps
advance-IsReady w r = elim (Option-cases (wz_validate w)) [
  | inl n ↦ ground (arith, validate-IsSendable w n)
  | inr (e, n) ↦ ground arith
]

-- The step and the minutes stay.
abbrev StaysAt : Wizard → Wizard → Type 0
StaysAt w w' = (w'.step_no ≡ w.step_no) × (w'.interval_n ≡ w.interval_n)

choose-StaysAt : (key : Template) (w : Wizard) → StaysAt w (choose key w)
unfolding choose seed_time preset_time
choose-StaysAt etl w = ground arith
choose-StaysAt report w = ground arith
choose-StaysAt one_step w = ground arith

add_date-StaysAt : (ss : List Step) (w : Wizard) → StaysAt w (add_date ss w)
unfolding add_date
add_date-StaysAt [] w = (refl, refl)
add_date-StaysAt (s ∷ ss) w = ground arith

wz_step-IsReady : (w : Wizard) (v : WizardEvent) → IsReady w → IsReady (wz_step w v)
unfolding wz_step wz_steps
wz_step-IsReady w (list_loaded l) r = record {
  low = r.low;
  high = r.high;
  minutes = r.minutes;
  checked = λ e. record { legal = (r.checked e).legal; commands = (r.checked e).commands };
}
wz_step-IsReady w go_back r = ground arith
wz_step-IsReady w go_prev r = ground arith
wz_step-IsReady w go_next r = advance-IsReady w r
wz_step-IsReady w (pick_template key) r = ground (arith, choose-StaysAt key w)
wz_step-IsReady w (type_name n) r = ground arith
wz_step-IsReady w (type_command i c) r = ground arith
wz_step-IsReady w insert_date r = ground (arith, add_date-StaysAt (wz_steps w) w)
wz_step-IsReady w (pick_timing m) r = ground arith
wz_step-IsReady w (set_time hm) r = ground arith
wz_step-IsReady w (set_interval x) r = ground (arith, at_least_1-ge x)

fresh_wizard-IsReady : IsReady fresh_wizard
unfolding fresh_wizard
fresh_wizard-IsReady = record {
  low = omega arith;
  high = omega arith;
  minutes = omega arith;
  checked = λ e. absurd (omega arith);
}

pub run-IsReady : (w : Wizard) (vs : List WizardEvent) → IsReady w → IsReady (wz_run w vs)
unfolding wz_run
run-IsReady w [] r = r
run-IsReady w (v ∷ vs) r = run-IsReady (wz_step w v) vs (wz_step-IsReady w v r)

-- From the fresh wizard, after any use of its controls and any answer about the existing
-- definitions: the step is one of the three, the interval is a minute or more, and at the third
-- step the name is legal and no command is blank.
pub wz_run-IsReady : (vs : List WizardEvent) → IsReady (wz_run fresh_wizard vs)
wz_run-IsReady vs = run-IsReady fresh_wizard vs fresh_wizard-IsReady
