-- ===== src/Wizard/Samples.antt =====
-- Runs of the wizard, and the theorems about it at one use of it.
use cronova.Base.{
  ◌≡◌, refl, ◌⊎◌, inl, inr, true, false, List, [], ◌∷◌, codes, trim, text_eq, is_space,
  strip_prefix, print_nat,
}
use cronova.Dag.Model.{num, pos}
use cronova.Dag.Validate.{id_re}
use cronova.Dag.Spec.{put}
use cronova.Build.{Build, IsSound}
use cronova.Wizard.{
  WizardEvent, list_loaded, go_next, insert_date, pick_template, type_name, set_interval, report,
  taken_name, fresh_wizard, is_taken, wz_steps, wz_validate, name_hint, wz_step, wz_run, steps_of,
}
use cronova.Wizard.Create.{wz_daily_cron, create}
use cronova.Wizard.Create.Sends.{create-IsSound}

abbrev a_use : List WizardEvent
a_use =
    list_loaded (codes "etl" ∷ [])
    ∷ pick_template report
    ∷ go_next
    ∷ type_name (codes " sales ")
    ∷ insert_date
    ∷ go_next
    ∷ set_interval (num (pos 15))
    ∷ []

a_use-step_no : (wz_run fresh_wizard a_use).step_no ≡ 3
unfolding fresh_wizard wz_run wz_step wz_validate wz_steps steps_of name_hint id_re trim text_eq put
    strip_prefix is_space
a_use-step_no = refl

half_past : wz_daily_cron (codes "08:30") ≡ codes "30 8 * * *"
unfolding wz_daily_cron print_nat
half_past = refl

create-IsSound_example :
    ((create (wz_run fresh_wizard a_use) ≡ inl taken_name)
      × (is_taken (wz_run fresh_wizard a_use) (trim (wz_run fresh_wizard a_use).name) ≡ true))
    ⊎ ((b : Build) × (create (wz_run fresh_wizard a_use) ≡ inr b)
        × IsSound b
        × (is_taken (wz_run fresh_wizard a_use) b.dag_id ≡ false))
create-IsSound_example = create-IsSound a_use a_use-step_no
