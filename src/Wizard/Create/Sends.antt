-- ===== src/Wizard/Create/Sends.antt =====
-- What the wizard sends.
use cronova.Base.{
  ◌≡◌, ◌⊎◌, refl, inl, inr, true, false, Bool-cases, List, [], ◌∷◌, map, none, some, Text, text_eq,
  trim, any, arith, All,
}
use cronova.Dag.Validate.{is_blank}
use cronova.Build.{Build, BuildTask, build_task, IsOrdered, IsSound}
use cronova.Wizard.{
  Wizard, WizardEvent, Step, Template, etl, report, one_step, taken_name, fresh_wizard, is_taken,
  edited, steps_of, wz_steps, wz_validate, wz_run,
}
use cronova.Wizard.Ready.{IsSendable, wz_run-IsReady}
use cronova.Wizard.Create.{wz_build, create}

-- An edited command leaves the name and the dependencies.
edited-step_id : (m : List (Text × Text)) (s : Step) → (edited m s).step_id ≡ s.step_id
unfolding edited
edited-step_id m s = ground arith

edited-dep_ids : (m : List (Text × Text)) (s : Step) → (edited m s).dep_ids ≡ s.dep_ids
unfolding edited
edited-dep_ids m s = ground arith

abbrev to_task : Step → BuildTask
to_task s = build_task s.step_id s.cmd s.dep_ids

-- The order is that of the steps, whatever was edited.
edited-IsOrdered :
    (m : List (Text × Text)) (seen : List Text) (ss : List Step)
    → IsOrdered seen (map to_task ss)
    → IsOrdered seen (map to_task (map (edited m) ss))
unfolding build_task
edited-IsOrdered m seen [] o = tt
edited-IsOrdered m seen (s ∷ ss) o =
    rw (edited-step_id m s, edited-dep_ids m s) (o.0, edited-IsOrdered m (s.step_id ∷ seen) ss o.1)

steps_of-IsOrdered : (k : Template) → IsOrdered [] (map to_task (steps_of k))
unfolding steps_of build_task text_eq
steps_of-IsOrdered etl = (refl, (refl, (refl, tt)))
steps_of-IsOrdered report = (refl, (refl, tt))
steps_of-IsOrdered one_step = (refl, tt)

commands-All :
    (ss : List Step)
    → any (λ s. is_blank s.cmd) ss ≡ false
    → All (λ t. is_blank t.command ≡ false) (map to_task ss)
unfolding build_task
commands-All [] h = tt
commands-All (s ∷ ss) h = (ground arith, commands-All ss (ground arith))

wz_build-IsSound : (w : Wizard) → IsSendable w → IsSound (wz_build w)
unfolding wz_build wz_steps
wz_build-IsSound w s = record {
  legal = s.legal;
  commands = commands-All (wz_steps w) s.commands;
  order = edited-IsOrdered w.cmd_edits [] (steps_of w.tpl) (steps_of-IsOrdered w.tpl);
}

create-cases :
    (w : Wizard)
    → IsSendable w
    → ((create w ≡ inl taken_name) × (is_taken w (trim w.name) ≡ true))
      ⊎ ((create w ≡ inr (wz_build w)) × (is_taken w (trim w.name) ≡ false))
unfolding create wz_validate
create-cases w s =
    let legal = s.legal in
    let commands = s.commands in
    elim (Bool-cases (is_taken w (trim w.name))) [
      | inl e ↦
          (let v : wz_validate w ≡ some taken_name = ground arith in inl (rw (v, create) refl, e))
      | inr e ↦ (let v : wz_validate w ≡ none = ground arith in inr (rw (v, create) refl, e))
    ]

-- After any use of the wizard that has come to its third step: creating refuses the name, which is
-- one of the existing definitions, or it sends a definition with a legal name that is not one of
-- them, with no blank command, and with every task after the tasks it depends on.
pub create-IsSound :
    (vs : List WizardEvent)
    → (wz_run fresh_wizard vs).step_no ≡ 3
    → ((create (wz_run fresh_wizard vs) ≡ inl taken_name)
        × (is_taken (wz_run fresh_wizard vs) (trim (wz_run fresh_wizard vs).name) ≡ true))
      ⊎ ((b : Build) × (create (wz_run fresh_wizard vs) ≡ inr b)
          × IsSound b
          × (is_taken (wz_run fresh_wizard vs) b.dag_id ≡ false))
unfolding wz_build
create-IsSound vs e =
    let w = wz_run fresh_wizard vs in
    let s = (wz_run-IsReady vs).checked e in
    elim (create-cases w s) [
      | inl r ↦ inl r
      | inr (c, f) ↦ inr (wz_build w, c, wz_build-IsSound w s, f)
    ]
