-- ===== src/NewDag/Submit.antt =====
-- What the dialog for a new definition sends.
use cronova.Base.{◌≡◌, ◌⊎◌, true, false, List, [], Text, includes, is_empty, trim, All}
use cronova.Dag.Validate.{id_re, is_blank}
use cronova.Build.{Build, BuildTask, IsOrdered, IsSound}
use cronova.NewDag.{NewDag, Press, disabled, yaml_empty, send_build, send_yaml}

-- The tasks of a template are fit to be sent.
abbrev Fit : List BuildTask → Type 0
Fit ts = All (λ t. is_blank t.command ≡ false) ts × IsOrdered [] ts

-- What a press does in the form: nothing where the name is not legal or is taken, or it sends a definition with a
-- legal name that is not one of the existing ones, with no blank command, with every task after the
-- tasks it depends on, and with a schedule if it asks to catch up.
abbrev pub IsFormPress : NewDag → Press → Type 0
IsFormPress n p =
    ((p ≡ disabled) × (id_re n.dag.dag_id ≡ true → includes n.dag.dag_id n.existing ≡ true))
    ⊎ ((b : Build) × (p ≡ send_build b)
        × IsSound b
        × (includes b.dag_id n.existing ≡ false)
        × (b.catchup ≡ true → is_empty b.schedule ≡ false))

-- What a press does in the text form: a text that is not blank is sent as it is.
abbrev pub IsTextPress : Text → Press → Type 0
IsTextPress yml p =
    ((p ≡ yaml_empty) × (is_empty (trim yml) ≡ true))
    ⊎ ((p ≡ send_yaml yml) × (is_empty (trim yml) ≡ false))
