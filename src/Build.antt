-- ===== src/Build.antt =====
-- The definition that the wizard and the dialog for a new definition send
-- (`createAndRunWizard` and `submitNewDag` of internal/web/static/builder.js).
use cronova.Base.{
  ℕ, ◌≡◌, Bool, true, false, Option, none, List, [], ◌∷◌, Text, codes, all, All, includes,
}
use cronova.Dag.Validate.{id_re, is_blank}

pub record BuildTask : Type 0 where
  pub task_id : Text
  pub kind : Text
  pub command : Text
  pub deps : List Text
  pub pool : Text
  pub priority : ℕ
  pub timeout : ℕ
  pub trigger_rule : Text
  pub retries : Option ℕ
  pub retry_delay : Option ℕ

pub record Build : Type 0 where
  pub dag_id : Text
  pub schedule : Text
  pub start_date : Text
  pub catchup : Bool
  pub max_active_runs : ℕ
  pub default_retries : ℕ
  pub trigger_after : List Text
  pub tasks : List BuildTask

-- A task of a template, with the defaults of both forms.
unfoldable pub build_task : Text → Text → List Text → BuildTask
build_task i c ds = record {
  task_id = i;
  kind = codes "shell";
  command = c;
  deps = ds;
  pool = codes "default";
  priority = 0;
  timeout = 0;
  trigger_rule = codes "all_success";
  retries = none;
  retry_delay = none;
}

-- Each dependency is one of the names seen before.
abbrev pub IsOrdered : List Text → List BuildTask → Type 0
IsOrdered seen [] = Unit
IsOrdered seen (t ∷ ts) =
    (all (λ d. includes d seen) t.deps ≡ true) × IsOrdered (t.task_id ∷ seen) ts

-- A definition that the server can take: a legal name, commands that are not blank, and
-- dependencies on tasks that come before.
pub record IsSound (b : Build) : Type 0 where
  pub legal : id_re b.dag_id ≡ true
  pub commands : All (λ t. is_blank t.command ≡ false) b.tasks
  pub order : IsOrdered [] b.tasks
