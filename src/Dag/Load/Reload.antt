-- ===== src/Dag/Load/Reload.antt =====
-- A task that is loaded into the form and sent back unchanged.
use cronova.Base.{
  ℕ, zero, suc, ◌≡◌, refl, Bool, true, false, List, [], ◌∷◌, Option, none, some, Text, codes, all,
  includes, is_empty, keep, arith,
}
use cronova.Dag.Model.{ℤ, pos, negsuc, num, Task}
use cronova.Dag.Validate.{ids}
use cronova.Dag.Spec.{TaskSpec, or_text, number_or, at_least_0, nullable, task_spec}
use cronova.Dag.Load.{Stored, or_blank, given, load_task}

-- What was stored and what is sent agree on the scheduling fields.
pub record IsKept (tk : Stored) (o : TaskSpec) : Type 0 where
  pub id : o.id ≡ tk.id
  pub type : o.type ≡ or_text tk.type (codes "shell")
  pub pool : o.pool ≡ or_text tk.pool (codes "default")
  pub priority : o.priority ≡ tk.priority
  pub deps : o.deps ≡ tk.deps
  pub timeout : o.timeout ≡ tk.timeout
  pub sla : o.sla ≡ tk.sla
  pub trigger_rule : o.trigger_rule ≡ or_text tk.trigger_rule (codes "all_success")
  pub retries : o.retries ≡ tk.retries
  pub retry_delay : o.retry_delay ≡ tk.retry_delay
  pub retry_backoff : o.retry_backoff ≡ tk.retry_backoff
  pub retry_delay_max : o.retry_delay_max ≡ tk.retry_delay_max

at_least_0-or_blank : (n : ℕ) → at_least_0 (or_blank n) ≡ n
at_least_0-or_blank zero = refl
at_least_0-or_blank (suc n) = refl

number_or-num : (z : ℤ) → number_or (pos 0) (num z) ≡ z
number_or-num (pos zero) = refl
number_or-num (pos (suc n)) = refl
number_or-num (negsuc n) = refl

nullable-given : (o : Option ℤ) → nullable (given o) ≡ o
nullable-given none = refl
nullable-given (some z) = refl

keep-all {ℓ} : {A : Type ℓ} (p : A → Bool) (xs : List A) → all p xs ≡ true → keep p xs ≡ xs
keep-all p [] h = refl
keep-all p (x ∷ xs) h = ground (arith, keep-all p xs)

or_text-or_text : (a b : Text) → is_empty b ≡ false → or_text (or_text a b) b ≡ or_text a b
or_text-or_text [] b h = ground arith
or_text-or_text (c ∷ a) b h = refl

-- A stored task whose dependencies are all tasks of the definition is sent back, unchanged in the
-- form, with the fields it was stored with: the numbers, the optional retries and delays and the
-- dependencies as they were, and the type, the pool and the rule with their defaults.
pub task_spec-load_task :
    (ts : List Task) (tk : Stored)
    → all (λ d. includes d (ids ts)) tk.deps ≡ true
    → IsKept tk (task_spec ts (load_task tk))
unfolding task_spec load_task
task_spec-load_task ts tk known = record {
  id = refl;
  type = refl;
  pool = or_text-or_text tk.pool (codes "default") refl;
  priority = number_or-num tk.priority;
  deps = keep-all (λ d. includes d (ids ts)) tk.deps known;
  timeout = at_least_0-or_blank tk.timeout;
  sla = at_least_0-or_blank tk.sla;
  trigger_rule = or_text-or_text tk.trigger_rule (codes "all_success") refl;
  retries = nullable-given tk.retries;
  retry_delay = nullable-given tk.retry_delay;
  retry_backoff = refl;
  retry_delay_max = at_least_0-or_blank tk.retry_delay_max;
}
