-- ===== src/Resources/Edits.antt =====
-- What the tab of variables loses of what is typed.
use cronova.Base.{◌≡◌, true, List, [], ◌∷◌, some, Text, text_eq_self, arith}
use cronova.Resources.Table.{find_row, has_row, replace_row}
use cronova.Resources.Vars.{
  Var, var_keyed, VarsTab, typed, saved, redrawn, draw_vars, var_saved, var_step, vars_run,
}

find_row-replaced :
    (k v : Text) (rows : List Var)
    → has_row k rows ≡ true
    → find_row k (replace_row k (record { key = k; value = v }) rows)
      ≡ some (record { key = k; value = v })
unfolding find_row replace_row has_row
find_row-replaced k v [] h = absurd (cc)
find_row-replaced k v (x ∷ rows) h = ground (arith, text_eq_self k, find_row-replaced k v rows)

has_row-replaced :
    (k v : Text) (rows : List Var)
    → has_row k rows ≡ true
    → has_row k (replace_row k (record { key = k; value = v }) rows) ≡ true
unfolding replace_row has_row
has_row-replaced k v [] h = absurd (cc)
has_row-replaced k v (x ∷ rows) h = ground (arith, text_eq_self k, has_row-replaced k v rows)

-- Where a row is typed in again while its save is under way, its input shows the new value until the
-- next redrawing, which puts back the value that was sent.
pub vars_run-late :
    (k v w : Text) (s : VarsTab)
    → has_row k s.vars ≡ true
    → has_row k s.inputs ≡ true
    → (find_row k (vars_run (typed k w ∷ saved k v ∷ []) s).inputs
        ≡ some (record { key = k; value = w }))
      × (find_row k (vars_run (typed k w ∷ saved k v ∷ redrawn ∷ []) s).inputs
          ≡ some (record { key = k; value = v }))
unfolding vars_run var_step var_saved draw_vars
vars_run-late k v w s h g = rw (has_row-replaced k w s.vars h) (
  find_row-replaced k w s.inputs g,
  find_row-replaced k v (replace_row k (record { key = k; value = w }) s.vars)
      (has_row-replaced k w s.vars h),
)
