-- ===== src/Resources/Vars.antt =====
-- The tab of variables: wireVarsTab, saveVar and delVar of views.js. The page keeps the value of each
-- row as it is typed, beside the inputs that show it.
use cronova.Base.{
  Bool, not, ◌&&◌, ◌||◌, List, [], ◌∷◌, all, Text, is_empty, is_alnum, trim, if◌then◌else◌, ◌==◌,
}
use cronova.Resources.Table.{Keyed, has_row, replace_row, upsert_row, delete_row}

pub record Var : Type 0 where
  pub key : Text
  pub value : Text

instance abbrev pub var_keyed : Keyed Var
var_keyed = record { key = λ (v : Var). v.key }

-- `CFG_KEY_RE`
unfoldable pub cfg_key_re : Text → Bool
unfolding is_alnum
cfg_key_re k = not (is_empty k) && all (λ c. is_alnum c || c == b'_' || c == b'.' || c == b'-') k

-- `RES.vars`, and the inputs of the page.
pub record VarsTab : Type 0 where
  pub vars : List Var
  pub inputs : List Var

-- A handler's request, or what it warns of.
pub data AddVar : Type 0 where
  need_key bad_key : AddVar
  save_var : Text → Text → AddVar

-- `$("nv-add").onclick` up to its request
unfoldable pub add_var : Text → Text → AddVar
unfolding cfg_key_re trim
add_var k v =
    if is_empty (trim k)
    then need_key
    else if cfg_key_re (trim k)
    then save_var (trim k) v
    else bad_key

-- Typing, the answers to requests that go well, and a drawing of the tab.
pub data VarEvent : Type 0 where
  typed : Text → Text → VarEvent
  saved : Text → Text → VarEvent
  deleted : Text → VarEvent
  redrawn : VarEvent

-- `renderResources` on this tab
unfoldable pub draw_vars : VarsTab → VarsTab
draw_vars s = record s { inputs = s.vars }

-- The answer of saveVar: the row there is takes the value that was sent, and a new one is drawn.
unfoldable pub var_saved : Text → Text → VarsTab → VarsTab
unfolding draw_vars
var_saved k v s =
    let row : Var = record { key = k; value = v } in
    if has_row k s.vars
    then record s { vars = replace_row k row s.vars }
    else draw_vars (record s { vars = upsert_row k row s.vars })

unfoldable pub var_step : VarEvent → VarsTab → VarsTab
unfolding draw_vars var_saved
var_step (typed k v) s =
    let row : Var = record { key = k; value = v } in
    record s { vars = replace_row k row s.vars; inputs = replace_row k row s.inputs }
var_step (saved k v) s = var_saved k v s
var_step (deleted k) s = draw_vars (record s { vars = delete_row k s.vars })
var_step redrawn s = draw_vars s

unfoldable pub vars_run : List VarEvent → VarsTab → VarsTab
unfolding var_step
vars_run [] s = s
vars_run (e ∷ es) s = vars_run es (var_step e s)
