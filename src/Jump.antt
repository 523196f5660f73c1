-- ===== src/Jump.antt =====
-- The quick jump of the top bar: `updateJump`, `jumpMove`, `jumpEnter` and `closeJump` of
-- internal/web/static/base.js.
pub mod Selected
mod Samples
use cronova.Base.{
  ℕ, zero, suc, ◌+◌, ◌-◌, ◌%◌, Bool, true, false, ◌&&◌, List, [], ◌∷◌, map, Option, none, some,
  Text, is_empty, trim, if◌then◌else◌, keep, length, take, get_elem?,
}
use cronova.Wizard.{contains}
use cronova.Dag.Validate.{lower}

-- The menu, with the ids it shows; `selected` is `none` for -1.
pub record Jump : Type 0 where
  pub hidden : Bool
  pub items : List Text
  pub selected : Option ℕ

-- `raw.trim().toLowerCase()`
unfoldable pub jump_query : Text → Text
jump_query raw = map lower (trim raw)

-- At most eight.
unfoldable pub jump_matches : List Text → Text → List Text
jump_matches dags q = take 8 (keep (λ i. contains q (map lower i)) dags)

shown_with : List Text → Jump
shown_with [] = record { hidden = false; items = []; selected = none }
shown_with (i ∷ is) = record { hidden = false; items = i ∷ is; selected = some 0 }

unfoldable pub close_jump : Jump → Jump
close_jump j = record { hidden = true; items = []; selected = none }

unfoldable pub update_jump : List Text → Text → Jump → Jump
unfolding jump_query jump_matches shown_with close_jump
update_jump dags raw j =
    if is_empty (jump_query raw)
    then close_jump j
    else shown_with (jump_matches dags (jump_query raw))

-- `(jumpSel + delta + items.length) % items.length` for a delta of 1 and of -1.
unfoldable pub moved : Bool → ℕ → Option ℕ → ℕ
moved down n none = if down then n % n else (n - 2) % n
moved down n (some i) = if down then (i + 1 + n) % n else (i + n - 1) % n

unfoldable pub jump_move : Bool → Jump → Jump
unfolding moved
jump_move down j = elim (j.items) [
  | [] ↦ j
  | i ∷ is ↦
      if j.hidden then j else record j { selected = some (moved down (length (i ∷ is)) j.selected) }
]

-- The definition that Enter opens.
unfoldable pub jump_enter : Jump → Option Text
jump_enter j =
    if j.hidden then none else elim (j.selected) [ some i ↦ get_elem? j.items i | none ↦ none ]

pub data JumpEvent : Type 0 where
  type_search : List Text → Text → JumpEvent
  arrow_down arrow_up close_menu : JumpEvent

unfoldable pub jump_step : Jump → JumpEvent → Jump
unfolding update_jump jump_move close_jump
jump_step j (type_search dags raw) = update_jump dags raw j
jump_step j arrow_down = jump_move true j
jump_step j arrow_up = jump_move false j
jump_step j close_menu = close_jump j

unfoldable pub jump_run : Jump → List JumpEvent → Jump
unfolding jump_step
jump_run j [] = j
jump_run j (v ∷ vs) = jump_run (jump_step j v) vs
