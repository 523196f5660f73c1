-- ===== src/Resources/Samples.antt =====
-- Tests of the page of shared configuration, and its theorems at concrete tables.
use cronova.Base.{◌≡◌, ◌↔◌, refl, true, List, [], ◌∷◌, some, Text, codes, arith}
use cronova.Resources.Table.{find_row, has_row, insert_row, sort_rows}
use cronova.Resources.Order.{text_lt}
use cronova.Resources.Sorted.{IsSorted}
use cronova.Resources.Lookup.{
  Change, put_row, drop_row, change_tables, change_maps, change_tables-change_maps,
}
use cronova.Resources.Vars.{
  Var, var_keyed, cfg_key_re, bad_key, add_var, VarsTab, typed, saved, redrawn, vars_run,
}
use cronova.Resources.Edits.{vars_run-late}
use cronova.Resources.Groups.{
  Group, GroupEvent, url_typed, channel_added, channel_removed, open_group, group_run, group_name,
  bad_channels, save_dialog,
}
use cronova.Resources.Channels.{all_blank, save_dialog-bad_channels}

abbrev var_of : Text → Text → Var
var_of k v = record { key = k; value = v }

abbrev some_vars : List Var
some_vars = var_of (codes "dsn") (codes "x") ∷ var_of (codes "url") (codes "y") ∷ []

add_var_test : add_var (codes " a b ") [] ≡ bad_key
unfolding add_var
add_var_test = refl

sort_rows_test :
    sort_rows (var_of (codes "b") [] ∷ var_of (codes "a") [] ∷ [])
    ≡ var_of (codes "a") [] ∷ var_of (codes "b") [] ∷ []
unfolding sort_rows insert_row text_lt
sort_rows_test = refl

abbrev some_changes : List (Change Var)
some_changes =
    put_row (var_of (codes "key") (codes "1"))
    ∷ put_row (var_of (codes "dsn") (codes "2"))
    ∷ drop_row (codes "url")
    ∷ []

change_tables-change_maps_example :
    IsSorted (change_tables some_changes some_vars)
    × ((j : Text)
        → find_row j (change_tables some_changes some_vars)
          ≡ change_maps some_changes (λ i. find_row i some_vars) j)
unfolding text_lt
change_tables-change_maps_example =
    change_tables-change_maps some_changes some_vars ((refl, tt), (tt, tt))

abbrev vars_tab : VarsTab
vars_tab = record { vars = some_vars; inputs = some_vars }

vars_run-late_example :
    (find_row
        (codes "url")
        (vars_run
          (typed (codes "url") (codes "new") ∷ saved (codes "url") (codes "old") ∷ [])
          vars_tab).inputs
      ≡ some (var_of (codes "url") (codes "new")))
    × (find_row
          (codes "url")
          (vars_run
            (typed (codes "url") (codes "new") ∷ saved (codes "url") (codes "old") ∷ redrawn ∷ [])
            vars_tab).inputs
        ≡ some (var_of (codes "url") (codes "old")))
unfolding has_row
vars_run-late_example = vars_run-late (codes "url") (codes "old") (codes "new") vars_tab refl refl

abbrev one_channel : Group
one_channel = record {
  name = codes "oncall";
  channels = record { url = codes "https://x"; format = codes "slack" } ∷ [];
}

abbrev dialog_events : List GroupEvent
dialog_events =
    channel_added
    ∷ url_typed 1 (codes " mailto:a ")
    ∷ channel_removed 0
    ∷ url_typed 0 (codes "  ")
    ∷ []

save_dialog-bad_channels_example :
    save_dialog (group_run dialog_events (open_group (some one_channel))) ≡ bad_channels
    ↔ all_blank (group_run dialog_events (open_group (some one_channel))).chans ≡ true
unfolding cfg_key_re group_name group_run open_group
save_dialog-bad_channels_example =
    save_dialog-bad_channels (some one_channel) dialog_events (omega arith) refl (omega arith)
