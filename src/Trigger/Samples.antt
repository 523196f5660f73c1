-- ===== src/Trigger/Samples.antt =====
-- Tests of the dialog with parameters, and its theorem at concrete events.
use cronova.Base.{
  ◌≤◌, ◌≡◌, refl, false, List, [], ◌∷◌, length, none, some, Text, codes, is_empty, text_eq,
}
use cronova.Dag.Model.{negsuc, num}
use cronova.Trigger.{
  TriggerEvent, key_typed, value_typed, prio_typed, row_added, open_trigger, trigger_run,
  trigger_go,
}
use cronova.Trigger.Sends.{IsPriorityOf, sent_value, last_value, trigger_go-sends}

abbrev two_rows : List TriggerEvent
two_rows =
    key_typed 0 (codes " day ")
    ∷ value_typed 0 (codes "1")
    ∷ row_added
    ∷ key_typed 1 (codes "day")
    ∷ value_typed 1 (codes "2")
    ∷ prio_typed (num (negsuc 499))
    ∷ []

trigger_go_test :
    trigger_go (trigger_run two_rows open_trigger)
    ≡ record { params = some ((codes "day", codes "2") ∷ []); priority = some (negsuc 99) }
unfolding trigger_go open_trigger trigger_run text_eq
trigger_go_test = refl

trigger_go-sends_example :
    let s = trigger_run two_rows open_trigger in
    (1 ≤ length s.rows)
    × IsPriorityOf s.prio (trigger_go s).priority
    × ((key : Text)
        → is_empty key ≡ false
        → sent_value (trigger_go s) key ≡ last_value none s.rows key)
    × (sent_value (trigger_go s) [] ≡ none)
trigger_go-sends_example = trigger_go-sends two_rows
