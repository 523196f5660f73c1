-- ===== src/Jump/Samples.antt =====
-- The menu in use.
use cronova.Base.{false, List, [], ◌∷◌, some, codes}
use cronova.Jump.{Jump, JumpEvent, type_search, arrow_up}

abbrev two_matches : Jump
two_matches = record {
  hidden = false;
  items = codes "etl" ∷ codes "etl_copy" ∷ [];
  selected = some 1;
}

abbrev typed : List JumpEvent
typed =
    type_search (codes "etl" ∷ codes "sales" ∷ codes "my_ETL" ∷ []) (codes " Etl") ∷ arrow_up ∷ []
