-- ===== src/NewDag/Samples.antt =====
-- The dialog in use.
use cronova.Base.{◌≡◌, false, [], ◌∷◌, codes, refl, trim, is_space}
use cronova.Schedule.Samples.{empty_form}
use cronova.NewDag.{NewDag, pick_card, type_id, nd_step, press_create, to_yaml, send_yaml}

abbrev opened : NewDag
opened = record {
  existing = codes "etl" ∷ [];
  dag = record empty_form { dag_id = [] };
  template = codes "blank";
  advanced = false;
  yaml_mode = false;
}

abbrev named_report : NewDag
named_report = nd_step (nd_step opened (pick_card (codes "report"))) (type_id (codes "sales"))

import_test :
    press_create (codes "dag_id: a") (nd_step opened to_yaml) ≡ send_yaml (codes "dag_id: a")
unfolding press_create trim is_space nd_step
import_test = refl
