-- ===== src/Dag/Validate/Sound.antt =====
-- What `validateDag` depends on, and what it guarantees.
use cronova.Base.{◌≡◌, refl, List}
use cronova.Dag.Model.{Task, Form}
use cronova.Dag.Validate.{validate}

-- Of the form only the notification target matters.
pub validate-notify_url :
    (ts : List Task) (d d' : Form) → d.notify_url ≡ d'.notify_url → validate ts d ≡ validate ts d'
unfolding validate
validate-notify_url ts d d' e = rw e refl
