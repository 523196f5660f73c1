-- ===== src/Dag/Save/Marks.antt =====
-- An answer changes what is shown and adopted, and nothing of the machinery of saving.
use cronova.Base.{ℕ, ◌≡◌, Text, arith}
use cronova.Dag.Save.{Editor, on_success, on_error}

pub record SameMachine (e e' : Editor) : Type 0 where
  pub timer_set : e'.timer_set ≡ e.timer_set
  pub armed : e'.armed ≡ e.armed
  pub save_seq : e'.save_seq ≡ e.save_seq
  pub inflight : e'.inflight ≡ e.inflight
  pub pending : e'.pending ≡ e.pending
  pub deleting : e'.deleting ≡ e.deleting
  pub sent : e'.sent ≡ e.sent

pub on_success-SameMachine : (h : Text) (n : ℕ) (e : Editor) → SameMachine e (on_success h n e)
unfolding on_success
on_success-SameMachine h n e = ground arith

pub on_error-SameMachine : (c : Text) (n : ℕ) (e : Editor) → SameMachine e (on_error c n e)
unfolding on_error
on_error-SameMachine c n e = ground arith
