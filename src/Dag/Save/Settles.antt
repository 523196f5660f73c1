-- ===== src/Dag/Save/Settles.antt =====
-- The machinery of saving comes to rest.
use cronova.Base.{
  ℕ, ◌≡◌, ◌≢◌, ◌∙◌, ap, Bool, inl, inr, true, false, Option-cases, [], ◌∷◌, none, some, Text, arith,
}
use cronova.Dag.Save.Marks.{SameMachine, on_success-SameMachine, on_error-SameMachine}
use cronova.Dag.Save.{
  Editor, Event, fire, reply_ok, reply_error, dispatch, flush_save, settle, on_success, on_error,
  step, run,
}

-- No timeout is armed and no deletion is under way.
record IsCalm (e : Editor) : Type 0 where
  not_armed : e.armed ≡ false
  not_deleting : e.deleting ≡ false

settle-IsCalm : (e : Editor) → IsCalm e → IsCalm (settle e) × ((settle e).pending ≡ false)
unfolding settle flush_save dispatch
settle-IsCalm e c = ground arith

settle-inflight : (e : Editor) → e.pending ≡ false → (settle e).inflight ≡ none
unfolding settle
settle-inflight e p = ground arith

fire-IsCalm :
    (e : Editor)
    → e.deleting ≡ false
    → (e.pending ≡ true → e.inflight ≢ none)
    → IsCalm (step e fire) × ((step e fire).inflight ≡ none → (step e fire).pending ≡ false)
unfolding step flush_save dispatch
fire-IsCalm e d w = ground arith

-- An answer: a request that went well, with the token of the definition, or one that failed, with a
-- code.
abbrev pub answer : Bool → Text → Event
answer true h = reply_ok h
answer false c = reply_error c

-- What the answer does before `finally`.
abbrev answered : Bool → Text → ℕ → Editor → Editor
answered true h n e = on_success h n e
answered false c n e = on_error c n e

answered-SameMachine :
    (well : Bool) (h : Text) (n : ℕ) (e : Editor) → SameMachine e (answered well h n e)
answered-SameMachine true h n e = on_success-SameMachine h n e
answered-SameMachine false h n e = on_error-SameMachine h n e

step-answered :
    (well : Bool) (h : Text) (n : ℕ) (e : Editor)
    → e.inflight ≡ some n
    → step e (answer well h) ≡ settle (answered well h n e)
unfolding step
step-answered true h n e i =
    ap (λ o. elim o [ some seq ↦ settle (on_success h seq e) | none ↦ e ]) i
step-answered false h n e i = ap (λ o. elim o [ some seq ↦ settle (on_error h seq e) | none ↦ e ]) i

step-unasked :
    (well : Bool) (h : Text) (e : Editor) → e.inflight ≡ none → step e (answer well h) ≡ e
unfolding step
step-unasked true h e i = ap (λ o. elim o [ some seq ↦ settle (on_success h seq e) | none ↦ e ]) i
step-unasked false h e i = ap (λ o. elim o [ some seq ↦ settle (on_error h seq e) | none ↦ e ]) i

reply-IsCalm :
    (e : Editor) (well : Bool) (h : Text)
    → IsCalm e
    → (e.inflight ≡ none → e.pending ≡ false)
    → IsCalm (step e (answer well h)) × ((step e (answer well h)).pending ≡ false)
reply-IsCalm e well h c w = elim (Option-cases e.inflight) [
  | inl i ↦ rw (step-unasked well h e i) (c, w i)
  | inr (n, i) ↦
      (let m = answered-SameMachine well h n e in
        rw (step-answered well h n e i) (
          settle-IsCalm (answered well h n e) (record {
            not_armed = m.armed ∙ c.not_armed;
            not_deleting = m.deleting ∙ c.not_deleting;
          })))
]

reply-inflight :
    (e : Editor) (well : Bool) (h : Text)
    → e.pending ≡ false
    → (step e (answer well h)).inflight ≡ none
reply-inflight e well h p = elim (Option-cases e.inflight) [
  | inl i ↦ rw (step-unasked well h e i) i
  | inr (n, i) ↦
      rw (step-answered well h n e i)
        (settle-inflight (answered well h n e) ((answered-SameMachine well h n e).pending ∙ p))
]

-- Unless a deletion is under way, and where a request is under way if one waits for it: once the
-- timeout has had its chance and two answers have come, each of a request that went well or of one
-- that failed, no timeout is armed, no request is under way and none waits.
pub run-settles :
    (e : Editor) (well well' : Bool) (h h' : Text)
    → e.deleting ≡ false
    → (e.pending ≡ true → e.inflight ≢ none)
    → let rest = run e (fire ∷ answer well h ∷ answer well' h' ∷ []) in
      (rest.armed ≡ false) × (rest.inflight ≡ none) × (rest.pending ≡ false)
unfolding run
run-settles e well well' h h' d w =
    let (calm, waits) = fire-IsCalm e d w in
    let first = step e fire in
    let second = step first (answer well h) in
    let (calm', p) = reply-IsCalm first well h calm waits in
    let (calm'', p') = reply-IsCalm second well' h' calm' (λ _. p) in
    (calm''.not_armed, reply-inflight second well' h' p, p')
