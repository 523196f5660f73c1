-- ===== src/Dag/Save/Stale.antt =====
-- The save indicator after a save has gone through.
use cronova.Base.{◌≡◌, refl, ap, ◌∙◌, true, false, [], ◌∷◌, none, Text, arith}
use cronova.Dag.Save.{
  Editor, fire, reply_ok, render, saving, saved, errors_of, dispatch, flush_save, settle,
  on_success, reflect, step, run,
}

fired :
    (e : Editor)
    → e.armed ≡ true
    → e.inflight ≡ none
    → e.deleting ≡ false
    → step e fire ≡ dispatch (record e { armed = false })
unfolding step flush_save
fired e a i d = ground arith

-- The answer to the request that the timeout sent.
answered :
    (e : Editor) (h : Text)
    → e.pending ≡ false
    → ((step (dispatch (record e { armed = false })) (reply_ok h)).shown ≡ saved)
      × ((step (dispatch (record e { armed = false })) (reply_ok h)).armed ≡ false)
      × ((step (dispatch (record e { armed = false })) (reply_ok h)).inflight ≡ none)
      × ((step (dispatch (record e { armed = false })) (reply_ok h)).timer_set ≡ e.timer_set)
unfolding step dispatch settle on_success
answered e h p = ground arith

rendered : (e : Editor) → e.timer_set ≡ true → errors_of e.doc ≡ [] → (step e render).shown ≡ saving
unfolding step reflect
rendered e t v = rw (v, reflect) (rw (t, reflect) refl)

-- A save that was scheduled fires and succeeds: the indicator says saved, no timeout is armed and
-- no request is under way. The next render of a valid definition shows it as saving again.
render-saving :
    (e : Editor) (h : Text)
    → e.timer_set ≡ true
    → e.armed ≡ true
    → e.inflight ≡ none
    → e.pending ≡ false
    → e.deleting ≡ false
    → errors_of (run e (fire ∷ reply_ok h ∷ [])).doc ≡ []
    → ((run e (fire ∷ reply_ok h ∷ [])).shown ≡ saved)
      × ((run e (fire ∷ reply_ok h ∷ [])).armed ≡ false)
      × ((run e (fire ∷ reply_ok h ∷ [])).inflight ≡ none)
      × ((run e (fire ∷ reply_ok h ∷ render ∷ [])).shown ≡ saving)
unfolding run
render-saving e h t a i p d v =
    let f = fired e a i d in
    let (shown, armed, inflight, timer) = answered e h p in
    let after = ap (λ x. step x (reply_ok h)) f in
    (
      ap (λ x. x.shown) after ∙ shown,
      ap (λ x. x.armed) after ∙ armed,
      ap (λ x. x.inflight) after ∙ inflight,
      rendered (step (step e fire) (reply_ok h)) (ap (λ x. x.timer_set) after ∙ timer ∙ t) v,
    )
