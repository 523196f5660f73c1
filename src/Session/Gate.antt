-- ===== src/Session/Gate.antt =====
-- Nobody gets past the sign-in: the user is known, or the card is shown, or a check is under way.
use cronova.Base.{
  ℕ, zero, suc, ◌≡◌, ◌<◌, refl, Bool, true, false, ◌||◌, inl, inr, List, [], ◌∷◌, Option, none,
  some, Text, codes, ltb, ◌⊎◌, strip_prefix, arith,
}
use cronova.I18n.{Lang}
use cronova.Session.Api.{
  Response, answered, refused, unreachable, Result, returned, thrown, User, Card, Session,
  show_login, ends_session, api, failure_of, starts_with,
}
use cronova.Session.Login.{
  init_auth, start_if, me_answer, submit, login_error, show_error, login_answer, logout_answer,
  SessionEvent, me, submitted, login, logout, request, session_step, session_run, boot,
}

abbrev is_some {ℓ} : {A : Type ℓ} → Option A → Bool
is_some none = false
is_some (some a) = true

-- The user is known, or the card of the sign-in is shown, or a check of the user is under way.
unfoldable pub IsGated : Session → Type 0
IsGated s = (is_some s.auth_user || is_some s.card || ltb 0 s.checks) ≡ true

api-IsGated {ℓ} :
    {A : Type ℓ} (l : Lang) (p : Text) (r : Response A) (s : Session)
    → IsGated s
    → IsGated (api l p r s).1
unfolding IsGated api show_login
api-IsGated l p (answered a) s h = h
api-IsGated l p (refused st x b) s h = ground arith
api-IsGated l p (unreachable m) s h = h

init_auth-IsGated : (l : Lang) (r : Result User) (s : Session) → IsGated (start_if (init_auth r s))
unfolding IsGated init_auth start_if show_login
init_auth-IsGated l (returned u) s = refl
init_auth-IsGated l (thrown f) s = ground arith

me_answer-IsGated :
    (l : Lang) (r : Response User) (s : Session) → IsGated s → IsGated (me_answer l r s)
unfolding me_answer
me_answer-IsGated l r s h =
    elim s.checks
      as (λ n. IsGated (elim n [
        | zero ↦ s
        | suc k ↦
            (let got = api l (codes "/api/me") r (record s { checks = k }) in
              start_if (init_auth got.0 got.1))
      ])) [
        | zero ↦ h
        | suc k ↦
            init_auth-IsGated l (api l (codes "/api/me") r (record s { checks = k })).0
              (api l (codes "/api/me") r (record s { checks = k })).1
      ]

show_error-IsGated : (form : ℕ) (m : Text) (s : Session) → IsGated s → IsGated (show_error form m s)
unfolding IsGated show_error
show_error-IsGated form m s h = ground arith

submit-IsGated : (s : Session) → IsGated s → IsGated (submit s)
unfolding IsGated submit
submit-IsGated s h = ground arith

sign_in-IsGated : (s : Session) → IsGated (record s { card = none; checks = suc s.checks })
unfolding IsGated
sign_in-IsGated s = ground arith

login_answer-IsGated :
    (l : Lang) (n : ℕ) (r : Response {0} Unit) (s : Session)
    → IsGated s
    → IsGated (login_answer l n r s)
unfolding login_answer api
login_answer-IsGated l n (answered u) s h = sign_in-IsGated s
login_answer-IsGated l n (refused st x b) s h =
    show_error-IsGated n (login_error l (failure_of l st x b))
      (api {A = Unit {0}} l (codes "/api/login") (refused st x b) s).1
      (api-IsGated {A = Unit {0}} l (codes "/api/login") (refused st x b) s h)
login_answer-IsGated l n (unreachable m) s h =
    show_error-IsGated n (login_error l (record { message = m; status = none; code = [] })) s h

session_step-IsGated :
    (l : Lang) (e : SessionEvent) (s : Session) → IsGated s → IsGated (session_step l e s)
unfolding session_step IsGated logout_answer show_login
session_step-IsGated l (me r) s h = me_answer-IsGated l r s h
session_step-IsGated l submitted s h = submit-IsGated s h
session_step-IsGated l (login n r) s h = login_answer-IsGated l n r s h
session_step-IsGated l (logout r) s h = refl
session_step-IsGated l (request p r) s h = api-IsGated l p r s h

run_from-IsGated :
    (l : Lang) (es : List SessionEvent) (s : Session) → IsGated s → IsGated (session_run l es s)
unfolding session_run
run_from-IsGated l [] s h = h
run_from-IsGated l (e ∷ es) s h =
    run_from-IsGated l es (session_step l e s) (session_step-IsGated l e s h)

-- From the load of the page on, after any answers to requests, to the checks of the user and to
-- sign-ins and sign-outs, in any order, the user is known, or the card of the sign-in is shown, or a
-- check of the user is under way.
pub session_run-IsGated : (l : Lang) (es : List SessionEvent) → IsGated (session_run l es boot)
unfolding IsGated boot
session_run-IsGated l es = run_from-IsGated l es boot refl

-- The card is shown again after a failed sign-in, free for another and with an error.
abbrev pub IsUnlocked : ℕ → Option Card → Type 0
IsUnlocked form none = ⊥
IsUnlocked form (some c) = (c.form ≡ form) × (c.busy ≡ false) × (is_some c.error ≡ true)

show_error-IsUnlocked :
    (m : Text) (c : Card) (s : Session)
    → s.card ≡ some c
    → IsUnlocked c.form (show_error c.form m s).card
unfolding show_error
show_error-IsUnlocked m c s h = ground arith

login-stays : (st : ℕ) (s : Session) → ends_session (codes "/api/login") st s ≡ false
unfolding ends_session starts_with strip_prefix
login-stays st s = ground arith

-- After the answer to a sign-in from the card that is shown, the card is closed and the user is being
-- checked, or the same card is free for another sign-in and says what was wrong.
login_answer-unlocks :
    (l : Lang) (r : Response {0} Unit) (c : Card) (s : Session)
    → s.card ≡ some c
    → ((login_answer l c.form r s).card ≡ none) × (0 < (login_answer l c.form r s).checks)
      ⊎ IsUnlocked c.form (login_answer l c.form r s).card
unfolding login_answer api
login_answer-unlocks l (answered u) c s h = inl (refl, omega arith)
login_answer-unlocks l (refused st x b) c s h =
    inr (rw (login-stays st s) (show_error-IsUnlocked (login_error l (failure_of l st x b)) c s h))
login_answer-unlocks l (unreachable m) c s h =
    inr (
      show_error-IsUnlocked (login_error l (record { message = m; status = none; code = [] })) c s
        h)
