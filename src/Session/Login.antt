-- ===== src/Session/Login.antt =====
-- The sign-in of internal/web/static/base.js: initAuth, the form of showLogin, doLogout, startApp.
-- A wait for an answer ends a step, so each answer is an event of its own.
use cronova.Base.{
  ℕ, zero, suc, Bool, true, false, List, [], ◌∷◌, none, some, Text, codes, if◌then◌else◌, ◌==◌,
}
use cronova.I18n.{Lang, t}
use cronova.Session.Api.{
  Response, Failure, Result, returned, thrown, User, Session, show_login, or_else, api,
}

-- `!r`, `r || "admin"`
unfoldable pub implicit_admin : User
implicit_admin = record { username = []; role = codes "admin"; auth = false }

unfoldable pub is_401 : Failure → Bool
is_401 f = elim f.status [ none ↦ false | some st ↦ st == 401 ]

-- What initAuth does with the result of `/api/me`, and whether the console may start.
unfoldable pub init_auth : Result User → Session → Bool × Session
unfolding show_login is_401 implicit_admin or_else
init_auth (returned u) s =
    (true, record s { auth_user = some u; role_shown = or_else u.role (codes "admin") })
init_auth (thrown f) s =
    if is_401 f
    then (false, show_login false s)
    else (true, record s { auth_user = some implicit_admin })

unfoldable pub start_if : Bool × Session → Session
start_if (ok, s) = if ok then record s { starts = suc s.starts } else s

-- The answer of `/api/me`, at the boot or after a sign-in.
unfoldable pub me_answer : Lang → Response User → Session → Session
unfolding api init_auth start_if
me_answer l r s = elim s.checks [
  | zero ↦ s
  | suc n ↦
      (let got = api l (codes "/api/me") r (record s { checks = n }) in
        start_if (init_auth got.0 got.1))
]

-- `form.onsubmit` up to its request
unfoldable pub submit : Session → Session
submit s = elim s.card [
  | none ↦ s
  | some c ↦ record s { card = some (record c { busy = true; error = none }) }
]

-- What a failed sign-in says.
unfoldable pub login_error : Lang → Failure → Text
unfolding is_401 or_else t
login_error l f =
    if is_401 f then t l (codes "login_bad") [] else or_else f.message (t l (codes "api_err") [])

-- The form that was submitted shows the error, if it is still the one on the page.
unfoldable pub show_error : ℕ → Text → Session → Session
show_error form m s = elim s.card [
  | none ↦ s
  | some c ↦
      if c.form == form
      then record s { card = some (record c { busy = false; error = some m }) }
      else s
]

-- The answer of `/api/login` to the form with this number.
unfoldable pub login_answer : Lang → ℕ → Response {0} Unit → Session → Session
unfolding api login_error show_error
login_answer l form r s =
    let got = api l (codes "/api/login") r s in
    elim got.0 [
      | returned u ↦ record got.1 { card = none; checks = suc got.1.checks }
      | thrown f ↦ show_error form (login_error l f) got.1
    ]

unfoldable pub logout_answer : Lang → Response {0} Unit → Session → Session
unfolding api show_login
logout_answer l r s =
    let got = api l (codes "/api/logout") r s in
    show_login false (record got.1 { auth_user = none })

pub data SessionEvent : Type 0 where
  me : Response User → SessionEvent
  submitted : SessionEvent
  login : ℕ → Response {0} Unit → SessionEvent
  logout : Response {0} Unit → SessionEvent
  request : Text → Response {0} Unit → SessionEvent

unfoldable pub session_step : Lang → SessionEvent → Session → Session
unfolding me_answer submit login_answer logout_answer api
session_step l (me r) s = me_answer l r s
session_step l submitted s = submit s
session_step l (login n r) s = login_answer l n r s
session_step l (logout r) s = logout_answer l r s
session_step l (request p r) s = (api l p r s).1

unfoldable pub session_run : Lang → List SessionEvent → Session → Session
unfolding session_step
session_run l [] s = s
session_run l (e ∷ es) s = session_run l es (session_step l e s)

-- The page as it loads, with the first check under way.
unfoldable pub boot : Session
boot = record { auth_user = none; card = none; forms = 0; role_shown = []; checks = 1; starts = 0 }
