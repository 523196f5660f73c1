-- ===== src/Session/Samples.antt =====
-- Tests of the session, and its theorems at concrete answers.
use cronova.Base.{
  ◌≡◌, refl, true, false, not, [], ◌∷◌, Option, none, some, Text, codes, if◌then◌else◌, all,
  is_alnum, ◌==◌, map, is_digit, ℕ, leb, ◌-◌, ◌+◌, arith,
}
use cronova.I18n.{en}
use cronova.Session.Api.{Response, refused, Session, show_login}
use cronova.Session.Login.{me, login, submitted, session_run, boot}
use cronova.Session.Gate.{IsGated, session_run-IsGated}
use cronova.Session.Route.{task, apply_route, address}
use cronova.Session.Address.{apply_route-address}

no_body : Response {0} Unit
no_body = refused 401 (codes "Unauthorized") none

-- A page that is loaded without a session, and a sign-in that fails.
abbrev signing_in : Session
signing_in = show_login false boot

session_run-IsGated_example :
    IsGated (session_run en (me (refused 401 [] none) ∷ submitted ∷ login 0 no_body ∷ []) boot)
session_run-IsGated_example =
    session_run-IsGated en (me (refused 401 [] none) ∷ submitted ∷ login 0 no_body ∷ [])

-- A concrete code: what is neither a letter nor a digit moves up by 1000.
unfoldable move_up : ℕ → ℕ
unfolding is_alnum is_digit
move_up c = if is_alnum c then c else c + 1000

unfoldable encode : Text → Text
unfolding move_up
encode s = map move_up s

unfoldable decode : Text → Option Text
decode s = some (map (λ c. if leb 1000 c then c - 1000 else c) s)

decode-encode : (s : Text) → decode (encode s) ≡ some s
unfolding decode encode move_up is_alnum is_digit
decode-encode [] = refl
decode-encode (c ∷ s) = ground (arith, decode-encode s)

encode-no_slash : (s : Text) → all (λ c. not (c == b'/')) (encode s) ≡ true
unfolding encode move_up is_alnum is_digit
encode-no_slash [] = refl
encode-no_slash (c ∷ s) = ground (arith, encode-no_slash s)

decode-alnum : (s : Text) → all is_alnum s ≡ true → decode s ≡ some s
unfolding decode is_alnum is_digit
decode-alnum [] h = refl
decode-alnum (c ∷ s) h = ground (arith, decode-alnum s)

apply_route-address_example :
    apply_route decode (address encode (task (codes "daily") (codes "load-1")))
    ≡ some (task (codes "daily") (codes "load-1"))
apply_route-address_example =
    apply_route-address encode decode decode-encode encode-no_slash decode-alnum
      (task (codes "daily") (codes "load-1")) (refl, refl)
