-- ===== src/Session/Api.antt =====
-- `api` of internal/web/static/base.js: a request's answer as a value or an error, and the end of the
-- session that an error can mean.
use cronova.Base.{
  ℕ, suc, Bool, true, false, not, ◌&&◌, [], ◌++◌, Option, none, some, Text, codes, is_empty,
  strip_prefix, if◌then◌else◌, ◌==◌,
}
use cronova.I18n.{Lang}
use cronova.I18n.Labels.{phrase_or}

-- What `fetch` brings: a value; a status that is not one of success, with the fields `error` and
-- `code` of its JSON body if it has one; or no answer.
pub data Response {ℓ} (A : Type ℓ) : Type ℓ where
  answered : A → Response A
  refused : ℕ → Text → Option (Text × Text) → Response A
  unreachable : Text → Response A

-- The Error that is thrown: its status and code are missing where no answer came.
pub record Failure : Type 0 where
  pub message : Text
  pub status : Option ℕ
  pub code : Text

pub data Result {ℓ} (A : Type ℓ) : Type ℓ where
  returned : A → Result A
  thrown : Failure → Result A

-- `authUser`: `auth` is false for an instance without sign-in.
pub record User : Type 0 where
  pub username : Text
  pub role : Text
  pub auth : Bool

-- The card of the sign-in, with the number of its form.
pub record Card : Type 0 where
  pub form : ℕ
  pub expired : Bool
  pub error : Option Text
  pub busy : Bool

-- `checks` counts the requests for `/api/me` under way, `starts` the calls of startApp.
pub record Session : Type 0 where
  pub auth_user : Option User
  pub card : Option Card
  pub forms : ℕ
  pub role_shown : Text
  pub checks : ℕ
  pub starts : ℕ

unfoldable pub show_login : Bool → Session → Session
show_login ex s = record s {
  card = some (record { form = s.forms; expired = ex; error = none; busy = false });
  forms = suc s.forms;
}

unfoldable pub starts_with : Text → Text → Bool
unfolding strip_prefix
starts_with s p = elim (strip_prefix p s) [ none ↦ false | some r ↦ true ]

-- `b.error || m`
unfoldable pub or_else : Text → Text → Text
or_else a b = if is_empty a then b else a

-- `if (code) { … if (loc !== "err_code_" + code) m = loc; }`
unfoldable pub localized : Lang → Text → Text → Text
unfolding phrase_or
localized l c m = if is_empty c then m else phrase_or l (codes "err_code_" ++ c) m

unfoldable pub failure_of : Lang → ℕ → Text → Option (Text × Text) → Failure
unfolding localized or_else
failure_of l st text none = record { message = text; status = some st; code = [] }
failure_of l st text (some (e, c)) = record {
  message = localized l c (or_else e text);
  status = some st;
  code = c;
}

-- Whether an answer means that the session is over.
unfoldable pub ends_session : Text → ℕ → Session → Bool
unfolding starts_with
ends_session path st s =
    st == 401
    && elim s.auth_user [ none ↦ false | some u ↦ true ]
    && not (starts_with path (codes "/api/login"))
    && not (starts_with path (codes "/api/me"))

unfoldable pub api {ℓ} : {A : Type ℓ} → Lang → Text → Response A → Session → Result A × Session
unfolding failure_of ends_session show_login
api l path (answered a) s = (returned a, s)
api l path (refused st text body) s = (
  thrown (failure_of l st text body),
  if ends_session path st s then show_login true (record s { auth_user = none }) else s,
)
api l path (unreachable m) s = (thrown (record { message = m; status = none; code = [] }), s)
