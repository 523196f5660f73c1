-- ===== src/Session/Errors.antt =====
-- What `api` throws, and when it signs the user out.
use cronova.Base.{
  ℕ, ◌≡◌, refl, Bool-cases, inl, inr, ◌++◌, some, Text, codes, is_empty, if◌then◌else◌,
}
use cronova.I18n.{Lang, dict, entry}
use cronova.I18n.Known.{wording, phrase_or-entry}
use cronova.Session.Api.{refused, thrown, Session, or_else, localized, failure_of, api}

-- The wording of an error's code, where it has one.
abbrev pub coded : Lang → Text → Text → Text
coded l c m = if is_empty c then m else wording (entry (dict l) (codes "err_code_" ++ c)) m

pub localized-entry : (l : Lang) (c m : Text) → localized l c m ≡ coded l c m
unfolding localized
localized-entry l c m = elim (Bool-cases (is_empty c)) [
  | inl empty ↦ rw empty refl
  | inr h ↦ rw h (phrase_or-entry l (codes "err_code_" ++ c) m refl)
]

-- A refused request throws its status and the body's code. Its message is the phrase of that code
-- where there is a code and the dictionary of the language has a phrase for it; and else the body's
-- message, or the text of the status where that is empty.
api-message {ℓ} :
    {A : Type ℓ} (l : Lang) (path : Text) (st : ℕ) (text e c : Text) (s : Session)
    → (api {A = A} l path (refused st text (some (e, c))) s).0
      ≡ thrown (record {
        message = coded l c (if is_empty e then text else e);
        status = some st;
        code = c;
      })
unfolding api failure_of or_else
api-message l path st text e c s = rw (localized-entry l c (if is_empty e then text else e)) refl
