-- ===== src/Dag/Validate.antt =====
-- `validateDag` of internal/web/static/views.js. An error is the key that `t` localises.
pub mod Sound
use cronova.Base.{
  ℕ, suc, ◌==◌, Bool, true, false, ◌&&◌, ◌||◌, not, List, [], ◌∷◌, ◌++◌, map, Option, none, some,
  Text, codes, text_eq, includes, is_empty, is_alnum, trim, if◌then◌else◌, any, all, keep, length,
  leb, ◌+◌, strip_prefix,
}
use cronova.Dag.Model.{Task, Form}
use cronova.Dag.Cycle.{has_cycle}

pub data Err : Type 0 where
  empty_id task_id dup empty_cmd http_url sql_conn subdag cycle notify_url : Err

is_id_char : ℕ → Bool
is_id_char c = is_alnum c || c == b'_' || c == b'.' || c == b'-'

-- `/^[A-Za-z0-9][A-Za-z0-9_.-]*$/`
unfoldable pub id_re : Text → Bool
unfolding is_id_char is_alnum
id_re [] = false
id_re (c ∷ s) = is_alnum c && all is_id_char s

-- The members of `new Set(xs)`.
unfoldable pub set_of : List Text → List Text
set_of [] = []
set_of (x ∷ xs) = let rest = set_of xs in if includes x rest then rest else x ∷ rest

abbrev pub ids : List Task → List Text
ids ts = map (λ t. t.id) ts

abbrev pub named : List Task → List Task
named ts = keep (λ t. not (is_empty t.id)) ts

abbrev pub is_blank : Text → Bool
is_blank s = is_empty (trim s)

-- The condition on a task of type `kind`.
abbrev pub of_type : Text → Task → Bool
of_type kind t = text_eq t.type kind

pub lower : ℕ → ℕ
lower c = if leb b'A' c && leb c b'Z' then c + 32 else c

begins : Text → Text → Bool
begins p s = elim (strip_prefix p s) [ some r ↦ true | none ↦ false ]

-- `/^(https?:\/\/|mailto:)/i`
unfoldable pub notify_re : Text → Bool
unfolding lower begins strip_prefix
notify_re s =
    let low = map lower s in
    begins (codes "http://") low || begins (codes "https://") low || begins (codes "mailto:") low

-- `if (wrong) e.push(error)`
abbrev pub push_if : Bool → Err → List Err
push_if true e = e ∷ []
push_if false e = []

-- The search of `has_cycle` always ends, so the case `none` is not met.
abbrev pub cyclic : List Task → Bool
cyclic ts = elim (has_cycle ts) [ some b ↦ b | none ↦ false ]

unfoldable pub validate : List Task → Form → List Err
validate ts dag =
    push_if (any (λ t. is_empty t.id) ts) empty_id
    ++ push_if (any (λ t. not (id_re t.id)) (named ts)) task_id
    ++ push_if (not (length (set_of (ids (named ts))) == length (ids (named ts)))) dup
    ++ push_if
        (any
          (λ t.
            not (of_type (codes "http") t)
            && not (of_type (codes "subdag") t)
            && is_blank t.command)
          (named ts))
        empty_cmd
    ++ push_if (any (λ t. of_type (codes "http") t && is_blank t.http_url) (named ts)) http_url
    ++ push_if (any (λ t. of_type (codes "sql") t && is_blank t.conn) (named ts)) sql_conn
    ++ push_if (any (λ t. of_type (codes "subdag") t && is_blank t.subdag) (named ts)) subdag
    ++ push_if (cyclic (named ts)) cycle
    ++ push_if (not (is_blank dag.notify_url) && not (notify_re (trim dag.notify_url))) notify_url
