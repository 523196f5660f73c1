-- ===== src/Session/Route.antt =====
-- Pages and addresses: applyRoute of internal/web/static/base.js, and the hashes that the pages of
-- views.js and builder.js set. `decode` is decodeURIComponent, which throws on a malformed text, and
-- `encode` is encodeURIComponent.
use cronova.Base.{
  not, ◌&&◌, List, [], ◌∷◌, ◌++◌, Option, none, some, Text, codes, text_eq, is_empty, split, keep,
  strip_prefix, if◌then◌else◌, ◌>>=◌,
}

-- What applyRoute shows.
pub data Page : Type 0 where
  dags wizard pools resources graph audit workers api_page : Page
  run : Text → Page
  dag : Text → Option Text → Page
  task : Text → Text → Page

-- `location.hash.replace(/^#\/?/, "")`
unfoldable pub after_hash : Text → Text
unfolding strip_prefix
after_hash h = elim (strip_prefix (codes "#/") h) [
  | some r ↦ r
  | none ↦ elim (strip_prefix (codes "#") h) [ some r ↦ r | none ↦ h ]
]

-- `map(decodeURIComponent)`
unfoldable pub decode_all : (Text → Option Text) → List Text → Option (List Text)
decode_all decode [] = some []
decode_all decode (s ∷ ss) = decode s >>= (λ a. decode_all decode ss >>= (λ r. some (a ∷ r)))

unfoldable pub segments : (Text → Option Text) → Text → Option (List Text)
unfolding decode_all after_hash split
segments decode h =
    decode_all decode (split b'/' (after_hash h)) >>= (λ ss. some (keep (λ s. not (is_empty s)) ss))

-- The pages of one segment, and the list of definitions for any other.
unfoldable pub plain_page : Text → Page
unfolding text_eq
plain_page s =
    if text_eq s (codes "new")
    then wizard
    else if text_eq s (codes "pools")
    then pools
    else if text_eq s (codes "resources")
    then resources
    else if text_eq s (codes "graph")
    then graph
    else if text_eq s (codes "audit")
    then audit
    else if text_eq s (codes "workers")
    then workers
    else if text_eq s (codes "api")
    then api_page
    else dags

-- `#/dag/…` after its first segment
unfoldable pub dag_page : Text → List Text → Page
unfolding text_eq
dag_page d [] = dag d none
dag_page d (t ∷ []) = dag d (some t)
dag_page d (t ∷ k ∷ r) = if text_eq t (codes "task") then task d k else dag d (some t)

unfoldable pub page_of : List Text → Page
unfolding text_eq plain_page dag_page
page_of [] = dags
page_of (s ∷ []) = plain_page s
page_of (s ∷ i ∷ r) =
    if text_eq s (codes "run")
    then run i
    else if text_eq s (codes "dag")
    then dag_page i r
    else plain_page s

-- The page of an address; nothing where `decode` throws.
unfoldable pub apply_route : (Text → Option Text) → Text → Option Page
unfolding segments page_of
apply_route decode h = segments decode h >>= (λ ss. some (page_of ss))

-- The address that a page sets.
unfoldable pub address : (Text → Text) → Page → Text
unfolding text_eq
address encode dags = codes "#/dags"
address encode wizard = codes "#/new"
address encode pools = codes "#/pools"
address encode resources = codes "#/resources"
address encode graph = codes "#/graph"
address encode audit = codes "#/audit"
address encode workers = codes "#/workers"
address encode api_page = codes "#/api"
address encode (run i) = codes "#/run/" ++ encode i
address encode (dag d none) = codes "#/dag/" ++ encode d
address encode (dag d (some t)) =
    if not (is_empty t) && not (text_eq t (codes "runs"))
    then codes "#/dag/" ++ (encode d ++ b'/' ∷ t)
    else codes "#/dag/" ++ encode d
address encode (task d k) = codes "#/dag/" ++ (encode d ++ (codes "/task/" ++ encode k))
