-- ===== src/Command/Pills.antt =====
-- The editor of a command with its template variables: TPL_RE, fillPillEditor, readPillEditor and
-- removePill of internal/web/static/views.js. A variable is one node, a pill.
use cronova.Base.{
  ℕ, zero, suc, ◌+◌, ◌-◌, Bool, true, false, ◌||◌, not, [], ◌∷◌, ◌++◌, length, Option, none, some,
  Text, codes, text_eq, is_empty, is_space, is_alnum, span, strip_prefix, if◌then◌else◌, ◌==◌,
  ◌>>=◌,
}

-- `[\w.]`
unfoldable pub is_name_char : ℕ → Bool
unfolding is_alnum
is_name_char c = is_alnum c || c == b'_' || c == b'.'

-- A match of TPL_RE at the start of a text: the name, and the length of the match.
unfoldable pub match_template : Text → Option (Text × ℕ)
unfolding strip_prefix span is_space is_name_char
match_template s = strip_prefix (codes "{{") s >>= (λ a.
    let left = span is_space a in
    let name = span is_name_char left.1 in
    let right = span is_space name.1 in
    if is_empty name.0
    then none
    else strip_prefix (codes "}}") right.1
      >>= (λ rest. some (name.0, 4 + length left.0 + length name.0 + length right.0)))

mutual
  -- The nodes of the editor: texts, pills, line breaks, blocks, and other elements.
  pub data Node : Type 0 where
    text_node : Text → Node
    pill_node : Text → Node
    break_node : Node
    block_node : Nodes → Node
    inline_node : Nodes → Node

  pub data Nodes : Type 0 where
    no_nodes : Nodes
    one_more : Node → Nodes → Nodes

-- The text before a match, if there is some, before further nodes.
unfoldable pub text_first : Text → Nodes → Nodes
text_first [] ns = ns
text_first (c ∷ s) ns = one_more (text_node (c ∷ s)) ns

-- The loop of fillPillEditor: so many characters of the match are left, and the text since the last
-- match.
unfoldable pub fill_from : ℕ → Text → Text → Nodes
fill_from k lit [] = text_first lit no_nodes
fill_from (suc k) lit (c ∷ s) = fill_from k lit s
fill_from zero lit (c ∷ s) = elim (match_template (c ∷ s)) [
  | none ↦ fill_from zero (lit ++ c ∷ []) s
  | some m ↦ text_first lit (one_more (pill_node m.0) (fill_from (m.1 - 1) [] s))
]

unfoldable pub fill_editor : Text → Nodes
unfolding fill_from
fill_editor s = fill_from 0 [] s

-- `d.slice(1)` where `d` starts with the anchor
unfoldable pub drop_anchor : Text → Text
drop_anchor [] = []
drop_anchor (c ∷ s) = if c == 0x200b then s else c ∷ s

-- `out && !out.endsWith("\n")`
unfoldable pub wants_break : Text → Bool
wants_break [] = false
wants_break (c ∷ []) = not (c == b'\n')
wants_break (c ∷ d ∷ s) = wants_break (d ∷ s)

-- `{{ name }}`
unfoldable pub spell : Text → Text
spell name = codes "{{ " ++ (name ++ codes " }}")

unfoldable mutual
  unfolding drop_anchor wants_break spell

  -- `walk`, from the text so far and `afterPill`
  pub read_node : Node → Text × Bool → Text × Bool
  read_node (text_node d) (out, after) = (out ++ (if after then drop_anchor d else d), false)
  read_node (pill_node name) (out, after) = (out ++ spell name, true)
  read_node break_node (out, after) = (out ++ b'\n' ∷ [], false)
  read_node (block_node ns) (out, after) =
      ((read_nodes ns (if wants_break out then out ++ b'\n' ∷ [] else out, after)).0, false)
  read_node (inline_node ns) (out, after) = ((read_nodes ns (out, after)).0, false)

  pub read_nodes : Nodes → Text × Bool → Text × Bool
  read_nodes no_nodes st = st
  read_nodes (one_more n ns) st = read_nodes ns (read_node n st)

unfoldable pub read_editor : Nodes → Text
unfolding read_nodes
read_editor ns = (read_nodes ns ([], false)).0

-- `removePill` of the pill with this number among the nodes: an anchor after it goes too.
unfoldable pub drop_lone_anchor : Nodes → Nodes
unfolding text_eq
drop_lone_anchor no_nodes = no_nodes
drop_lone_anchor (one_more (text_node d) ns) =
    if text_eq d (0x200b ∷ []) then ns else one_more (text_node d) ns
drop_lone_anchor (one_more n ns) = one_more n ns

unfoldable pub remove_pill : ℕ → Nodes → Nodes
unfolding drop_lone_anchor
remove_pill i no_nodes = no_nodes
remove_pill zero (one_more (pill_node x) ns) = drop_lone_anchor ns
remove_pill (suc i) (one_more (pill_node x) ns) = one_more (pill_node x) (remove_pill i ns)
remove_pill i (one_more n ns) = one_more n (remove_pill i ns)
