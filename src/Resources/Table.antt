-- ===== src/Resources/Table.antt =====
-- The tables of the page as the handlers change them in place, for any kind of row with a key.
use cronova.Base.{
  Bool, not, List, [], ◌∷◌, ◌++◌, keep, any, find, Option, Text, text_eq, if◌then◌else◌,
}
use cronova.Resources.Order.{text_lt}

-- What the handlers take for the key of a row.
pub record Keyed (A : Type 0) : Type 0 where
  pub key : A → Text

module _ {A : Type 0} ⦃r : Keyed A⦄ where
  -- `rows.find((x) => x.key === k)`
  unfoldable pub find_row : Text → List A → Option A
  unfolding text_eq
  find_row k rows = find (λ x. text_eq (r.key x) k) rows

  unfoldable pub has_row : Text → List A → Bool
  unfolding text_eq
  has_row k rows = any (λ x. text_eq (r.key x) k) rows

  -- `rows[i] = g` for the first row with the key
  unfoldable pub replace_row : Text → A → List A → List A
  unfolding text_eq
  replace_row k g [] = []
  replace_row k g (x ∷ rows) =
      let rest = replace_row k g rows in if text_eq (r.key x) k then g ∷ rows else x ∷ rest

  -- The place of a row among sorted ones: `a.key < b.key ? -1 : 1` puts it before the first one that
  -- its key is less than.
  unfoldable pub insert_row : A → List A → List A
  insert_row g [] = g ∷ []
  insert_row g (x ∷ rows) =
      let rest = insert_row g rows in if text_lt (r.key g) (r.key x) then g ∷ x ∷ rows else x ∷ rest

  unfoldable pub sort_from : List A → List A → List A
  sort_from sorted [] = sorted
  sort_from sorted (x ∷ rows) = sort_from (insert_row x sorted) rows

  -- `rows.sort((a, b) => (a.key < b.key ? -1 : 1))`
  unfoldable pub sort_rows : List A → List A
  unfolding sort_from
  sort_rows rows = sort_from [] rows

  -- `if (i >= 0) rows[i] = g; else { rows.push(g); rows.sort(…); }`
  unfoldable pub upsert_row : Text → A → List A → List A
  unfolding has_row
  upsert_row k g rows = if has_row k rows then replace_row k g rows else sort_rows (rows ++ g ∷ [])

  -- `rows.filter((x) => x.key !== k)`
  unfoldable pub delete_row : Text → List A → List A
  unfolding text_eq
  delete_row k rows = keep (λ x. not (text_eq (r.key x) k)) rows
