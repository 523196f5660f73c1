-- ===== src/Resources/Lookup.antt =====
-- A table stands for a map from keys to rows, and the handlers change it as they change that map.
use mathlib.Core.Path.{fun_ext}
use cronova.Base.{
  ◌≡◌, refl, ap, ◌∙◌, true, false, Bool-cases, inl, inr, List, [], ◌∷◌, Option, none, some, Text,
  text_eq, if◌then◌else◌, arith, text_eq_cong, text_apart,
}
use cronova.Resources.Order.{text_lt}
use cronova.Resources.Table.{
  Keyed, find_row, has_row, replace_row, insert_row, upsert_row, delete_row,
}
use cronova.Resources.Sorted.{IsSorted, sort_rows-snoc, upsert_row-IsSorted, delete_row-IsSorted}

-- What a handler does to the table, once its request has gone well.
pub data Change (A : Type 0) : Type 0 where
  put_row : A → Change A
  drop_row : Text → Change A

module _ {A : Type 0} ⦃r : Keyed A⦄ where
  unfoldable pub change_table : Change A → List A → List A
  change_table (put_row g) rows = upsert_row (r.key g) g rows
  change_table (drop_row k) rows = delete_row k rows

  unfoldable pub change_tables : List (Change A) → List A → List A
  unfolding change_table
  change_tables [] rows = rows
  change_tables (c ∷ cs) rows = change_tables cs (change_table c rows)

  -- The same on a map.
  unfoldable pub change_map : Change A → (Text → Option A) → Text → Option A
  change_map (put_row g) m j = if text_eq (r.key g) j then some g else m j
  change_map (drop_row k) m j = if text_eq k j then none else m j

  unfoldable pub change_maps : List (Change A) → (Text → Option A) → Text → Option A
  unfolding change_map
  change_maps [] m = m
  change_maps (c ∷ cs) m = change_maps cs (change_map c m)

  find_row-replace_row :
      (j : Text) (g : A) (rows : List A)
      → has_row (r.key g) rows ≡ true
      → find_row j (replace_row (r.key g) g rows)
        ≡ (if text_eq (r.key g) j then some g else find_row j rows)
  unfolding find_row replace_row has_row
  find_row-replace_row j g [] h = absurd (cc)
  find_row-replace_row j g (x ∷ rows) h = elim (Bool-cases (text_eq (r.key x) (r.key g))) [
    | inl here ↦ ground (arith, text_eq_cong (r.key x) (r.key g) j here)
    | inr other ↦ ground (
      arith,
      text_apart (r.key x) (r.key g) j other,
      find_row-replace_row j g rows (ground arith),
    )
  ]

  find_row-insert_row :
      (j : Text) (g : A) (rows : List A)
      → has_row (r.key g) rows ≡ false
      → find_row j (insert_row g rows) ≡ (if text_eq (r.key g) j then some g else find_row j rows)
  unfolding find_row insert_row has_row
  find_row-insert_row j g [] h = refl
  find_row-insert_row j g (x ∷ rows) h = elim (Bool-cases (text_lt (r.key g) (r.key x))) [
    | inl first ↦ rw first refl
    | inr later ↦ rw later (
        let other : text_eq (r.key x) (r.key g) ≡ false = ground arith in
        let rest : has_row (r.key g) rows ≡ false = ground arith in
        ground (arith, text_apart (r.key x) (r.key g) j other, find_row-insert_row j g rows rest))
  ]

  find_row-delete_row :
      (j k : Text) (rows : List A)
      → find_row j (delete_row k rows) ≡ (if text_eq k j then none else find_row j rows)
  unfolding find_row delete_row
  find_row-delete_row j k [] = ground arith
  find_row-delete_row j k (x ∷ rows) = elim (Bool-cases (text_eq (r.key x) k)) [
    | inl here ↦ ground (arith, text_eq_cong (r.key x) k j here, find_row-delete_row j k rows)
    | inr other ↦ ground (arith, text_apart (r.key x) k j other, find_row-delete_row j k rows)
  ]

  find_row-upsert_row :
      (j : Text) (g : A) (rows : List A)
      → IsSorted rows
      → find_row j (upsert_row (r.key g) g rows)
        ≡ (if text_eq (r.key g) j then some g else find_row j rows)
  unfolding upsert_row
  find_row-upsert_row j g rows s = elim (Bool-cases (has_row (r.key g) rows)) [
    | inl old ↦ rw old (find_row-replace_row j g rows old)
    | inr new ↦ rw (new, sort_rows-snoc rows g s) (find_row-insert_row j g rows new)
  ]

  change_table-IsSorted :
      (c : Change A) (rows : List A) → IsSorted rows → IsSorted (change_table c rows)
  unfolding change_table
  change_table-IsSorted (put_row g) rows s = upsert_row-IsSorted (r.key g) g rows refl s
  change_table-IsSorted (drop_row k) rows s = delete_row-IsSorted k rows s

  find_row-change_table :
      (c : Change A) (rows : List A) (j : Text)
      → IsSorted rows
      → find_row j (change_table c rows) ≡ change_map c (λ i. find_row i rows) j
  unfolding change_table change_map
  find_row-change_table (put_row g) rows j s = find_row-upsert_row j g rows s
  find_row-change_table (drop_row k) rows j s = find_row-delete_row j k rows

  -- A sorted table stays sorted through any changes, and a key finds in it what it finds in the map
  -- of the first table after the same changes.
  pub change_tables-change_maps :
      (cs : List (Change A)) (rows : List A)
      → IsSorted rows
      → IsSorted (change_tables cs rows)
        × ((j : Text)
            → find_row j (change_tables cs rows) ≡ change_maps cs (λ i. find_row i rows) j)
  unfolding change_tables change_maps
  change_tables-change_maps [] rows s = (s, λ j. refl)
  change_tables-change_maps (c ∷ cs) rows s =
      let rest =
        change_tables-change_maps cs (change_table c rows) (change_table-IsSorted c rows s) in
      (
        rest.0,
        λ j.
            rest.1 j
            ∙ ap (λ (m : Text → Option A). change_maps cs m j)
                (fun_ext (λ i. find_row-change_table c rows i s)),
      )
