-- ===== src/Resources/Sorted.antt =====
-- Tables in the strict order of their keys, and that the handlers keep them so.
use mathlib.Core.List.{append_assoc, append-nil}
use cronova.Base.{
  ◌≡◌, refl, sym, ap, ◌∙◌, subst, Bool, true, false, not, Bool-cases, inl, inr, List, [], ◌∷◌, ◌++◌,
  All, All-map, keep, Text, text_eq, text_eq_iff, arith,
}
use cronova.Resources.Order.{text_lt, text_lt_trans, text_lt_asym, text_lt_total, text_eq_comm}
use cronova.Resources.Table.{
  Keyed, has_row, replace_row, insert_row, sort_from, sort_rows, upsert_row, delete_row,
}

module _ {A : Type 0} ⦃r : Keyed A⦄ where
  -- A key is below those of all rows.
  abbrev pub IsBelow : Text → List A → Type 0
  IsBelow k rows = All (λ x. text_lt k (r.key x) ≡ true) rows

  -- Each row is below those after it.
  abbrev pub IsSorted : List A → Type 0
  IsSorted [] = Unit
  IsSorted (x ∷ rows) = IsBelow (r.key x) rows × IsSorted rows

  IsBelow-trans :
      (j k : Text) (rows : List A) → text_lt j k ≡ true → IsBelow k rows → IsBelow j rows
  IsBelow-trans j k rows h b = All-map rows (λ x e. text_lt_trans j k (r.key x) h e) b

  IsBelow-insert_row :
      (j : Text) (g : A) (rows : List A)
      → text_lt j (r.key g) ≡ true
      → IsBelow j rows
      → IsBelow j (insert_row g rows)
  unfolding insert_row
  IsBelow-insert_row j g [] h b = (h, tt)
  IsBelow-insert_row j g (x ∷ rows) h b = elim (Bool-cases (text_lt (r.key g) (r.key x))) [
    | inl first ↦ rw first (h, b)
    | inr later ↦ rw later (b.0, IsBelow-insert_row j g rows h b.1)
  ]

  above :
      (g x : A) (rows : List A)
      → text_lt (r.key g) (r.key x) ≡ false
      → has_row (r.key g) (x ∷ rows) ≡ false
      → text_lt (r.key x) (r.key g) ≡ true
  unfolding has_row
  above g x rows h n =
      text_lt_total (r.key g) (r.key x) h (text_eq_comm (r.key g) (r.key x) ∙ ground arith)

  insert_row-IsSorted :
      (g : A) (rows : List A)
      → has_row (r.key g) rows ≡ false
      → IsSorted rows
      → IsSorted (insert_row g rows)
  unfolding insert_row has_row
  insert_row-IsSorted g [] n s = (tt, tt)
  insert_row-IsSorted g (x ∷ rows) n s = elim (Bool-cases (text_lt (r.key g) (r.key x))) [
    | inl first ↦ rw first ((first, IsBelow-trans (r.key g) (r.key x) rows first s.0), s)
    | inr later ↦ rw later (
      IsBelow-insert_row (r.key x) g rows (above g x rows later n) s.0,
      insert_row-IsSorted g rows (ground arith) s.1,
    )
  ]

  -- A row that is not below any is put at the end.
  insert_row-end :
      (g : A) (rows : List A)
      → All (λ x. text_lt (r.key x) (r.key g) ≡ true) rows
      → insert_row g rows ≡ rows ++ g ∷ []
  unfolding insert_row
  insert_row-end g [] h = refl
  insert_row-end g (x ∷ rows) h =
      rw (text_lt_asym (r.key x) (r.key g) h.0) (ap (λ l. x ∷ l) (insert_row-end g rows h.1))

  sort_from-snoc :
      (acc rows : List A) (g : A)
      → sort_from acc (rows ++ g ∷ []) ≡ insert_row g (sort_from acc rows)
  unfolding sort_from
  sort_from-snoc acc [] g = refl
  sort_from-snoc acc (x ∷ rows) g = sort_from-snoc (insert_row x acc) rows g

  IsBelow-mid :
      (k : Text) (acc : List A) (x : A) (rows : List A)
      → IsBelow k (acc ++ x ∷ rows)
      → text_lt k (r.key x) ≡ true
  IsBelow-mid k [] x rows h = h.0
  IsBelow-mid k (a ∷ acc) x rows h = IsBelow-mid k acc x rows h.1

  IsSorted-before :
      (acc : List A) (x : A) (rows : List A)
      → IsSorted (acc ++ x ∷ rows)
      → All (λ y. text_lt (r.key y) (r.key x) ≡ true) acc
  IsSorted-before [] x rows h = tt
  IsSorted-before (a ∷ acc) x rows h =
      (IsBelow-mid (r.key a) acc x rows h.0, IsSorted-before acc x rows h.1)

  sort_from-IsSorted :
      (acc rows : List A) → IsSorted (acc ++ rows) → sort_from acc rows ≡ acc ++ rows
  unfolding sort_from
  sort_from-IsSorted acc [] h = sym (append-nil acc)
  sort_from-IsSorted acc (x ∷ rows) h =
      let last : insert_row x acc ≡ acc ++ x ∷ [] =
        insert_row-end x acc (IsSorted-before acc x rows h) in
      let whole : (acc ++ x ∷ []) ++ rows ≡ acc ++ x ∷ rows = append_assoc acc (x ∷ []) rows in
      ap (λ (l : List A). sort_from l rows) last
      ∙ sort_from-IsSorted (acc ++ x ∷ []) rows (subst (λ (l : List A). IsSorted l) (sym whole) h)
      ∙ whole

  -- A new row of a sorted table goes to its place.
  pub sort_rows-snoc :
      (rows : List A) (g : A) → IsSorted rows → sort_rows (rows ++ g ∷ []) ≡ insert_row g rows
  unfolding sort_rows
  sort_rows-snoc rows g s =
      sort_from-snoc [] rows g ∙ ap (λ (l : List A). insert_row g l) (sort_from-IsSorted [] rows s)

  IsBelow-replace_row :
      (j k : Text) (g : A) (rows : List A)
      → r.key g ≡ k
      → IsBelow j rows
      → IsBelow j (replace_row k g rows)
  unfolding replace_row
  IsBelow-replace_row j k g [] e h = tt
  IsBelow-replace_row j k g (x ∷ rows) e h = elim (Bool-cases (text_eq (r.key x) k)) [
    | inl here ↦ rw here (
        let same : r.key x ≡ r.key g = (text_eq_iff (r.key x) k).0 here ∙ sym e in
        (subst (λ t. text_lt j t ≡ true) same h.0, h.1))
    | inr other ↦ rw other (h.0, IsBelow-replace_row j k g rows e h.1)
  ]

  replace_row-IsSorted :
      (k : Text) (g : A) (rows : List A)
      → r.key g ≡ k
      → IsSorted rows
      → IsSorted (replace_row k g rows)
  unfolding replace_row
  replace_row-IsSorted k g [] e h = tt
  replace_row-IsSorted k g (x ∷ rows) e h = elim (Bool-cases (text_eq (r.key x) k)) [
    | inl here ↦ rw here (
        let same : r.key x ≡ r.key g = (text_eq_iff (r.key x) k).0 here ∙ sym e in
        (subst (λ t. IsBelow t rows) same h.0, h.1))
    | inr other ↦
        rw other (IsBelow-replace_row (r.key x) k g rows e h.0, replace_row-IsSorted k g rows e h.1)
  ]

  All-keep {κ} : (P : A → Type κ) (p : A → Bool) (rows : List A) → All P rows → All P (keep p rows)
  All-keep P p [] h = tt
  All-keep P p (x ∷ rows) h = elim (Bool-cases (p x)) [
    | inl t ↦ rw t (h.0, All-keep P p rows h.1)
    | inr f ↦ rw f (All-keep P p rows h.1)
  ]

  pub delete_row-IsSorted :
      (k : Text) (rows : List A) → IsSorted rows → IsSorted (delete_row k rows)
  unfolding delete_row
  delete_row-IsSorted k [] h = tt
  delete_row-IsSorted k (x ∷ rows) h = elim (Bool-cases (text_eq (r.key x) k)) [
    | inl here ↦ rw here (delete_row-IsSorted k rows h.1)
    | inr other ↦ rw other (
      All-keep (λ y. text_lt (r.key x) (r.key y) ≡ true) (λ y. not (text_eq (r.key y) k)) rows h.0,
      delete_row-IsSorted k rows h.1,
    )
  ]

  pub upsert_row-IsSorted :
      (k : Text) (g : A) (rows : List A)
      → r.key g ≡ k
      → IsSorted rows
      → IsSorted (upsert_row k g rows)
  unfolding upsert_row
  upsert_row-IsSorted k g rows e s = elim (Bool-cases (has_row k rows)) [
    | inl old ↦ rw old (replace_row-IsSorted k g rows e s)
    | inr new ↦
        rw (new, sort_rows-snoc rows g s)
          (insert_row-IsSorted g rows (ap (λ t. has_row t rows) e ∙ new) s)
  ]
