-- ===== src/Dashboard/Sets.antt =====
-- Sets of ids as lists: what holds of every element after additions and removals.
use cronova.Base.{
  ◌≡◌, refl, Bool, true, not, Bool-cases, inl, inr, List, [], ◌∷◌, ◌++◌, keep, all, includes, Text,
  text_eq, text_eq_self, arith,
}
use cronova.Dashboard.Bulk.{set_add, set_delete, add_all, delete_all}

module _ {ℓ} {A : Type ℓ} where
  all-snoc :
      (p : A → Bool) (xs : List A) (x : A)
      → all p xs ≡ true
      → p x ≡ true
      → all p (xs ++ x ∷ []) ≡ true
  all-snoc p [] x h e = ground arith
  all-snoc p (y ∷ xs) x h e = ground (arith, all-snoc p xs x)

  pub all-keep_of : (p q : A → Bool) (xs : List A) → all p xs ≡ true → all p (keep q xs) ≡ true
  all-keep_of p q [] h = refl
  all-keep_of p q (x ∷ xs) h = ground (arith, all-keep_of p q xs)

  all_mono :
      (p q : A → Bool) (xs : List A)
      → ((x : A) → p x ≡ true → q x ≡ true)
      → all p xs ≡ true
      → all q xs ≡ true
  all_mono p q [] f h = refl
  all_mono p q (x ∷ xs) f h = ground (arith, f x, all_mono p q xs f)

pub all-includes : (ids : List Text) → all (λ i. includes i ids) ids ≡ true
all-includes [] = refl
all-includes (j ∷ ids) = ground (
  arith,
  text_eq_self j,
  all_mono (λ i. includes i ids) (λ i. includes i (j ∷ ids)) ids (λ i h. ground arith)
      (all-includes ids),
)

pub all-set_add :
    (p : Text → Bool) (i : Text) (xs : List Text)
    → p i ≡ true
    → all p xs ≡ true
    → all p (set_add i xs) ≡ true
unfolding set_add
all-set_add p i xs h k = elim (Bool-cases (includes i xs)) [
  | inl old ↦ rw old k
  | inr new ↦ rw new (all-snoc p xs i k h)
]

pub all-add_all :
    (p : Text → Bool) (is xs : List Text)
    → all p is ≡ true
    → all p xs ≡ true
    → all p (add_all is xs) ≡ true
unfolding add_all
all-add_all p [] xs h k = k
all-add_all p (i ∷ is) xs h k =
    all-add_all p is (set_add i xs) (ground arith) (all-set_add p i xs (ground arith) k)

pub all-delete_all :
    (p : Text → Bool) (is xs : List Text) → all p xs ≡ true → all p (delete_all is xs) ≡ true
unfolding delete_all set_delete
all-delete_all p [] xs k = k
all-delete_all p (i ∷ is) xs k =
    all-delete_all p is (keep (λ x. not (text_eq x i)) xs)
      (all-keep_of p (λ x. not (text_eq x i)) xs k)
