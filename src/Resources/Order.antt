-- ===== src/Resources/Order.antt =====
-- `a < b` of texts, by code units: a strict order in which any two texts compare.
use cronova.Base.{
  ◌≡◌, refl, Bool, true, false, ◌||◌, ◌&&◌, [], ◌∷◌, Text, text_eq, ltb, ◌==◌, arith,
}

-- `a < b`
unfoldable pub text_lt : Text → Text → Bool
text_lt a [] = false
text_lt [] (d ∷ b) = true
text_lt (c ∷ a) (d ∷ b) = ltb c d || c == d && text_lt a b

pub text_lt_irrefl : (a : Text) → text_lt a a ≡ false
unfolding text_lt
text_lt_irrefl [] = refl
text_lt_irrefl (c ∷ a) = ground (arith, text_lt_irrefl a)

pub text_lt_trans : (a b c : Text) → text_lt a b ≡ true → text_lt b c ≡ true → text_lt a c ≡ true
unfolding text_lt
text_lt_trans a [] c h k = absurd (cc)
text_lt_trans a (y ∷ b) [] h k = absurd (cc)
text_lt_trans [] (y ∷ b) (z ∷ c) h k = refl
text_lt_trans (x ∷ a) (y ∷ b) (z ∷ c) h k = ground (arith, text_lt_trans a b c)

pub text_lt_asym : (a b : Text) → text_lt a b ≡ true → text_lt b a ≡ false
unfolding text_lt
text_lt_asym a [] h = absurd (cc)
text_lt_asym [] (d ∷ b) h = refl
text_lt_asym (c ∷ a) (d ∷ b) h = ground (arith, text_lt_asym a b)

pub text_lt_total : (a b : Text) → text_lt a b ≡ false → text_eq a b ≡ false → text_lt b a ≡ true
unfolding text_lt text_eq
text_lt_total [] [] h k = absurd (cc)
text_lt_total [] (d ∷ b) h k = absurd (cc)
text_lt_total (c ∷ a) [] h k = refl
text_lt_total (c ∷ a) (d ∷ b) h k = ground (arith, text_lt_total a b)

pub text_eq_comm : (a b : Text) → text_eq a b ≡ text_eq b a
unfolding text_eq
text_eq_comm [] [] = refl
text_eq_comm [] (d ∷ b) = refl
text_eq_comm (c ∷ a) [] = refl
text_eq_comm (c ∷ a) (d ∷ b) = ground (arith, text_eq_comm a b)
