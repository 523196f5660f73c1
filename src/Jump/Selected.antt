-- ===== src/Jump/Selected.antt =====
-- The selection is always one of the matches shown.
use native.Mathlib.Nat.{mod-eq_of_lt, mod-eq-sub-mod, mod_self, add-mod_right}
use mathlib.Core.List.{Memᴰ}
use cronova.Base.{
  sym, ℕ, zero, suc, ◌+◌, ◌-◌, ◌%◌, ◌≤◌, ◌<◌, ◌≡◌, ◌⊎◌, refl, inl, inr, ap, ◌∙◌, Bool, true, false,
  Bool-cases, subst, List-cases, not, ltb, ◌==◌, List, [], ◌∷◌, Option, none, some, Text, length,
  get_elem?, is_empty, arith, if◌then◌else◌,
}
use cronova.Jump.{
  Jump, JumpEvent, type_search, arrow_down, arrow_up, close_menu, jump_query, jump_matches,
  shown_with, close_jump, update_jump, moved, jump_move, jump_enter, jump_step, jump_run,
}

-- Where matches are shown, one of them is selected; a hidden menu has none.
pub record IsSelected (j : Jump) : Type 0 where
  pub inside : (0 < length j.items) → (i : ℕ) × (j.selected ≡ some i) × (i < length j.items)
  pub empty : j.hidden ≡ true → j.items ≡ []

moved-lt : (down : Bool) (n : ℕ) (s : Option ℕ) → 0 < n → moved down n s < n
unfolding moved
moved-lt down n none p = ground arith
moved-lt down n (some i) p = ground arith

mod-wrap : (k n : ℕ) → n ≤ k → k < n + n → k % n ≡ k - n
mod-wrap k n a b = mod-eq-sub-mod a ∙ mod-eq_of_lt (omega arith)

-- Down is the next index or the first, up the one before or the last.
moved-down : (n i : ℕ) → i < n → moved true n (some i) ≡ (if ltb (i + 1) n then i + 1 else 0)
unfolding moved
moved-down n i p = elim (Bool-cases (ltb (i + 1) n)) [
  | inl t ↦
      (let small : i + 1 < n = ground arith in
        rw t (mod-wrap (i + 1 + n) n (omega arith) (omega arith) ∙ omega arith))
  | inr f ↦
      (let last : i + 1 ≡ n = ground arith in
        rw f (add-mod_right (i + 1) n ∙ ap (λ (k : ℕ). k % n) last ∙ mod_self n))
]

moved-up : (n i : ℕ) → i < n → moved false n (some i) ≡ (if i == 0 then n - 1 else i - 1)
unfolding moved
moved-up n i p = elim (Bool-cases (i == 0)) [
  | inl t ↦ (let first : i ≡ 0 = ground arith in rw t (mod-eq_of_lt (omega arith) ∙ omega arith))
  | inr f ↦
      (let later : 1 ≤ i = ground arith in
        rw f (mod-wrap (i + n - 1) n (omega arith) (omega arith) ∙ omega arith))
]

moved-moved :
    (down : Bool) (n i : ℕ) → i < n → moved (not down) n (some (moved down n (some i))) ≡ i
moved-moved true n i p =
    let there = moved-down n i p in
    let back = moved-up n (moved true n (some i)) (moved-lt true n (some i) (omega arith)) in
    ground arith
moved-moved false n i p =
    let there = moved-up n i p in
    let back = moved-down n (moved false n (some i)) (moved-lt false n (some i) (omega arith)) in
    ground arith

-- An open menu with matches.
abbrev open_menu : Text → List Text → ℕ → Jump
open_menu x xs i = record { hidden = false; items = x ∷ xs; selected = some i }

open_menu-is :
    (j : Jump) (x : Text) (xs : List Text) (i : ℕ)
    → j.hidden ≡ false
    → j.items ≡ x ∷ xs
    → j.selected ≡ some i
    → j ≡ open_menu x xs i
open_menu-is j x xs i h e s = cc

open_menu-back :
    (down : Bool) (x : Text) (xs : List Text) (i : ℕ)
    → i < length (x ∷ xs)
    → (jump_move (not down) (jump_move down (open_menu x xs i))).selected ≡ some i
unfolding jump_move
open_menu-back down x xs i p = ap some (moved-moved down (length (x ∷ xs)) i p)

-- Where the selection is one of the shown matches, a move and then one the other way give the
-- selection back.
jump_move-back :
    (j : Jump) (down : Bool) (i : ℕ)
    → j.hidden ≡ false
    → j.selected ≡ some i
    → i < length j.items
    → (jump_move (not down) (jump_move down j)).selected ≡ some i
jump_move-back j down i h s p = elim (List-cases j.items) [
  | inl e ↦ absurd (ground arith)
  | inr (x, xs, e) ↦
      (let is = open_menu-is j x xs i h e s in
        let inside : i < length (x ∷ xs) = subst (λ (l : List Text). i < length l) e p in
        ap (λ (k : Jump). (jump_move (not down) (jump_move down k)).selected) is
        ∙ open_menu-back down x xs i inside)
]

shown_with-IsSelected : (l : List Text) → IsSelected (shown_with l)
unfolding shown_with
shown_with-IsSelected [] = record { inside = λ p. absurd (omega arith); empty = λ h. refl }
shown_with-IsSelected (x ∷ l) = record { inside = λ p. (0, refl, p); empty = λ h. absurd (cc) }

close_jump-IsSelected : (j : Jump) → IsSelected (close_jump j)
unfolding close_jump
close_jump-IsSelected j = record { inside = λ p. absurd (omega arith); empty = λ h. refl }

update_jump-IsSelected :
    (dags : List Text) (raw : Text) (j : Jump) → IsSelected (update_jump dags raw j)
unfolding update_jump
update_jump-IsSelected dags raw j = elim (Bool-cases (is_empty (jump_query raw))) [
  | inl e ↦ rw e (close_jump-IsSelected j)
  | inr e ↦ rw e (shown_with-IsSelected (jump_matches dags (jump_query raw)))
]

jump_move-IsSelected : (down : Bool) (j : Jump) → IsSelected j → IsSelected (jump_move down j)
unfolding jump_move
jump_move-IsSelected down j k = elim (List-cases j.items) [
  | inl e ↦ rw (e, jump_move) k
  | inr (x, xs, e) ↦ elim (Bool-cases j.hidden) [
    | inl h ↦ (let none_shown = k.empty h in absurd (cc))
    | inr h ↦
        rw (e, h, jump_move)
          (record {
            inside = λ p. (
              moved down (length (x ∷ xs)) j.selected,
              refl,
              subst (λ (l : List Text). moved down (length (x ∷ xs)) j.selected < length l) (sym e)
                  (moved-lt down (length (x ∷ xs)) j.selected (omega arith)),
            );
            empty = λ b. absurd (cc);
          })
  ]
]

jump_step-IsSelected : (j : Jump) (v : JumpEvent) → IsSelected j → IsSelected (jump_step j v)
unfolding jump_step
jump_step-IsSelected j (type_search dags raw) k = update_jump-IsSelected dags raw j
jump_step-IsSelected j arrow_down k = jump_move-IsSelected true j k
jump_step-IsSelected j arrow_up k = jump_move-IsSelected false j k
jump_step-IsSelected j close_menu k = close_jump-IsSelected j

run-IsSelected : (j : Jump) (vs : List JumpEvent) → IsSelected j → IsSelected (jump_run j vs)
unfolding jump_run
run-IsSelected j [] k = k
run-IsSelected j (v ∷ vs) k = run-IsSelected (jump_step j v) vs (jump_step-IsSelected j v k)

in_range :
    (xs : List Text) (i : ℕ) → i < length xs → (x : Text) × (get_elem? xs i ≡ some x) × Memᴰ x xs
in_range [] i p = absurd (omega arith)
in_range (x ∷ xs) zero p = (x, refl, Memᴰ.head refl)
in_range (x ∷ xs) (suc i) p = let (y, e, m) = in_range xs i (omega arith) in (y, e, Memᴰ.tail m)

jump_enter-opens :
    (j : Jump)
    → IsSelected j
    → (j.items ≡ []) ⊎ ((x : Text) × (jump_enter j ≡ some x) × Memᴰ x j.items)
unfolding jump_enter
jump_enter-opens j k = elim (List-cases j.items) [
  | inl e ↦ inl e
  | inr (x, xs, e) ↦
      (let (i, s, p) = k.inside (rw e (omega arith)) in
        let (y, g, m) = in_range j.items i p in
        elim (Bool-cases j.hidden) [
          | inl h ↦ inl (k.empty h)
          | inr h ↦ inr (y, rw (h, s, jump_enter) g, m)
        ])
]

-- From a closed menu, after any typing, moves and closings: no match is shown, or Enter opens one
-- of the shown matches.
jump_run-enter :
    (j : Jump) (vs : List JumpEvent)
    → ((jump_run (close_jump j) vs).items ≡ [])
      ⊎ ((x : Text) × (jump_enter (jump_run (close_jump j) vs) ≡ some x)
          × Memᴰ x (jump_run (close_jump j) vs).items)
jump_run-enter j vs =
    jump_enter-opens (jump_run (close_jump j) vs)
      (run-IsSelected (close_jump j) vs (close_jump-IsSelected j))
