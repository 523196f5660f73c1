-- ===== src/Dag/Cycle/Thins.antt =====
-- Fewer dependencies make no new cycle.
use mathlib.Core.List.{Memᴰ}
use cronova.Base.{
  ◌≡◌, ◌⊎◌, refl, sym, ap, ◌∙◌, inl, inr, true, false, Bool-cases, List, [], ◌∷◌, Option, none,
  some, Text, text_eq, All, subst, arith,
}
use cronova.Dag.Model.{Task, by_id}
use cronova.Dag.Cycle.{has_cycle}
use cronova.Dag.Cycle.Reach.{Edge, Walk, one, onward}
use cronova.Dag.Cycle.Decides.{IsNamed, has_cycle-decides}

-- Every dependency of the first is one of the second.
abbrev pub Sub : Task → Task → Type 0
Sub t' t = (y : Text) → Memᴰ y t'.deps → Memᴰ y t.deps

-- The tasks of `ts'` are those of `ts`, in their order, some with fewer dependencies.
pub data Thins : List Task → List Task → Type 0 where
  done : Thins [] []
  both :
      {t' t : Task} {ts' ts : List Task}
      → t'.id ≡ t.id
      → Sub t' t
      → Thins ts' ts
      → Thins (t' ∷ ts') (t ∷ ts)

pub Thins-refl : (ts : List Task) → Thins ts ts
Thins-refl [] = done
Thins-refl (t ∷ ts) = both refl (λ y m. m) (Thins-refl ts)

-- Both names are unknown, or both are known and the first has no more dependencies.
abbrev Agree : Option Task → Option Task → Type 0
Agree o' o =
    ((o' ≡ none) × (o ≡ none))
    ⊎ ((t' : Task) × (t : Task) × (o' ≡ some t') × (o ≡ some t) × Sub t' t)

by_id-Thins : {ts' ts : List Task} (x : Text) → Thins ts' ts → Agree (by_id ts' x) (by_id ts x)
unfolding by_id
by_id-Thins x done = inl (refl, refl)
by_id-Thins x (both {t' = t'} {t = t} e s th) = elim (by_id-Thins x th) [
  | inr (u', u, f', f, su) ↦ inr (u', u, rw f' refl, rw f refl, su)
  | inl (f', f) ↦ elim (Bool-cases (text_eq t.id x)) [
    | inl same ↦ inr (t', t, rw (f', e, same) refl, rw (f, same) refl, s)
    | inr other ↦ inl (rw (f', e, other) refl, rw (f, other) refl)
  ]
]

-- An edge of the first is an edge of the second.
abbrev pub Within : List Task → List Task → Type 0
Within ts' ts = (x y : Text) → Edge ts' x y → Edge ts x y

pub Thins-Within : {ts' ts : List Task} → Thins ts' ts → Within ts' ts
Thins-Within th x y e = elim (by_id-Thins x th) [
  | inl (f', f) ↦ absurd (cc (e.named))
  | inr (u', u, f', f, su) ↦
      (let both : some e.task ≡ some u' = sym (e.named) ∙ f' in
        let same : e.task ≡ u' = cc in
        record {
          task = u;
          named = f;
          listed = su y (subst (λ (t : Task). Memᴰ y t.deps) same e.listed);
        })
]

Walk-Within : {ts' ts : List Task} {x y : Text} → Within ts' ts → Walk ts' x y → Walk ts x y
Walk-Within w (one e) = one (w _ _ e)
Walk-Within w (onward k e) = onward (Walk-Within w k) (w _ _ e)

-- A graph within one that the search finds free of cycles is found free of cycles.
pub has_cycle-Within :
    (ts' ts : List Task)
    → All IsNamed ts'
    → All IsNamed ts
    → Within ts' ts
    → has_cycle ts ≡ some false
    → has_cycle ts' ≡ some false
has_cycle-Within ts' ts n' n w h =
    let (b', e', i') = has_cycle-decides ts' n' in
    let (b, e, i) = has_cycle-decides ts n in
    elim (Bool-cases b') [
      | inr f ↦ e' ∙ ap some f
      | inl t ↦
          (let (x, k) = i'.0 t in
            let again : b ≡ true = i.1 (x, Walk-Within w k) in absurd (ground arith))
    ]
