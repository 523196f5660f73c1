-- ===== src/Dag/Cycle/Decides.antt =====
-- `hasCycle` decides whether the dependencies have a cycle.
use cronova.Base.{
  ℕ, ◌+◌, ◌≤◌, ◌≡◌, ◌↔◌, refl, Bool, true, false, Bool-cases, inl, inr, List, [], ◌∷◌, some, Text,
  text_eq, text_eq_iff, is_empty, if◌then◌else◌, length, All, All-apply, arith, Option-cases, subst,
}
use cronova.Dag.Model.{Task, by_id}
use cronova.Dag.Cycle.{
  visiting, visited, Dfs, color_of, inherited, starts, visit, visit_tasks, depth, has_cycle,
}
use cronova.Dag.Cycle.Reach.{Cyclic}
use cronova.Dag.Cycle.Finished.{acyclic}
use cronova.Dag.Cycle.Search.{
  Grows, Grows-refl, Grows-trans, Inv, fresh-le-length, cyc_before, visit-Done,
}

-- A name that is not empty and that no plain object inherits.
pub record IsNamed (t : Task) : Type 0 where
  pub not_empty : is_empty t.id ≡ false
  pub own : inherited t.id ≡ false

-- Outside a search no node is on the stack.
abbrev Idle : Dfs → Type 0
Idle s = (y : Text) → ¬ (color_of s.color y ≡ some visiting)

-- A named task at which no visit starts has a colour already.
not-starts-visited :
    (t : Task) (s : Dfs)
    → IsNamed t
    → Idle s
    → starts t s ≡ false
    → color_of s.color t.id ≡ some visited
unfolding starts
not-starts-visited t s n idle st = ground (arith, idle t.id)

module _ (ts : List Task) (fuel : ℕ) (enough : length ts + 2 ≤ fuel) where
  start-Done :
      (t : Task) (s : Dfs)
      → Inv ts s
      → Idle s
      → (s' : Dfs) × ((if starts t s then visit ts fuel t.id s else some s) ≡ some s')
        × Grows s s'
        × Inv ts s'
        × (s'.cyc ≡ false → IsNamed t → color_of s'.color t.id ≡ some visited)
  start-Done t s inv idle = elim (Bool-cases (starts t s)) [
    | inl st ↦
        (let (s', e, g, inv', v) =
            visit-Done ts fuel t.id s (omega (arith, fresh-le-length s.color ts)) inv
              (λ y gray. absurd (idle y gray)) in
          (s', rw (st, e), g, inv', λ c n. v c))
    | inr st ↦ (s, rw st, Grows-refl s, inv, λ c n. not-starts-visited t s n idle st)
  ]

  visit_tasks-Done :
      (rest : List Task) (s : Dfs)
      → Inv ts s
      → Idle s
      → (s' : Dfs) × (visit_tasks ts fuel rest s ≡ some s')
        × Grows s s'
        × Inv ts s'
        × (s'.cyc ≡ false → All (λ t. IsNamed t → color_of s'.color t.id ≡ some visited) rest)
  unfolding visit_tasks
  visit_tasks-Done [] s inv idle = (s, refl, Grows-refl s, inv, λ _. tt)
  visit_tasks-Done (t ∷ rest) s inv idle =
      let (s₁, e, g, inv₁, v) = start-Done t s inv idle in
      let (s', e', g', inv', v') =
        visit_tasks-Done rest s₁ inv₁ (λ y gray. idle y (g.grays y gray)) in
      (
        s',
        rw e e',
        Grows-trans g g',
        inv',
        λ c. (λ n. g'.keeps t.id visited (v (cyc_before g' c) n), v' c),
      )

by_id-All :
    (P : Text → Type 0) (ts : List Task) (x : Text) (t : Task)
    → All (λ u. P u.id) ts
    → by_id ts x ≡ some t
    → P x
unfolding by_id
by_id-All P [] x t h e = absurd (cc)
by_id-All P (u ∷ ts) x t h e = elim (Option-cases (by_id ts x)) [
  | inr (v, f) ↦ by_id-All P ts x v h.1 f
  | inl f ↦ elim (Bool-cases (text_eq u.id x)) [
    | inl same ↦ subst P ((text_eq_iff u.id x).0 same) h.0
    | inr other ↦ absurd (ground arith)
  ]
]

-- Every name that finds a task is finished, if every task of the list is.
named_visited :
    (ts : List Task) (s : Dfs)
    → All IsNamed ts
    → All (λ t. IsNamed t → color_of s.color t.id ≡ some visited) ts
    → (x : Text) (t : Task) → by_id ts x ≡ some t
    → color_of s.color x ≡ some visited
named_visited ts s named h x t e =
    by_id-All (λ y. color_of s.color y ≡ some visited) ts x t
      (All-apply IsNamed (λ u. color_of s.color u.id ≡ some visited) ts named h) e

Idle-at_start : Idle (record { color = []; cyc = false })
unfolding color_of
Idle-at_start y e = cc

-- Where every task has a name of its own, the search ends with an answer, and the answer is true
-- exactly when some task depends on itself through one dependency or more.
pub has_cycle-decides :
    (ts : List Task)
    → All IsNamed ts
    → (b : Bool) × (has_cycle ts ≡ some b) × ((b ≡ true) ↔ Cyclic ts)
unfolding has_cycle depth
has_cycle-decides ts named =
    let start : Dfs = record { color = []; cyc = false } in
    let (s, e, g, inv, v) =
      visit_tasks-Done ts (length ts + 2) (omega arith) ts start
        (record { closed = λ _. tt; sound = λ c. absurd (cc) }) Idle-at_start in
    (
      s.cyc,
      rw e,
      (
        inv.sound,
        λ (x, w). elim (Bool-cases s.cyc) [
          | inl c ↦ c
          | inr c ↦ absurd (acyclic ts s.color (inv.closed c) (named_visited ts s named (v c)) x w)
        ],
      ),
    )

visit_tasks-inherited :
    (ts : List Task) (fuel : ℕ) (rest : List Task) (s : Dfs)
    → All (λ t. inherited t.id ≡ true) rest
    → s.color ≡ []
    → visit_tasks ts fuel rest s ≡ some s
unfolding visit_tasks starts color_of
visit_tasks-inherited ts fuel [] s h e = refl
visit_tasks-inherited ts fuel (t ∷ rest) s h e =
    ground (arith, visit_tasks-inherited ts fuel rest s h.1 e)

-- Where every task's name is one that plain objects inherit, the search ends and reports no cycle,
-- whatever the dependencies.
pub has_cycle-inherited :
    (ts : List Task) → All (λ t. inherited t.id ≡ true) ts → has_cycle ts ≡ some false
unfolding has_cycle
has_cycle-inherited ts h =
    rw (visit_tasks-inherited ts (depth ts) ts (record { color = []; cyc = false }) h refl)
