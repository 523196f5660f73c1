-- ===== src/Dag/Cycle.antt =====
-- `hasCycle` of internal/web/static/views.js: depth-first search with three colours.
-- `byId` and `color` are plain objects, so a name that `Object.prototype` has is found in them with
-- no entry of their own. (An id `__proto__`, whose assignment would change the prototype, is read
-- as any other.)
pub mod Reach
mod Search
mod Finished
pub mod Decides
pub mod Thins
pub mod Samples
use cronova.Base.{
  ℕ, zero, suc, ◌+◌, ◌≡◌, Bool, true, false, ◌&&◌, ◌||◌, not, List, [], ◌∷◌, Option, none, some,
  ◌>>=◌, Text, codes, text_eq, includes, is_empty, if◌then◌else◌, length,
}
use cronova.Dag.Model.{Task, by_id}

-- The names that every plain object inherits.
pub prototype_names : List Text
prototype_names =
    codes "constructor"
    ∷ codes "__defineGetter__"
    ∷ codes "__defineSetter__"
    ∷ codes "hasOwnProperty"
    ∷ codes "__lookupGetter__"
    ∷ codes "__lookupSetter__"
    ∷ codes "isPrototypeOf"
    ∷ codes "propertyIsEnumerable"
    ∷ codes "toString"
    ∷ codes "valueOf"
    ∷ codes "__proto__"
    ∷ codes "toLocaleString"
    ∷ []

unfoldable pub inherited : Text → Bool
unfolding prototype_names
inherited i = includes i prototype_names

-- The colours 1 and 2; a node with no entry is undefined.
pub data Color : Type 0 where
  visiting visited : Color

-- `color`, the latest assignment first, and `cyc`.
pub record Dfs : Type 0 where
  pub color : List (Text × Color)
  pub cyc : Bool

pub color_of : List (Text × Color) → Text → Option Color
color_of [] i = none
color_of ((j, c) ∷ m) i = if text_eq j i then some c else color_of m i

-- `byId[d]` as a condition.
pub known : List Task → Text → Bool
unfolding inherited
known ts d = elim (by_id ts d) [ some t ↦ true | none ↦ inherited d ]

-- `byId[id]?.deps || []`
pub deps_of : List Task → Text → List Text
deps_of ts i = elim (by_id ts i) [ some t ↦ t.deps | none ↦ [] ]

-- The `forEach` over the dependencies.
pub visit_deps : List Task → (Text → Dfs → Option Dfs) → List Text → Dfs → Option Dfs
unfolding known
visit_deps ts visit [] s = some s
visit_deps ts visit (d ∷ ds) s =
    (if known ts d then visit d s else some s) >>= visit_deps ts visit ds

-- `visit`; `none` means that the fuel ran out.
pub visit : List Task → ℕ → Text → Dfs → Option Dfs
unfolding color_of deps_of visit_deps
visit ts zero i s = none
visit ts (suc fuel) i s = elim (color_of s.color i) [
  | some visiting ↦ some (record s { cyc = true })
  | some visited ↦ some s
  | none ↦
      (visit_deps ts (visit ts fuel) (deps_of ts i) (record s { color = (i, visiting) ∷ s.color })
        >>= λ s'. some (record s' { color = (i, visited) ∷ s'.color }))
]

-- `tk.id && color[tk.id] === undefined`
pub starts : Task → Dfs → Bool
unfolding color_of inherited
starts t s =
    not (is_empty t.id)
    && elim (color_of s.color t.id) [ some c ↦ false | none ↦ not (inherited t.id) ]

pub visit_tasks : List Task → ℕ → List Task → Dfs → Option Dfs
unfolding starts visit
visit_tasks ts fuel [] s = some s
visit_tasks ts fuel (t ∷ rest) s =
    (if starts t s then visit ts fuel t.id s else some s) >>= visit_tasks ts fuel rest

-- Each nested call colours one more name, a task's or an inherited one, so the depth is bounded.
pub depth : List Task → ℕ
depth ts = length ts + 2

unfoldable pub has_cycle : List Task → Option Bool
unfolding visit_tasks depth
has_cycle ts = visit_tasks ts (depth ts) ts (record { color = []; cyc = false }) >>= λ s. some s.cyc
