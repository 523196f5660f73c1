-- ===== src/Dag/Graph/Acyclic.antt =====
-- The graph editor never makes a cycle.
use mathlib.Core.List.{Memᴰ}
use cronova.Base.{
  ◌≡◌, ◌⊎◌, refl, sym, ap, ◌∙◌, inl, inr, Bool, true, false, Bool-cases, Option-cases, List, [],
  ◌∷◌, ◌++◌, Option, none, some, Text, text_eq, is_empty, includes, All, subst, arith, find,
}
use cronova.Dag.Model.{Task, by_id}
use cronova.Dag.Validate.{named, cyclic, id_re, ids}
use cronova.Dag.Cycle.{has_cycle, inherited}
use cronova.Dag.Cycle.Decides.{IsNamed, has_cycle-decides}
use cronova.Dag.Cycle.Thins.{Thins, done, both, Thins-refl, Within, Thins-Within, has_cycle-Within}
use cronova.Dag.Save.{Doc}
use cronova.Dag.Graph.{
  graph_mutate, add_task_from_graph, edit_first, push, remove_first, would_cycle, toggle_found,
  graph_toggle_dep, connect, on_graph_node_activate,
}
use cronova.Dag.Graph.Session.{Action, activate, drop_edge, remove_edge, new_task, act, act_all}

-- Plain objects inherit none of the names.
abbrev pub Own : List Task → Type 0
Own ts = All (λ t. inherited t.id ≡ false) ts

-- The search reports no cycle.
abbrev pub Safe : List Task → Type 0
Safe ts = Own ts × (cyclic (named ts) ≡ false)

named-IsNamed : (ts : List Task) → Own ts → All IsNamed (named ts)
named-IsNamed [] o = tt
named-IsNamed (t ∷ ts) o =
    let rest = named-IsNamed ts o.1 in
    elim (Bool-cases (is_empty t.id)) [
      | inl e ↦ rw e rest
      | inr e ↦ rw e (record { not_empty = e; own = o.0 }, rest)
    ]

cyclic-has_cycle : (ts : List Task) → All IsNamed ts → cyclic ts ≡ false → has_cycle ts ≡ some false
cyclic-has_cycle ts n c =
    let (b, e, i) = has_cycle-decides ts n in
    let same : b ≡ false = ground arith in e ∙ ap some same

-- Fewer edges between tasks keep them safe.
Safe-Within : (ts' ts : List Task) → Within (named ts') (named ts) → Own ts' → Safe ts → Safe ts'
Safe-Within ts' ts w o s =
    let free =
      has_cycle-Within (named ts') (named ts) (named-IsNamed ts' o) (named-IsNamed ts s.0) w
        (cyclic-has_cycle (named ts) (named-IsNamed ts s.0) s.1) in
    (o, ground arith)

remove_first-Sub : (up y : Text) (ds : List Text) → Memᴰ y (remove_first up ds) → Memᴰ y ds
unfolding remove_first
remove_first-Sub up y [] m = m
remove_first-Sub up y (d ∷ ds) m = elim (Bool-cases (text_eq d up)) [
  | inl e ↦
      (let same : remove_first up (d ∷ ds) ≡ ds = rw e refl in
        Memᴰ.tail (subst (λ (l : List Text). Memᴰ y l) same m))
  | inr e ↦
      (let same : remove_first up (d ∷ ds) ≡ d ∷ remove_first up ds = rw e refl in
        elim (subst (λ (l : List Text). Memᴰ y l) same m) [
          | Memᴰ.head h ↦ Memᴰ.head h
          | Memᴰ.tail r ↦ Memᴰ.tail (remove_first-Sub up y ds r)
        ])
]

-- A change that only drops dependencies thins the named tasks.
edit_first-Thins :
    (i : Text) (f : List Text → List Text)
    → ((y : Text) (ds : List Text) → Memᴰ y (f ds) → Memᴰ y ds)
    → (ts : List Task) → Thins (named (edit_first i f ts)) (named ts)
unfolding edit_first
edit_first-Thins i f fewer [] = done
edit_first-Thins i f fewer (t ∷ ts) =
    let rest = edit_first-Thins i f fewer ts in
    elim (Bool-cases (text_eq t.id i)) [
      | inl e ↦ elim (Bool-cases (is_empty t.id)) [
        | inl b ↦ rw (e, b) (Thins-refl (named ts))
        | inr b ↦ rw (e, b) (both refl (λ y m. fewer y t.deps m) (Thins-refl (named ts)))
      ]
      | inr e ↦ elim (Bool-cases (is_empty t.id)) [
        | inl b ↦ rw (e, b) rest
        | inr b ↦ rw (e, b) (both refl (λ y m. m) rest)
      ]
    ]

edit_first-Own :
    (i : Text) (f : List Text → List Text) (ts : List Task) → Own ts → Own (edit_first i f ts)
unfolding edit_first
edit_first-Own i f [] o = tt
edit_first-Own i f (t ∷ ts) o = elim (Bool-cases (text_eq t.id i)) [
  | inl e ↦ rw e o
  | inr e ↦ rw e (o.0, edit_first-Own i f ts o.1)
]

remove_edge-Safe :
    (up down : Text) (ts : List Task) → Safe ts → Safe (edit_first down (remove_first up) ts)
remove_edge-Safe up down ts s =
    Safe-Within (edit_first down (remove_first up) ts) ts
      (Thins-Within (edit_first-Thins down (remove_first up) (remove_first-Sub up) ts))
      (edit_first-Own down (remove_first up) ts s.0) s

-- An edge that the check lets through.
push_edge-Safe :
    (up down : Text) (ts : List Task)
    → would_cycle up down ts ≡ false
    → Own ts
    → Safe (edit_first down (push up) ts)
unfolding would_cycle
push_edge-Safe up down ts w o = (edit_first-Own down (push up) ts o, w)

named-append :
    (ts : List Task) (t : Task) → is_empty t.id ≡ false → named (ts ++ t ∷ []) ≡ named ts ++ t ∷ []
named-append [] t e = rw e refl
named-append (u ∷ ts) t e = elim (Bool-cases (is_empty u.id)) [
  | inl b ↦ rw b (named-append ts t e)
  | inr b ↦ rw b (ap (λ (r : List Task). u ∷ r) (named-append ts t e))
]

-- The last task, or as before.
by_id-append :
    (us : List Task) (t : Task) (x : Text)
    → (by_id (us ++ t ∷ []) x ≡ some t) ⊎ (by_id (us ++ t ∷ []) x ≡ by_id us x)
unfolding by_id
by_id-append [] t x = ground arith
by_id-append (u ∷ us) t x = elim (by_id-append us t x) [
  | inl e ↦ inl (rw e refl)
  | inr e ↦ inr (rw e refl)
]

append-Within : (us : List Task) (t : Task) → t.deps ≡ [] → Within (us ++ t ∷ []) us
append-Within us t none_yet x y e = elim (by_id-append us t x) [
  | inl last ↦
      (let both : some e.task ≡ some t = sym (e.named) ∙ last in
        let same : e.task ≡ t = cc in
        let listed : Memᴰ y [] =
          subst (λ (l : List Text). Memᴰ y l) (ap (λ (u : Task). u.deps) same ∙ none_yet)
            e.listed in
        elim listed [ ])
  | inr before ↦ record { task = e.task; named = sym before ∙ e.named; listed = e.listed }
]

append-Own : (ts : List Task) (t : Task) → Own ts → inherited t.id ≡ false → Own (ts ++ t ∷ [])
append-Own [] t o i = (i, tt)
append-Own (u ∷ ts) t o i = (o.0, append-Own ts t o.1 i)

append-Safe :
    (ts : List Task) (t : Task)
    → is_empty t.id ≡ false
    → inherited t.id ≡ false
    → t.deps ≡ []
    → Safe ts
    → Safe (ts ++ t ∷ [])
append-Safe ts t e i n s =
    Safe-Within (ts ++ t ∷ []) ts
      (subst (λ (us : List Task). Within us (named ts)) (sym (named-append ts t e))
        (append-Within (named ts) t n))
      (append-Own ts t s.0 i) s

-- The dialog does not answer with a name that plain objects inherit.
abbrev pub IsOwn : Action → Type 0
IsOwn (new_task (some i)) = inherited i ≡ false
IsOwn _ = Unit

add_task_from_graph-Safe :
    (i : Text) (d : Doc)
    → inherited i ≡ false
    → Safe d.tasks
    → Safe (add_task_from_graph (some i) d).0.tasks
unfolding add_task_from_graph graph_mutate
add_task_from_graph-Safe i d own s = elim (Bool-cases (is_empty i)) [
  | inl e ↦ rw e s
  | inr e ↦ elim (Bool-cases (id_re i)) [
    | inr r ↦ rw (e, r) s
    | inl r ↦ elim (Bool-cases (includes i (ids d.tasks))) [
      | inl c ↦ rw (e, r, c) s
      | inr c ↦ rw (e, r, c) (append-Safe d.tasks _ e own refl s)
    ]
  ]
]

toggle_found-Safe :
    (t : Task) (up down : Text) (b : Bool) (d : Doc)
    → Safe d.tasks
    → Safe (toggle_found t up down b d).0.tasks
unfolding toggle_found graph_mutate
toggle_found-Safe t up down b d s = elim (Bool-cases (includes up t.deps)) [
  | inl i ↦ elim b as (λ x. Safe (toggle_found t up down x d).0.tasks) [
    | true ↦ rw i (remove_edge-Safe up down d.tasks s)
    | false ↦ rw i s
  ]
  | inr i ↦ elim (Bool-cases (would_cycle up down d.tasks)) [
    | inl w ↦ rw (i, w) s
    | inr w ↦ rw (i, w) (push_edge-Safe up down d.tasks w s.0)
  ]
]

graph_toggle_dep-Safe :
    (up down : Text) (b : Bool) (d : Doc)
    → Safe d.tasks
    → Safe (graph_toggle_dep up down b d).0.tasks
unfolding graph_toggle_dep
graph_toggle_dep-Safe up down b d s = elim (Option-cases (find (λ x. text_eq x.id down) d.tasks)) [
  | inl n ↦ rw (n, graph_toggle_dep) s
  | inr (t, n) ↦ elim (Bool-cases (text_eq up down)) [
    | inl e ↦ rw (n, e, graph_toggle_dep) s
    | inr e ↦ rw (n, e, graph_toggle_dep) (toggle_found-Safe t up down b d s)
  ]
]

connect-Safe : (p : Option Text) (i : Text) (d : Doc) → Safe d.tasks → Safe (connect p i d).0.tasks
unfolding connect
connect-Safe none i d s = s
connect-Safe (some p) i d s = elim (Bool-cases (text_eq p i)) [
  | inl e ↦ rw e s
  | inr e ↦ rw e (graph_toggle_dep-Safe p i true (record d { graph_pending = none }) s)
]

-- A click leaves the tasks alone or connects.
activate-cases :
    (i : Text) (shift : Bool) (d : Doc)
    → ((on_graph_node_activate i shift d).0.tasks ≡ d.tasks)
      ⊎ ((on_graph_node_activate i shift d).0.tasks ≡ (connect d.graph_pending i d).0.tasks)
unfolding on_graph_node_activate
activate-cases i shift d = ground arith

act-Safe : (d : Doc) (a : Action) → IsOwn a → Safe d.tasks → Safe (act d a).tasks
unfolding act
act-Safe d (activate i shift) o s = elim (activate-cases i shift d) [
  | inl e ↦ subst Safe (sym e) s
  | inr e ↦ subst Safe (sym e) (connect-Safe d.graph_pending i d s)
]
act-Safe d (drop_edge up down) o s = graph_toggle_dep-Safe up down false d s
act-Safe d (remove_edge up down) o s = graph_toggle_dep-Safe up down true d s
act-Safe d (new_task none) o s = unfold add_task_from_graph in s
act-Safe d (new_task (some i)) o s = add_task_from_graph-Safe i d o s

-- From tasks among which the search reports no cycle and whose names no plain object inherits:
-- after any clicks, dropped and removed edges and new tasks, the names added not inherited either,
-- the search still reports no cycle.
pub act_all-acyclic :
    (d : Doc) (as_ : List Action)
    → Own d.tasks
    → cyclic (named d.tasks) ≡ false
    → All IsOwn as_
    → cyclic (named (act_all d as_).tasks) ≡ false
unfolding act_all
act_all-acyclic d [] o c h = c
act_all-acyclic d (a ∷ as_) o c h =
    let (o', c') = act-Safe d a h.0 (o, c) in act_all-acyclic (act d a) as_ o' c' h.1
