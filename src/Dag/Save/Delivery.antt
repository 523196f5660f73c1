-- ===== src/Dag/Save/Delivery.antt =====
-- Once everything is quiet, the last request carries the definition as it stands.
use cronova.Base.{
  ℕ, ◌≡◌, ◌⊎◌, ◌≢◌, refl, sym, ap, ◌∙◌, inl, inr, Bool, true, false, Option-cases, List-cases, List,
  [], ◌∷◌, none, Text, All, arith, if◌then◌else◌,
}
use cronova.Dag.Validate.{Err}
use cronova.Dag.Validate.Sound.{validate-notify_url}
use cronova.Dag.Spec.{Spec, dag_spec_from}
use cronova.Schedule.{compute_schedule}
use cronova.Schedule.Stable.{compute_schedule_idem, compute_schedule-definition_hash}
use cronova.Dag.Save.Marks.{SameMachine, on_success-SameMachine, on_error-SameMachine}
use cronova.Dag.Save.{
  Doc, Editor, Event, edit, fire, reply_ok, reply_error, await_saves, begin_deletion, end_deletion,
  render, errors_of, with_doc, schedule_save, save_dag, dispatch, flush_save, settle, on_success,
  on_error, flush_pending, reflect, step, run,
}

-- A request without its compare-and-swap token, which an answer replaces.
abbrev pub without_hash : Spec → Spec
without_hash s = record s { expected_hash = [] }

-- What a request for this definition carries.
pub content : Doc → Spec
content d = without_hash (dag_spec_from d.tasks (compute_schedule d.dag))

-- The last request, or the definition that was loaded if there is none.
abbrev pub last_sent : Spec → List Spec → Spec
last_sent loaded [] = loaded
last_sent loaded (s ∷ rest) = without_hash s

pub record Inv (loaded : Spec) (e : Editor) : Type 0 where
  pub kept : e.deleting ≡ false
  pub waits : e.pending ≡ true → e.inflight ≢ none
  pub delivered :
      errors_of e.doc ≡ []
      → (e.armed ≡ true) ⊎ (e.pending ≡ true) ⊎ (last_sent loaded e.sent ≡ content e.doc)

abbrev pub IsDeletion : Event → Type 0
IsDeletion begin_deletion = Unit
IsDeletion end_deletion = Unit
IsDeletion _ = ⊥

content-dispatch :
    (d : Doc)
    → without_hash (dag_spec_from d.tasks (compute_schedule d.dag))
      ≡ content (record d { dag = compute_schedule d.dag })
unfolding content
content-dispatch d =
    ap (λ f. without_hash (dag_spec_from d.tasks f)) (sym (compute_schedule_idem d.dag))

content-definition_hash :
    (d : Doc) (h : Text)
    → content (record d { dag = record (d.dag) { definition_hash = h } }) ≡ content d
unfolding content dag_spec_from
content-definition_hash d h =
    ap (λ f. without_hash (dag_spec_from d.tasks f)) (compute_schedule-definition_hash d.dag h)

-- An answer leaves what a request would carry, and its validity, as they were.
record SameContent (e e' : Editor) : Type 0 where
  same : content e'.doc ≡ content e.doc
  valid : errors_of e'.doc ≡ errors_of e.doc

on_success-SameContent : (h : Text) (n : ℕ) (e : Editor) → SameContent e (on_success h n e)
unfolding on_success
on_success-SameContent h n e = record {
  same = ground (arith, content-definition_hash e.doc h);
  valid = ground (
    arith,
    validate-notify_url e.doc.tasks (record (e.doc.dag) { definition_hash = h }) e.doc.dag refl,
  );
}

on_error-SameContent : (c : Text) (n : ℕ) (e : Editor) → SameContent e (on_error c n e)
unfolding on_error
on_error-SameContent c n e = record { same = ground arith; valid = ground arith }

module _ (loaded : Spec) where
  -- The branch that the test takes.
  if-Inv :
      (b : Bool) (x y : Editor)
      → (b ≡ true → Inv loaded x)
      → (b ≡ false → Inv loaded y)
      → Inv loaded (if b then x else y)
  if-Inv true x y f g = f refl
  if-Inv false x y f g = g refl

  schedule_save-Inv :
      (e : Editor) (errs : List Err)
      → errors_of e.doc ≡ errs
      → e.deleting ≡ false
      → (e.pending ≡ true → e.inflight ≢ none)
      → Inv loaded (schedule_save e errs)
  unfolding schedule_save
  schedule_save-Inv e [] h k w = record { kept = k; waits = w; delivered = λ _. inl refl }
  schedule_save-Inv e (x ∷ xs) h k w = record { kept = k; waits = w; delivered = λ f. absurd (cc) }

  save_dag-Inv :
      (e : Editor)
      → e.deleting ≡ false
      → (e.pending ≡ true → e.inflight ≢ none)
      → Inv loaded (save_dag e)
  unfolding save_dag
  save_dag-Inv e k w =
      if-Inv e.deleting e (schedule_save e (errors_of e.doc)) (λ d. absurd (cc))
        (λ _. schedule_save-Inv e (errors_of e.doc) refl k w)

  dispatch-Inv : (e : Editor) → e.deleting ≡ false → e.pending ≡ false → Inv loaded (dispatch e)
  unfolding dispatch
  dispatch-Inv e k p = record {
    kept = k;
    waits = λ t. absurd (cc);
    delivered = λ _. inr (inr (content-dispatch e.doc));
  }

  -- Whatever the state has delivered, a flush makes up for it.
  flush_save-Inv :
      (e : Editor)
      → e.deleting ≡ false
      → (e.pending ≡ true → e.inflight ≢ none)
      → Inv loaded (flush_save e)
  unfolding flush_save
  flush_save-Inv e k w = elim (Option-cases e.inflight) [
    | inr (seq, i) ↦
        rw (k, i, flush_save)
          (record { kept = k; waits = λ _. (λ f. cc); delivered = λ _. inr (inl refl) })
    | inl i ↦ rw (k, i, flush_save) (dispatch-Inv e k (ground arith))
  ]

  settle-Inv :
      (e e' : Editor) → SameMachine e e' → SameContent e e' → Inv loaded e → Inv loaded (settle e')
  unfolding settle
  settle-Inv e e' m c inv =
      if-Inv e'.pending (flush_save (record e' { inflight = none; pending = false }))
        (record e' { inflight = none })
        (λ _.
          flush_save-Inv (record e' { inflight = none; pending = false }) (m.deleting ∙ inv.kept)
            (λ f. absurd (cc)))
        (λ p. record {
          kept = m.deleting ∙ inv.kept;
          waits = λ f. absurd (cc);
          delivered =
              λ v. ground (arith, inv.delivered, m.armed, m.pending, m.sent, c.same, c.valid);
        })

  reflect-Inv : (e : Editor) → Inv loaded e → Inv loaded (reflect e)
  unfolding reflect
  reflect-Inv e inv = elim (List-cases (errors_of e.doc)) [
    | inl n ↦
        rw (n, reflect) (record { kept = inv.kept; waits = inv.waits; delivered = inv.delivered })
    | inr (x, xs, n) ↦
        rw (n, reflect) (record { kept = inv.kept; waits = inv.waits; delivered = inv.delivered })
  ]

  step-Inv : (e : Editor) (v : Event) → ¬ IsDeletion v → Inv loaded e → Inv loaded (step e v)
  unfolding step
  step-Inv e (edit ts f) h inv =
      save_dag-Inv (with_doc e (record (e.doc) { tasks = ts; dag = f })) inv.kept inv.waits
  step-Inv e fire h inv =
      if-Inv e.armed (flush_save (record e { armed = false })) e
        (λ _. flush_save-Inv (record e { armed = false }) inv.kept inv.waits) (λ _. inv)
  step-Inv e (reply_ok hash) h inv = elim (Option-cases e.inflight) [
    | inl i ↦ rw (i, step) inv
    | inr (n, i) ↦
        rw (i, step)
          (settle-Inv e (on_success hash n e) (on_success-SameMachine hash n e)
            (on_success-SameContent hash n e) inv)
  ]
  step-Inv e (reply_error code) h inv = elim (Option-cases e.inflight) [
    | inl i ↦ rw (i, step) inv
    | inr (n, i) ↦
        rw (i, step)
          (settle-Inv e (on_error code n e) (on_error-SameMachine code n e)
            (on_error-SameContent code n e) inv)
  ]
  step-Inv e await_saves h inv =
      unfold flush_pending in
      if-Inv e.timer_set (flush_save (record e { timer_set = false; armed = false })) e
        (λ _. flush_save-Inv (record e { timer_set = false; armed = false }) inv.kept inv.waits)
        (λ _. inv)
  step-Inv e begin_deletion h inv = absurd (h tt)
  step-Inv e end_deletion h inv = absurd (h tt)
  step-Inv e render h inv = reflect-Inv e inv

  run-Inv :
      (e : Editor) (vs : List Event)
      → All (λ v. ¬ IsDeletion v) vs
      → Inv loaded e
      → Inv loaded (run e vs)
  unfolding run
  run-Inv e [] h inv = inv
  run-Inv e (v ∷ vs) h inv = run-Inv (step e v) vs h.1 (step-Inv e v h.0 inv)

-- An editor that has just loaded its definition.
pub record IsLoaded (e : Editor) : Type 0 where
  pub nothing_sent : e.sent ≡ []
  pub not_pending : e.pending ≡ false
  pub not_deleting : e.deleting ≡ false

-- From an editor that has just loaded its definition, after any edits, timeouts, answers, waits and
-- renders in any order, where each change of the definition was followed by `saveDag` and no
-- deletion was begun: if no timeout is armed, no request is under way and the definition is valid,
-- then the last request, or the loaded definition if there was none, carries the definition as it
-- stands, but for its token.
pub run-delivers :
    (e : Editor) (vs : List Event)
    → IsLoaded e
    → All (λ v. ¬ IsDeletion v) vs
    → (run e vs).armed ≡ false
    → (run e vs).inflight ≡ none
    → errors_of (run e vs).doc ≡ []
    → last_sent (content e.doc) (run e vs).sent ≡ content (run e vs).doc
run-delivers e vs l h a i v =
    let start : Inv (content e.doc) e = record {
      kept = l.not_deleting;
      waits = λ p. absurd (cc (l.not_pending));
      delivered = λ _. inr (inr (ap (last_sent (content e.doc)) l.nothing_sent));
    } in
    let inv = run-Inv (content e.doc) e vs h start in
    elim (inv.delivered v) [
      | inl armed ↦ absurd (cc)
      | inr (inl p) ↦ absurd (inv.waits p i)
      | inr (inr same) ↦ same
    ]
