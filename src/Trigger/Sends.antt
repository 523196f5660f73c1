-- ===== src/Trigger/Sends.antt =====
-- What the dialog sends.
use cronova.Base.{
  ℕ, zero, suc, ◌≤◌, ◌<◌, ◌≡◌, refl, sym, ap, ◌∙◌, true, false, Bool-cases, inl, inr, List, [], ◌∷◌,
  length, length-append, Option, none, some, Text, is_empty, trim, text_eq, text_eq_cong,
  text_apart, if◌then◌else◌, ltb, leb, arith,
}
use cronova.Dag.Model.{ℤ, pos, negsuc}
use cronova.Dag.Spec.{put}
use cronova.Wizard.{lookup}
use cronova.Trigger.{
  Param, TriggerDialog, TriggerEvent, key_typed, value_typed, prio_typed, row_removed, row_added,
  edit_row, splice_row, some_rows, blank_param, open_trigger, trigger_step, trigger_run,
  params_from, clamp, is_zero, TriggerBody, trigger_body, trigger_go,
}

-- The value of the last row with this key, once trimmed, or else what there was before.
abbrev pub last_value : Option Text → List Param → Text → Option Text
last_value o [] key = o
last_value o (r ∷ rs) key = last_value (if text_eq (trim r.k) key then some r.v else o) rs key

lookup-put :
    (k v key : Text) (ps : List (Text × Text))
    → lookup (put k v ps) key ≡ (if text_eq k key then some v else lookup ps key)
unfolding lookup put
lookup-put k v key [] = refl
lookup-put k v key ((j, w) ∷ ps) = elim (Bool-cases (text_eq j k)) [
  | inl same ↦ ground (arith, text_eq_cong j k key same)
  | inr other ↦ ground (arith, text_apart j k key other, lookup-put k v key ps)
]

blank_apart : (a b : Text) → is_empty a ≡ true → is_empty b ≡ false → text_eq a b ≡ false
unfolding text_eq
blank_apart [] [] h k = absurd (cc)
blank_apart [] (d ∷ b) h k = refl
blank_apart (c ∷ a) b h k = absurd (cc)

params_from-lookup :
    (key : Text) (ps : List (Text × Text)) (rows : List Param)
    → is_empty key ≡ false
    → lookup (params_from ps rows) key ≡ last_value (lookup ps key) rows key
unfolding params_from
params_from-lookup key ps [] h = refl
params_from-lookup key ps (r ∷ rs) h = elim (Bool-cases (is_empty (trim r.k))) [
  | inl blank ↦ rw (blank, blank_apart (trim r.k) key blank h) (params_from-lookup key ps rs h)
  | inr given ↦ rw given (
      params_from-lookup key (put (trim r.k) r.v ps) rs h
      ∙ ap (λ o. last_value o rs key) (lookup-put (trim r.k) r.v key ps))
]

-- A name that is not blank is not the empty one.
given_apart : (k : Text) → is_empty k ≡ false → text_eq k [] ≡ false
unfolding text_eq
given_apart [] h = absurd (cc)
given_apart (c ∷ k) h = refl

params_from-blank :
    (ps : List (Text × Text)) (rows : List Param)
    → lookup ps [] ≡ none
    → lookup (params_from ps rows) [] ≡ none
unfolding params_from
params_from-blank ps [] h = h
params_from-blank ps (r ∷ rs) h = elim (Bool-cases (is_empty (trim r.k))) [
  | inl blank ↦ rw blank (params_from-blank ps rs h)
  | inr given ↦ rw given (
      params_from-blank (put (trim r.k) r.v ps) rs
        (lookup-put (trim r.k) r.v [] ps ∙ rw (given_apart (trim r.k) given) h))
]

-- The number, or the bound that it is beyond.
abbrev pub IsCut : ℤ → ℤ → Type 0
IsCut (pos n) y = (n ≤ 100 → y ≡ pos n) × (100 < n → y ≡ pos 100)
IsCut (negsuc n) y = (n ≤ 99 → y ≡ negsuc n) × (99 < n → y ≡ negsuc 99)

-- What is sent for a priority: nothing for zero, or else the priority itself, cut at the bounds.
abbrev pub IsPriorityOf : ℤ → Option ℤ → Type 0
IsPriorityOf z none = z ≡ pos 0
IsPriorityOf z (some y) = (is_zero z ≡ false) × IsCut z y

clamp-IsCut : (z : ℤ) → IsCut z (clamp z) × (is_zero (clamp z) ≡ is_zero z)
unfolding clamp is_zero
clamp-IsCut (pos zero) = ((λ h. refl, λ h. absurd (omega (arith, h))), refl)
clamp-IsCut (pos (suc n)) = elim (Bool-cases (ltb 100 (suc n))) [
  | inl big ↦ rw big ((λ h. absurd (ground arith), λ h. refl), refl)
  | inr fits ↦ rw fits ((λ h. refl, λ h. absurd (ground arith)), refl)
]
clamp-IsCut (negsuc n) = elim (Bool-cases (ltb 99 n)) [
  | inl big ↦ rw big ((λ h. absurd (ground arith), λ h. refl), refl)
  | inr fits ↦ rw fits ((λ h. refl, λ h. absurd (ground arith)), refl)
]

is_zero-eq : (z : ℤ) → is_zero z ≡ true → z ≡ pos 0
unfolding is_zero
is_zero-eq (pos zero) h = refl
is_zero-eq (pos (suc n)) h = absurd (cc)
is_zero-eq (negsuc n) h = absurd (cc)

-- The value that the body has under a name.
abbrev pub sent_value : TriggerBody → Text → Option Text
sent_value b key = elim b.params [ none ↦ none | some ps ↦ lookup ps key ]

sent_value-trigger_body :
    (ps : List (Text × Text)) (z : ℤ) (key : Text)
    → sent_value (trigger_body ps z) key ≡ lookup ps key
unfolding trigger_body lookup
sent_value-trigger_body [] z key = refl
sent_value-trigger_body (p ∷ ps) z key =
    let more : leb (suc (length ps)) 0 ≡ false = ground arith in rw more refl

trigger_body-IsPriorityOf :
    (ps : List (Text × Text)) (z : ℤ) → IsPriorityOf z (trigger_body ps z).priority
unfolding trigger_body
trigger_body-IsPriorityOf ps z = elim (Bool-cases (is_zero (clamp z))) [
  | inl none_sent ↦ rw none_sent (is_zero-eq z (sym (clamp-IsCut z).1 ∙ none_sent))
  | inr sent ↦ rw sent (sym (clamp-IsCut z).1 ∙ sent, (clamp-IsCut z).0)
]

length-edit_row :
    (i : ℕ) (f : Param → Param) (rs : List Param) → length (edit_row i f rs) ≡ length rs
unfolding edit_row
length-edit_row i f [] = refl
length-edit_row zero f (r ∷ rs) = refl
length-edit_row (suc i) f (r ∷ rs) = omega (arith, length-edit_row i f rs)

length-some_rows : (rs : List Param) → 1 ≤ length (some_rows rs)
unfolding some_rows
length-some_rows [] = omega arith
length-some_rows (r ∷ rs) = omega arith

trigger_step-rows :
    (e : TriggerEvent) (s : TriggerDialog) → 1 ≤ length s.rows → 1 ≤ length (trigger_step e s).rows
unfolding trigger_step
trigger_step-rows (key_typed i t) s h =
    omega (arith, h, length-edit_row i (λ (r : Param). record r { k = t }) s.rows)
trigger_step-rows (value_typed i t) s h =
    omega (arith, h, length-edit_row i (λ (r : Param). record r { v = t }) s.rows)
trigger_step-rows (prio_typed n) s h = h
trigger_step-rows (row_removed i) s h = length-some_rows (splice_row i s.rows)
trigger_step-rows row_added s h = omega (arith, h, length-append s.rows (blank_param ∷ []))

trigger_run-rows :
    (es : List TriggerEvent) (s : TriggerDialog)
    → 1 ≤ length s.rows
    → 1 ≤ length (trigger_run es s).rows
unfolding trigger_run
trigger_run-rows [] s h = h
trigger_run-rows (e ∷ es) s h = trigger_run-rows es (trigger_step e s) (trigger_step-rows e s h)

-- After any use of the dialog it has a row; and its request has the priority, cut to between -100 and
-- 100, unless that is zero; under each name that is not blank the value of the last row whose trimmed
-- key is that name, if there is one; and nothing under the blank name.
pub trigger_go-sends :
    (es : List TriggerEvent)
    → let s = trigger_run es open_trigger in
      (1 ≤ length s.rows)
      × IsPriorityOf s.prio (trigger_go s).priority
      × ((key : Text)
          → is_empty key ≡ false
          → sent_value (trigger_go s) key ≡ last_value none s.rows key)
      × (sent_value (trigger_go s) [] ≡ none)
unfolding trigger_go open_trigger lookup
trigger_go-sends es =
    let s = trigger_run es open_trigger in
    let ps = params_from [] s.rows in
    (
      trigger_run-rows es open_trigger (omega arith),
      trigger_body-IsPriorityOf ps s.prio,
      λ key h. sent_value-trigger_body ps s.prio key ∙ params_from-lookup key [] s.rows h,
      sent_value-trigger_body ps s.prio [] ∙ params_from-blank [] s.rows refl,
    )
