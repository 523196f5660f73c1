-- ===== src/Dag/Edit/FreshId.antt =====
-- The loops that look for a free name end, and the name is free.
use cronova.Base.{
  ℕ, zero, suc, ◌+◌, ◌<◌, ◌≤◌, ◌≡◌, refl, sym, ap, ◌∙◌, true, false, Bool-cases, inl, inr, List, [],
  ◌∷◌, ◌++◌, some, Text, text_eq, text_eq_iff, includes, keep, length, leb, length-keep-le, arith,
  print_nat, read_nat, drop, read_nat-print_nat, print_nat_cons, ltb, is_empty, find, if◌then◌else◌,
}
use cronova.Dag.Model.{Task, blank_task}
use cronova.Dag.Validate.{ids}
use cronova.Dag.Edit.{
  save, show_task, render_dag, fresh_id, task_name, copy_name, rounds, add_task, duplicate_task,
}

module _ (candidate : ℕ → Text) (number : Text → ℕ)
    (numbered : (n : ℕ) → 1 ≤ n → number (candidate n) ≡ n) where
  -- The names whose number is at least `n`.
  ahead : List Text → ℕ → ℕ
  ahead taken n = length (keep (λ x. leb n (number x)) taken)

  ahead-suc_le : (taken : List Text) (n : ℕ) → ahead taken (suc n) ≤ ahead taken n
  unfolding ahead
  ahead-suc_le [] n = omega arith
  ahead-suc_le (x ∷ taken) n = ground (arith, ahead-suc_le taken n)

  -- A taken candidate is not ahead of the next number.
  ahead-lt :
      (taken : List Text) (n : ℕ)
      → 1 ≤ n
      → includes (candidate n) taken ≡ true
      → ahead taken (suc n) < ahead taken n
  unfolding ahead
  ahead-lt [] n p h = absurd (cc)
  ahead-lt (x ∷ taken) n p h =
      ground
        (arith, text_eq_iff x (candidate n), numbered n p, ahead-suc_le taken n, ahead-lt taken n p)

  fresh_id_free :
      (taken : List Text) (fuel n : ℕ)
      → 1 ≤ n
      → ahead taken n < fuel
      → (i : Text) × (fresh_id candidate taken fuel n ≡ some i) × (includes i taken ≡ false)
  unfolding fresh_id
  fresh_id_free taken zero n p h = absurd (omega arith)
  fresh_id_free taken (suc fuel) n p h = elim (Bool-cases (includes (candidate n) taken)) [
    | inl used ↦
        (let (i, e, free) =
            fresh_id_free taken fuel (suc n) (omega arith)
              (omega (arith, ahead-lt taken n p used)) in
          (i, rw used e, free))
    | inr free ↦ (candidate n, rw free refl, free)
  ]

  fresh_id_total :
      (taken : List Text) (n : ℕ)
      → 1 ≤ n
      → (i : Text) × (fresh_id candidate taken (suc (length taken)) n ≡ some i)
        × (includes i taken ≡ false)
  unfolding ahead
  fresh_id_total taken n p =
      fresh_id_free taken (suc (length taken)) n p
        (omega (arith, length-keep-le (λ x. leb n (number x)) taken))

task_number : Text → ℕ
task_number s = read_nat (drop 5 s)

task_number-task_name : (n : ℕ) → 1 ≤ n → task_number (task_name n) ≡ n
unfolding task_number task_name
task_number-task_name n p = read_nat-print_nat n

length-ids : (ts : List Task) → length (ids ts) ≡ length ts
length-ids [] = refl
length-ids (t ∷ ts) = ap suc (length-ids ts)

-- A new task is always added, at the end, under a name that no task has; it is saved and shown.
add_task_fresh :
    (ts : List Task)
    → (i : Text) × (add_task ts
        ≡ some (ts ++ record blank_task { id = i } ∷ [], save ∷ show_task i ∷ []))
      × (includes i (ids ts) ≡ false)
unfolding add_task
add_task_fresh ts =
    let (i, e, free) =
      fresh_id_total task_name task_number task_number-task_name (ids ts) (length ts + 1)
        (omega arith) in
    let found : fresh_id task_name (ids ts) (rounds ts) (length ts + 1) ≡ some i =
      ap (λ k. fresh_id task_name (ids ts) (suc k) (length ts + 1)) (sym (length-ids ts)) ∙ e in
    (i, rw (found, add_task) refl, free)

-- The number of a copy of `i`.
copy_number : Text → Text → ℕ
copy_number i s = let r = drop (length i + 6) s in if is_empty r then 1 else read_nat r

drop-append_past : (i a : Text) (k : ℕ) → drop (length i + k) (i ++ a) ≡ drop k a
drop-append_past [] a k = ap (λ n. drop n a) (omega arith)
drop-append_past (c ∷ i) a k =
    let shifted : suc (length i) + k ≡ suc (length i + k) = omega arith in
    ap (λ n. drop n (c ∷ i ++ a)) shifted ∙ drop-append_past i a k

print_nat-not_empty : (n : ℕ) → is_empty (print_nat n) ≡ false
print_nat-not_empty n = let (c, s, e) = print_nat_cons n in rw e refl

copy_number-copy_name : (i : Text) (n : ℕ) → 1 ≤ n → copy_number i (copy_name i n) ≡ n
unfolding copy_number copy_name
copy_number-copy_name i n p = elim (Bool-cases (ltb 1 n)) [
  | inl b ↦ rw (b, drop-append_past i) (rw (print_nat-not_empty n) (read_nat-print_nat n))
  | inr b ↦ rw (b, drop-append_past i) (ground arith)
]

-- The copy of a task always gets a name that no task has; it stands at the end, equal to the task
-- but for its name, and is saved.
duplicate_task_fresh :
    (i : Text) (ts : List Task) (src : Task)
    → find (λ x. text_eq x.id i) ts ≡ some src
    → (nid : Text) × (duplicate_task i ts
        ≡ some (ts ++ record src { id = nid } ∷ [], save ∷ render_dag ∷ []))
      × (includes nid (ids ts) ≡ false)
unfolding duplicate_task
duplicate_task_fresh i ts src f =
    let (nid, e, free) =
      fresh_id_total (copy_name i) (copy_number i) (copy_number-copy_name i) (ids ts) 1
        (omega arith) in
    let found : fresh_id (copy_name i) (ids ts) (rounds ts) 1 ≡ some nid =
      ap (λ k. fresh_id (copy_name i) (ids ts) (suc k) 1) (sym (length-ids ts)) ∙ e in
    (nid, rw (f, duplicate_task) (rw (found, duplicate_task) refl), free)
