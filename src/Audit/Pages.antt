-- ===== src/Audit/Pages.antt =====
-- What the page has loaded of the log.
use mathlib.Core.List.{append_assoc, append-nil}
use cronova.Base.{
  ℕ, zero, suc, ◌≡◌, ◌⊎◌, refl, sym, ap, ◌∙◌, subst, Bool, true, false, ◌&&◌, Bool-cases, inl, inr,
  List, [], ◌∷◌, ◌++◌, length, take, drop, if◌then◌else◌, leb, arith,
}
use cronova.Audit.Page.{
  Entry, list_audit, AuditPage, AuditEvent, actor_chosen, action_chosen, more_clicked, answered,
  redrawn, reopened, without, join_page, audit_step,
}

-- While a request is under way, no filter is chosen, the language is not changed, and no call of showAudit
-- has its answer.
abbrev pub IsPatient : List Entry → List AuditEvent → AuditPage → Type 0
IsPatient log [] s = Unit
IsPatient log (actor_chosen v ∷ es) s =
    (s.asked ≡ []) × IsPatient log es (audit_step log (actor_chosen v) s)
IsPatient log (action_chosen v ∷ es) s =
    (s.asked ≡ []) × IsPatient log es (audit_step log (action_chosen v) s)
IsPatient log (redrawn ∷ es) s = (s.asked ≡ []) × IsPatient log es (audit_step log redrawn s)
IsPatient log (reopened ok ∷ es) s =
    (s.asked ≡ []) × IsPatient log es (audit_step log (reopened ok) s)
IsPatient log (e ∷ es) s = IsPatient log es (audit_step log e s)

-- All requests go well.
unfoldable pub all_well : List AuditEvent → Bool
all_well [] = true
all_well (answered i ok ∷ es) = ok && all_well es
all_well (reopened ok ∷ es) = ok && all_well es
all_well (e ∷ es) = all_well es

abbrev pub IsPrefix : List Entry → List Entry → Type 0
IsPrefix xs log = (rest : List Entry) × (xs ++ rest ≡ log)

take-drop : {A : Type 0} (n : ℕ) (xs : List A) → take n xs ++ drop n xs ≡ xs
take-drop zero xs = refl
take-drop (suc n) [] = refl
take-drop (suc n) (x ∷ xs) = ap (λ l. x ∷ l) (take-drop n xs)

drop-length : {A : Type 0} (xs ys : List A) → drop (length xs) (xs ++ ys) ≡ ys
drop-length [] ys = refl
drop-length (x ∷ xs) ys = drop-length xs ys

drop-short :
    {A : Type 0} (n : ℕ) (xs : List A) → leb n (length (take n xs)) ≡ false → drop n xs ≡ []
drop-short zero xs h = absurd (ground arith)
drop-short (suc n) [] h = refl
drop-short (suc n) (x ∷ xs) h = drop-short n xs (ground arith)

-- The page that follows what is loaded.
pub list_audit-next :
    (xs rest log : List Entry) → xs ++ rest ≡ log → list_audit 200 (length xs) log ≡ take 200 rest
unfolding list_audit
list_audit-next xs rest log h =
    ap (λ l. take 200 (drop (length xs) l)) (sym h) ∙ ap (λ l. take 200 l) (drop-length xs rest)

-- At most one request is under way, for what follows the loaded entries, and the button waits for it.
abbrev pub IsAsking : AuditPage → Type 0
IsAsking s = (s.asked ≡ []) ⊎ ((s.asked ≡ length s.entries ∷ []) × (s.idle ≡ false))

abbrev pub IsFollowing : List Entry → AuditPage → Type 0
IsFollowing log s = IsPrefix s.entries log × IsAsking s

-- Nothing is left to load where no button is shown.
abbrev pub IsDone : List Entry → AuditPage → Type 0
IsDone log s = s.more ≡ false → s.entries ≡ log

pub IsPrefix-next :
    (xs rest log : List Entry) → xs ++ rest ≡ log → IsPrefix (xs ++ take 200 rest) log
IsPrefix-next xs rest log h = (
  drop 200 rest,
  append_assoc xs (take 200 rest) (drop 200 rest) ∙ ap (λ l. xs ++ l) (take-drop 200 rest) ∙ h,
)

pub next-done :
    (xs rest log : List Entry)
    → xs ++ rest ≡ log
    → leb 200 (length (take 200 rest)) ≡ false
    → xs ++ take 200 rest ≡ log
next-done xs rest log h short =
    let all : take 200 rest ≡ rest =
      sym (append-nil (take 200 rest))
      ∙ ap (λ l. take 200 rest ++ l) (sym (drop-short 200 rest short))
      ∙ take-drop 200 rest in
    ap (λ l. xs ++ l) all ∙ h

-- The answer to the one request there is.
join_page-IsFollowing :
    (log : List Entry) (ok : Bool) (s : AuditPage)
    → IsPrefix s.entries log
    → s.asked ≡ []
    → IsFollowing log (join_page (if ok then list_audit 200 (length s.entries) log else []) s)
unfolding join_page
join_page-IsFollowing log true s p e = (
  subst (λ l. IsPrefix (s.entries ++ l) log) (sym (list_audit-next s.entries p.0 log p.1))
      (IsPrefix-next s.entries p.0 log p.1),
  inl e,
)
join_page-IsFollowing log false s p e =
    (subst (λ l. IsPrefix l log) (sym (append-nil s.entries)) p, inl e)

join_page-IsDone :
    (log : List Entry) (s : AuditPage)
    → IsPrefix s.entries log
    → IsDone log (join_page (list_audit 200 (length s.entries) log) s)
unfolding join_page
join_page-IsDone log s p =
    rw (list_audit-next s.entries p.0 log p.1) (λ h. next-done s.entries p.0 log p.1 h)

answered-idle :
    (log : List Entry) (i : ℕ) (ok : Bool) (s : AuditPage)
    → s.asked ≡ []
    → audit_step log (answered i ok) s ≡ s
unfolding audit_step
answered-idle log i ok s e = rw e refl

answered-later :
    (log : List Entry) (o i : ℕ) (ok : Bool) (s : AuditPage)
    → s.asked ≡ o ∷ []
    → audit_step log (answered (suc i) ok) s ≡ s
unfolding audit_step
answered-later log o i ok s e = rw e refl

answered-first :
    (log : List Entry) (o : ℕ) (ok : Bool) (s : AuditPage)
    → s.asked ≡ o ∷ []
    → audit_step log (answered zero ok) s
      ≡ join_page (if ok then list_audit 200 o log else []) (record s { asked = [] })
unfolding audit_step without
answered-first log o ok s e = rw e refl

pub answered-IsFollowing :
    (log : List Entry) (i : ℕ) (ok : Bool) (s : AuditPage)
    → IsFollowing log s
    → IsFollowing log (audit_step log (answered i ok) s)
answered-IsFollowing log i ok s (p, inl e) =
    subst (λ z. IsFollowing log z) (sym (answered-idle log i ok s e)) (p, inl e)
answered-IsFollowing log zero ok s (p, inr a) =
    subst (λ z. IsFollowing log z) (sym (answered-first log (length s.entries) ok s a.0))
      (join_page-IsFollowing log ok (record s { asked = [] }) p refl)
answered-IsFollowing log (suc i) ok s (p, inr a) =
    subst (λ z. IsFollowing log z) (sym (answered-later log (length s.entries) i ok s a.0))
      (p, inr a)

pub answered-IsDone :
    (log : List Entry) (i : ℕ) (s : AuditPage)
    → IsFollowing log s
    → IsDone log s
    → IsDone log (audit_step log (answered i true) s)
answered-IsDone log i s (p, inl e) d =
    subst (λ z. IsDone log z) (sym (answered-idle log i true s e)) d
answered-IsDone log zero s (p, inr a) d =
    subst (λ z. IsDone log z) (sym (answered-first log (length s.entries) true s a.0))
      (join_page-IsDone log (record s { asked = [] }) p)
answered-IsDone log (suc i) s (p, inr a) d =
    subst (λ z. IsDone log z) (sym (answered-later log (length s.entries) i true s a.0)) d

pub clicked-IsFollowing :
    (log : List Entry) (s : AuditPage)
    → IsFollowing log s
    → IsFollowing log (audit_step log more_clicked s)
unfolding audit_step
clicked-IsFollowing log s f = elim (Bool-cases (s.more && s.idle)) [
  | inl t ↦ rw t (
    f.0,
    elim f.1 [
      | inl e ↦ inr (ap (λ l. l ++ length s.entries ∷ []) e, refl)
      | inr a ↦ absurd (ground (arith, a.1))
    ],
  )
  | inr n ↦ rw n f
]

pub clicked-IsDone :
    (log : List Entry) (s : AuditPage) → IsDone log s → IsDone log (audit_step log more_clicked s)
unfolding audit_step
clicked-IsDone log s d = elim (Bool-cases (s.more && s.idle)) [ inl t ↦ rw t d | inr n ↦ rw n d ]
