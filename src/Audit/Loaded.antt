-- ===== src/Audit/Loaded.antt =====
-- The page shows the log through its filters, and where it does not.
use mathlib.Core.List.{append-nil}
use cronova.Base.{
  ℕ, zero, suc, ◌≤◌, ◌≡◌, refl, ap, true, false, List, [], ◌∷◌, ◌++◌, keep, Text, length, take,
  arith,
}
use cronova.Audit.Page.{
  Entry, list_audit, show_audit, passes_audit, shown_entries, AuditEvent, action_chosen,
  more_clicked, answered, without, join_page, audit_step, audit_run,
}
use cronova.Audit.Runs.{
  show_audit-IsFollowing, show_audit-IsDone, audit_run-IsFollowing, audit_run-IsDone,
}
use cronova.Audit.Pages.{IsPatient, all_well, IsPrefix, list_audit-next}

-- From the page's first answer on, where no filter is chosen, the language is not changed and no other
-- opening of the page is answered while a request for more is under way: whatever else is done, in
-- whatever order, and whichever requests fail, the loaded entries are the first ones of the log, each
-- once. Where all requests went well and the button to load more is gone, the rows that are shown are
-- all those of the log that pass the filters.
pub audit_run-prefix :
    (log : List Entry) (es : List AuditEvent)
    → IsPatient log es (show_audit log)
    → let s = audit_run log es (show_audit log) in
      IsPrefix s.entries log
      × (all_well es ≡ true → s.more ≡ false → shown_entries s ≡ keep (passes_audit s) log)
unfolding shown_entries
audit_run-prefix log es h =
    let start = show_audit-IsFollowing log in
    let s = audit_run log es (show_audit log) in
    (
      (audit_run-IsFollowing log es (show_audit log) h start).0,
      λ w n.
          ap (λ l. keep (passes_audit s) l)
            (audit_run-IsDone log es (show_audit log) h w start (show_audit-IsDone log) n),
    )

length-take-le : {A : Type 0} (n : ℕ) (xs : List A) → n ≤ length xs → length (take n xs) ≡ n
length-take-le zero xs h = refl
length-take-le (suc n) [] h = absurd (omega (arith, h))
length-take-le (suc n) (x ∷ xs) h = omega (arith, length-take-le n xs (omega (arith, h)))

-- For a log of 200 entries at least: a filter that is chosen while a request is under way gives a new
-- button, and a click on it asks for the same page again, which is then listed twice; and where the
-- request for a page fails, the button to load more is gone, with only the first 200 entries
-- of the log loaded.
pub audit_run-faults :
    (log : List Entry) (v : Text)
    → 200 ≤ length log
    → ((audit_run log
          (more_clicked ∷ action_chosen v ∷ more_clicked ∷ answered 0 true ∷ answered 0 true ∷ [])
          (show_audit log)).entries
        ≡ (take 200 log ++ list_audit 200 200 log) ++ list_audit 200 200 log)
      × ((audit_run log (more_clicked ∷ answered 0 false ∷ []) (show_audit log)).more ≡ false)
      × ((audit_run log (more_clicked ∷ answered 0 false ∷ []) (show_audit log)).entries
          ≡ take 200 log)
unfolding audit_run audit_step show_audit join_page without
audit_run-faults log v h =
    let len : length (take 200 log) ≡ 200 = length-take-le 200 log h in
    rw (list_audit-next [] log log refl, len, len) (refl, refl, append-nil (take 200 log))
