-- ===== src/Audit/Samples.antt =====
-- Tests of the audit page, and its theorems at a concrete log.
use cronova.Base.{
  ℕ, zero, suc, ◌≡◌, refl, true, false, List, [], ◌∷◌, ◌++◌, keep, length, take, Text, codes, arith,
}
use cronova.Audit.Page.{
  Entry, list_audit, show_audit, passes_audit, shown_entries, AuditEvent, actor_chosen,
  action_chosen, more_clicked, answered, redrawn, audit_step, audit_run,
}
use cronova.Audit.Pages.{IsPrefix, all_well}
use cronova.Audit.Loaded.{audit_run-prefix, audit_run-faults}

abbrev verb_of : ℕ → Text
verb_of zero = codes "login"
verb_of (suc zero) = codes "run"
verb_of (suc (suc k)) = verb_of k

abbrev entry_of : ℕ → Entry
entry_of n = record {
  ts = n ∷ [];
  actor = codes "ann";
  action = verb_of n;
  target = [];
  detail = [];
}

abbrev log_of : ℕ → List Entry
log_of zero = []
log_of (suc n) = entry_of n ∷ log_of n

shown_entries_test :
    length (
      shown_entries
        (audit_run (log_of 5) (action_chosen (codes "run") ∷ []) (show_audit (log_of 5))))
    ≡ 2
unfolding shown_entries passes_audit audit_run show_audit
shown_entries_test = refl

abbrev patient_events : List AuditEvent
patient_events =
    action_chosen (codes "run")
    ∷ more_clicked
    ∷ answered 0 true
    ∷ redrawn
    ∷ actor_chosen (codes "ann")
    ∷ []

audit_run-prefix_example :
    let s = audit_run (log_of 250) patient_events (show_audit (log_of 250)) in
    IsPrefix s.entries (log_of 250)
    × (all_well patient_events ≡ true
        → s.more ≡ false
        → shown_entries s ≡ keep (passes_audit s) (log_of 250))
unfolding audit_run audit_step show_audit
audit_run-prefix_example = audit_run-prefix (log_of 250) patient_events (refl, (refl, (refl, tt)))

length-log_of : (n : ℕ) → length (log_of n) ≡ n
length-log_of zero = refl
length-log_of (suc n) = omega (arith, length-log_of n)

audit_run-faults_example :
    let log = log_of 450 in
    ((audit_run log
        (more_clicked ∷ action_chosen [] ∷ more_clicked ∷ answered 0 true ∷ answered 0 true ∷ [])
        (show_audit log)).entries
      ≡ (take 200 log ++ list_audit 200 200 log) ++ list_audit 200 200 log)
    × ((audit_run log (more_clicked ∷ answered 0 false ∷ []) (show_audit log)).more ≡ false)
    × ((audit_run log (more_clicked ∷ answered 0 false ∷ []) (show_audit log)).entries
        ≡ take 200 log)
audit_run-faults_example = audit_run-faults (log_of 450) [] (omega (arith, length-log_of 450))
