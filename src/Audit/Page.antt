-- ===== src/Audit/Page.antt =====
-- The state of the page, with the requests that are under way, and its handlers.
use cronova.Base.{
  ℕ, zero, suc, Bool, true, false, ◌&&◌, ◌||◌, List, [], ◌∷◌, ◌++◌, keep, length, take, drop,
  get_elem?, none, some, Text, is_empty, text_eq, if◌then◌else◌, ltb, leb,
}

pub record Entry : Type 0 where
  pub ts : Text
  pub actor : Text
  pub action : Text
  pub target : Text
  pub detail : Text

-- `ListAudit` of the store, for a log with its newest entry first and no target asked for.
unfoldable pub list_audit : ℕ → ℕ → List Entry → List Entry
list_audit limit offset log =
    let one = if leb limit 0 then 100 else limit in
    take (if ltb 500 one then 500 else one) (drop offset log)

-- `AUD`; whether the button of renderAudit can be clicked, where it is shown; and the offsets that the
-- requests under way ask for.
pub record AuditPage : Type 0 where
  pub entries : List Entry
  pub actor : Text
  pub action : Text
  pub more : Bool
  pub idle : Bool
  pub asked : List ℕ

-- `showAudit`, whose request goes well
unfoldable pub show_audit : List Entry → AuditPage
unfolding list_audit
show_audit log =
    let entries = list_audit 200 0 log in
    record {
      entries = entries;
      actor = [];
      action = [];
      more = leb 200 (length entries);
      idle = true;
      asked = [];
    }

-- The test of `shown`
unfoldable pub passes_audit : AuditPage → Entry → Bool
unfolding text_eq
passes_audit s e =
    (is_empty s.actor || text_eq e.actor s.actor)
    && (is_empty s.action || text_eq e.action s.action)

-- `shown`
unfoldable pub shown_entries : AuditPage → List Entry
unfolding passes_audit
shown_entries s = keep (passes_audit s) s.entries

-- The choices of a filter; a click on the button; the answer to one of the requests under way, or its
-- failure; a change of the language, with which setLang draws the page again; and the answer to the
-- request of another call of showAudit, or its failure.
pub data AuditEvent : Type 0 where
  actor_chosen : Text → AuditEvent
  action_chosen : Text → AuditEvent
  more_clicked : AuditEvent
  answered : ℕ → Bool → AuditEvent
  redrawn : AuditEvent
  reopened : Bool → AuditEvent

unfoldable pub without : {A : Type 0} → ℕ → List A → List A
without i [] = []
without zero (x ∷ xs) = xs
without (suc i) (x ∷ xs) = x ∷ without i xs

-- What follows the request: the page is joined to the entries, none for a failure.
unfoldable pub join_page : List Entry → AuditPage → AuditPage
join_page page s = record s {
  entries = s.entries ++ page;
  more = leb 200 (length page);
  idle = true;
}

-- The handlers; the store's log is given. Each ends with renderAudit, which draws a new button, but for
-- the failure of showAudit, whose message replaces the page with its button.
unfoldable pub audit_step : List Entry → AuditEvent → AuditPage → AuditPage
unfolding without join_page list_audit show_audit
audit_step log (actor_chosen v) s = record s { actor = v; idle = true }
audit_step log (action_chosen v) s = record s { action = v; idle = true }
audit_step log redrawn s = record s { idle = true }
audit_step log (reopened true) s = record (show_audit log) { asked = s.asked }
audit_step log (reopened false) s = record s { idle = false }
audit_step log more_clicked s =
    if s.more && s.idle
    then record s { idle = false; asked = s.asked ++ length s.entries ∷ [] }
    else s
audit_step log (answered i ok) s = elim (get_elem? s.asked i) [
  | none ↦ s
  | some o ↦
      join_page (if ok then list_audit 200 o log else []) (record s { asked = without i s.asked })
]

unfoldable pub audit_run : List Entry → List AuditEvent → AuditPage → AuditPage
unfolding audit_step
audit_run log [] s = s
audit_run log (e ∷ es) s = audit_run log es (audit_step log e s)
