-- ===== src/Audit/Runs.antt =====
-- The page through any use of it.
use cronova.Base.{◌≡◌, refl, Bool, true, false, inl, List, [], ◌∷◌}
use cronova.Audit.Page.{
  Entry, AuditPage, show_audit, AuditEvent, actor_chosen, action_chosen, more_clicked, answered,
  redrawn, reopened, audit_step, audit_run,
}
use cronova.Audit.Pages.{
  IsPatient, all_well, IsFollowing, IsDone, IsPrefix-next, list_audit-next, next-done,
  answered-IsFollowing, answered-IsDone, clicked-IsFollowing, clicked-IsDone,
}

-- The page as it opens.
pub show_audit-IsFollowing : (log : List Entry) → IsFollowing log (show_audit log)
unfolding show_audit
show_audit-IsFollowing log =
    rw (list_audit-next [] log log refl) (IsPrefix-next [] log log refl, inl refl)

pub show_audit-IsDone : (log : List Entry) → IsDone log (show_audit log)
unfolding show_audit
show_audit-IsDone log = rw (list_audit-next [] log log refl) (λ h. next-done [] log log refl h)

reopened-IsFollowing :
    (log : List Entry) (ok : Bool) (s : AuditPage)
    → IsFollowing log s
    → s.asked ≡ []
    → IsFollowing log (audit_step log (reopened ok) s)
unfolding audit_step
reopened-IsFollowing log true s f e = ((show_audit-IsFollowing log).0, inl e)
reopened-IsFollowing log false s f e = (f.0, inl e)

pub audit_run-IsFollowing :
    (log : List Entry) (es : List AuditEvent) (s : AuditPage)
    → IsPatient log es s
    → IsFollowing log s
    → IsFollowing log (audit_run log es s)
unfolding audit_run audit_step
audit_run-IsFollowing log [] s h f = f
audit_run-IsFollowing log (actor_chosen v ∷ es) s h f =
    audit_run-IsFollowing log es (audit_step log (actor_chosen v) s) h.1 (f.0, inl h.0)
audit_run-IsFollowing log (action_chosen v ∷ es) s h f =
    audit_run-IsFollowing log es (audit_step log (action_chosen v) s) h.1 (f.0, inl h.0)
audit_run-IsFollowing log (redrawn ∷ es) s h f =
    audit_run-IsFollowing log es (audit_step log redrawn s) h.1 (f.0, inl h.0)
audit_run-IsFollowing log (reopened ok ∷ es) s h f =
    audit_run-IsFollowing log es (audit_step log (reopened ok) s) h.1
      (reopened-IsFollowing log ok s f h.0)
audit_run-IsFollowing log (more_clicked ∷ es) s h f =
    audit_run-IsFollowing log es (audit_step log more_clicked s) h (clicked-IsFollowing log s f)
audit_run-IsFollowing log (answered i ok ∷ es) s h f =
    audit_run-IsFollowing log es (audit_step log (answered i ok) s) h
      (answered-IsFollowing log i ok s f)

pub audit_run-IsDone :
    (log : List Entry) (es : List AuditEvent) (s : AuditPage)
    → IsPatient log es s
    → all_well es ≡ true
    → IsFollowing log s
    → IsDone log s
    → IsDone log (audit_run log es s)
unfolding audit_run audit_step all_well
audit_run-IsDone log [] s h w f d = d
audit_run-IsDone log (actor_chosen v ∷ es) s h w f d =
    audit_run-IsDone log es (audit_step log (actor_chosen v) s) h.1 w (f.0, inl h.0) d
audit_run-IsDone log (action_chosen v ∷ es) s h w f d =
    audit_run-IsDone log es (audit_step log (action_chosen v) s) h.1 w (f.0, inl h.0) d
audit_run-IsDone log (redrawn ∷ es) s h w f d =
    audit_run-IsDone log es (audit_step log redrawn s) h.1 w (f.0, inl h.0) d
audit_run-IsDone log (reopened false ∷ es) s h w f d = absurd (cc)
audit_run-IsDone log (reopened true ∷ es) s h w f d =
    audit_run-IsDone log es (audit_step log (reopened true) s) h.1 w
      (reopened-IsFollowing log true s f h.0) (show_audit-IsDone log)
audit_run-IsDone log (more_clicked ∷ es) s h w f d =
    audit_run-IsDone log es (audit_step log more_clicked s) h w (clicked-IsFollowing log s f)
      (clicked-IsDone log s d)
audit_run-IsDone log (answered i false ∷ es) s h w f d = absurd (cc)
audit_run-IsDone log (answered i true ∷ es) s h w f d =
    audit_run-IsDone log es (audit_step log (answered i true) s) h w
      (answered-IsFollowing log i true s f) (answered-IsDone log i s f d)
