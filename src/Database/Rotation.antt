-- ===== src/Database/Rotation.antt =====
-- What RotateRegistryCredentialSecrets and RecordAuditEvent of
-- internal/metadata/sqlite_security.go do to a relation of tables.
use regstair.Base.{◌≡◌, refl, List, [], ◌∷◌, ◌==◌, Option-cases, inl, inr}
use regstair.Strings.{Text, text_eq}
use regstair.Effects.Keeps.{
  IsPreorder, Keeps, KeepsAlways, Keeps-pure, Keeps-fail, Keeps-if, Keeps-then, Keeps-refuse,
  KeepsAlways-lift, KeepsAlways-then,
}
use regstair.Metadata.Types.{Time}
use regstair.Database.Records.{AuditEvent}
use regstair.Database.Tables.{Database, Faults}
use regstair.Database.Rules.{
  Keeps-explained, KeepsAlways-explained, KeepsAlways-checked, KeepsAlways-transact,
}
use regstair.Database.Growth.{Grows, same_tables}
use regstair.Maps
use regstair.Maps.{Map}
use regstair.Database.Statements.{select-kept, change-kept, always, audit-kept}
use regstair.Database.Audit.{insert_audit_event, record_audit_event}
use regstair.Database.Credentials.{rotate_secrets, rotate_registry_credential_secrets}

module _ {R : Database → Database → Type 0} (order : IsPreorder R)
    (quiet : (db db' : Database) → Grows db db' → db'.users ≡ db.users → R db db')
    (faults : Faults) where
  rotate_secrets-kept :
      (replacements : Map Text Text) (ids : List Text)
      → Keeps R (rotate_secrets faults replacements ids)
  unfolding rotate_secrets
  rotate_secrets-kept replacements [] = Keeps-pure order tt
  rotate_secrets-kept replacements (id ∷ ids) = elim (Option-cases (Maps.get replacements id)) [
    | inl e ↦ rw (rotate_secrets, e) (Keeps-fail order _)
    | inr (encrypted, e) ↦
        rw (rotate_secrets, e)
          (Keeps-if (encrypted == []) _ _ (λ h. Keeps-fail order _)
            λ h.
              Keeps-then order _ _ (always order quiet _ (select-kept order quiet _ _)) λ affected.
                Keeps-then order _ _
                  (Keeps-explained _ _ (
                    always order quiet _ (
                      change-kept order quiet faults _
                        λ db. quiet db _ (same_tables db _ refl refl) refl)))
                  λ a.
                    Keeps-then order _ _ (Keeps-refuse order _ _)
                      λ a. rotate_secrets-kept replacements ids)
  ]

  pub rotate_registry_credential_secrets-kept :
      (now : Time) (replacements : Map Text Text) (audit : AuditEvent)
      → KeepsAlways R (rotate_registry_credential_secrets faults now replacements audit)
  unfolding rotate_registry_credential_secrets
  rotate_registry_credential_secrets-kept now replacements audit =
      KeepsAlways-then order _ _ (KeepsAlways-lift order _) λ a.
        KeepsAlways-transact order faults _ _ _ (
          Keeps-then order _ _
            (Keeps-explained _ _ (always order quiet _ (select-kept order quiet faults _)))
            λ ids. Keeps-then order _ _ (Keeps-refuse order _ _) λ a.
              Keeps-then order _ _ (rotate_secrets-kept replacements ids)
                λ a. audit-kept order quiet faults audit now _)

  pub record_audit_event-kept :
      (now : Time) (event : AuditEvent) → KeepsAlways R (record_audit_event faults now event)
  unfolding record_audit_event insert_audit_event
  record_audit_event-kept now event = KeepsAlways-then order _ _ (KeepsAlways-lift order _) λ a.
      KeepsAlways-explained order _ _ (
        KeepsAlways-checked order faults.audit_error _
          (record { at = λ db. quiet db _ (same_tables db _ refl refl) refl }))
