-- ===== src/Database/Credentials.antt =====
-- The registry credentials of internal/metadata/sqlite_security.go.
use regstair.Base.{
  ℕ, ◌&&◌, ◌||◌, Bool, not, Option, none, some, List, [], ◌∷◌, ◌++◌, ◌==◌, nat_eq, any, filter, map,
  length, if◌then◌else◌,
}
use regstair.Strings.{Text, text_eq, text_ltb}
use regstair.Errors.{wrap, lit, invalid_record, conflict}
use regstair.Effects.{Exec, refuse, pure, fail, lift, ◌>>=◌, ◌>>◌}
use regstair.Maps
use regstair.Maps.{Map}
use regstair.Sorting.{sort}
use regstair.Metadata.Types.{Time}
use regstair.Metadata.Memory.{next_updated_at}
use regstair.Auth.Selector.{RegistryCredential}
use regstair.Database.Records.{AuditEvent, validate_registry_credential, validate_audit_event}
use regstair.Database.Tables.{
  Database, constrained, Faults, explained, transact, select, change, first_where, update_where,
  count_where, has_user, unique_failed, foreign_failed,
}
use regstair.Database.Audit.{insert_audit_event}

-- WHERE user_id = ? AND source_id = ?
abbrev pub is_for : Text → Text → RegistryCredential → Bool
is_for user_id source_id row = row.user_id == user_id && row.source_id == source_id

unfoldable pub find_registry_credential :
    Faults → Text → Text → Exec Database (Option RegistryCredential)
find_registry_credential faults user_id source_id =
    explained (lit "find registry credential" ∷ [])
      (select faults λ db. first_where (is_for user_id source_id) db.registry_credentials)

abbrev by_source : RegistryCredential → RegistryCredential → Bool
by_source a b = text_ltb a.source_id b.source_id

unfoldable pub list_registry_credentials_for_user :
    Faults → Text → Exec Database (List RegistryCredential)
list_registry_credentials_for_user faults user_id =
    explained (lit "list registry credentials" ∷ []) (
      select faults λ db.
        sort by_source
          (filter (λ (row : RegistryCredential). row.user_id == user_id) db.registry_credentials))

-- INSERT INTO registry_credentials
unfoldable pub insert_credential : Faults → RegistryCredential → Exec Database (Unit {0})
insert_credential faults credential =
    constrained
      (λ db.
        any
          (λ (row : RegistryCredential).
            row.id == credential.id || is_for credential.user_id credential.source_id row)
          db.registry_credentials)
      unique_failed
      (constrained (λ db. not (has_user credential.user_id db)) foreign_failed
        (change faults
          λ db. record db { registry_credentials = db.registry_credentials ++ credential ∷ [] }))

-- UPDATE … SET username, encrypted_secret, updated_at_nanos WHERE id = ?
unfoldable pub write_credential : Faults → RegistryCredential → Exec Database (Unit {0})
write_credential faults credential = change faults λ db. record db {
  registry_credentials =
      update_where (λ (row : RegistryCredential). row.id == credential.id)
        (λ (row : RegistryCredential). record row {
          username = credential.username;
          encrypted_secret = credential.encrypted_secret;
          updated_at = credential.updated_at;
        })
        db.registry_credentials;
}

-- What is stored for a credential, from what is there.
unfoldable pub put_credential :
    Faults
    → Time
    → RegistryCredential
    → Option RegistryCredential
    → Exec Database RegistryCredential
put_credential faults now credential none = do
  let added : RegistryCredential = record credential { created_at = now; updated_at = now }
  explained (lit "save registry credential" ∷ []) (insert_credential faults added)
  pure added
put_credential faults now credential (some existing) = do
  refuse (not (existing.id == credential.id))
      (wrap conflict (lit "credential id does not match existing user/source record" ∷ []))
  let changed : RegistryCredential = record credential {
    created_at = existing.created_at;
    updated_at = next_updated_at now existing.updated_at;
  }
  explained (lit "save registry credential" ∷ []) (write_credential faults changed)
  pure changed

unfoldable pub save_registry_credential :
    Faults → Time → RegistryCredential → AuditEvent → Exec Database RegistryCredential
save_registry_credential faults now credential audit = do
  lift (validate_registry_credential credential)
  lift (validate_audit_event audit)
  transact faults (lit "begin credential save" ∷ []) (lit "commit credential save" ∷ []) (do
    existing ← find_registry_credential faults credential.user_id credential.source_id
    saved ← put_credential faults now credential existing
    _ ← insert_audit_event faults audit now
    pure saved)

unfoldable pub delete_registry_credential :
    Faults → Time → Text → Text → AuditEvent → Exec Database (Unit {0})
delete_registry_credential faults now user_id source_id audit = do
  lift (validate_audit_event audit)
  transact faults (lit "begin credential deletion" ∷ []) (lit "commit credential deletion" ∷ []) (do
    explained (lit "delete registry credential" ∷ []) (
        change faults λ db. record db {
          registry_credentials =
              filter (λ row. not (is_for user_id source_id row)) db.registry_credentials;
        })
    _ ← insert_audit_event faults audit now
    pure tt)

-- The loop over the ids of all credentials; a row was changed if the id is there.
unfoldable pub rotate_secrets : Faults → Map Text Text → List Text → Exec Database (Unit {0})
rotate_secrets faults replacements [] = pure tt
rotate_secrets faults replacements (id ∷ ids) =
    let rest = rotate_secrets faults replacements ids in
    elim (Maps.get replacements id) [
      | none ↦ fail (wrap invalid_record (lit "credential key rotation is incomplete" ∷ []))
      | some encrypted ↦
          if encrypted == []
          then fail (wrap invalid_record (lit "credential key rotation is incomplete" ∷ []))
          else (do
            affected ←
                select (record faults { read_error = none })
                  λ db.
                    count_where (λ (row : RegistryCredential). row.id == id) db.registry_credentials
            explained (lit "rotate credential key" ∷ []) (
                change faults λ db. record db {
                  registry_credentials =
                      update_where (λ (row : RegistryCredential). row.id == id)
                        (λ (row : RegistryCredential). record row { encrypted_secret = encrypted })
                        db.registry_credentials;
                })
            refuse (not (affected == 1))
                (wrap conflict (lit "credential key rotation set changed" ∷ []))
            rest)
    ]

unfoldable pub rotate_registry_credential_secrets :
    Faults → Time → Map Text Text → AuditEvent → Exec Database ℕ
rotate_registry_credential_secrets faults now replacements audit = do
  lift (validate_audit_event audit)
  transact faults (lit "begin credential key rotation" ∷ [])
      (lit "commit credential key rotation" ∷ [])
      (do
        ids ← explained (lit "list credentials for key rotation" ∷ []) (
            select faults λ db.
              sort text_ltb (map (λ (row : RegistryCredential). row.id) db.registry_credentials))
        refuse (not (length ids == length replacements))
            (wrap conflict (lit "credential key rotation set changed" ∷ []))
        rotate_secrets faults replacements ids
        _ ← insert_audit_event faults audit now
        pure (length ids))
