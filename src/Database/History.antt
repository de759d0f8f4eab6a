-- ===== src/Database/History.antt =====
-- Sequences of the operations of internal/metadata/sqlite_security.go that write.
use regstair.Base.{◌≡◌, Bool}
use regstair.Strings.{Text, text_eq}
use regstair.Metadata.Types.{Time, User}
use regstair.Auth.Selector.{RegistryCredential}
use regstair.Database.Records.{DockerToken, WebSession, AuditEvent}
use regstair.Database.Tables.{Database, Faults}
use regstair.Database.Growth.{Grows, Grows-order}
use regstair.Database.Operations as O
use regstair.Database.Statements as S
use regstair.Database.Rotation as R
use regstair.Maps.{Map}
use regstair.Database.Credentials.{rotate_registry_credential_secrets}
use regstair.Database.Audit.{record_audit_event}
use regstair.Database.Accounts.{
  create_user_with_audit, bootstrap_admin, update_user_security, change_user_password,
}
use regstair.Database.Tokens.{
  create_docker_token_with_audit, revoke_docker_token, revoke_docker_token_with_audit,
}
use regstair.Database.Sessions.{
  create_web_session, revoke_web_session, revoke_web_sessions_for_user,
}
use regstair.Database.Credentials.{save_registry_credential, delete_registry_credential}

-- One operation that writes, of those that the program calls, whatever comes of it.
pub data Step : Database → Database → Type 0 where
  bootstrapped :
      (faults : Faults) (now : Time) (user : User) (audit : AuditEvent) (db : Database)
      → Step db (bootstrap_admin faults now user audit db).1
  user_created :
      (faults : Faults) (now : Time) (user : User) (audit : AuditEvent) (db : Database)
      → Step db (create_user_with_audit faults now user audit db).1
  user_updated :
      (faults : Faults) (now : Time) (user : User) (expected : Time) (invalidate : Bool)
      (audit : AuditEvent) (db : Database)
      → Step db (update_user_security faults now user expected invalidate audit db).1
  password_changed :
      (faults : Faults) (now : Time) (id : Text) (expected : Time) (hash : Text)
      (audit : AuditEvent) (db : Database)
      → Step db (change_user_password faults now id expected hash audit db).1
  token_created :
      (faults : Faults) (now : Time) (token : DockerToken) (audit : AuditEvent) (db : Database)
      → Step db (create_docker_token_with_audit faults now token audit db).1
  token_revoked :
      (faults : Faults) (now : Time) (id : Text) (at : Time) (db : Database)
      → Step db (revoke_docker_token faults now id at db).1
  own_token_revoked :
      (faults : Faults) (user_id id : Text) (at : Time) (audit : AuditEvent) (db : Database)
      → Step db (revoke_docker_token_with_audit faults user_id id at audit db).1
  session_created :
      (faults : Faults) (now : Time) (session : WebSession) (db : Database)
      → Step db (create_web_session faults now session db).1
  session_revoked :
      (faults : Faults) (now : Time) (id : Text) (at : Time) (db : Database)
      → Step db (revoke_web_session faults now id at db).1
  sessions_revoked :
      (faults : Faults) (now : Time) (user_id : Text) (at : Time) (db : Database)
      → Step db (revoke_web_sessions_for_user faults now user_id at db).1
  credential_saved :
      (faults : Faults) (now : Time) (credential : RegistryCredential) (audit : AuditEvent)
      (db : Database)
      → Step db (save_registry_credential faults now credential audit db).1
  credential_deleted :
      (faults : Faults) (now : Time) (user_id source_id : Text) (audit : AuditEvent) (db : Database)
      → Step db (delete_registry_credential faults now user_id source_id audit db).1
  credentials_rotated :
      (faults : Faults) (now : Time) (replacements : Map Text Text) (audit : AuditEvent)
      (db : Database)
      → Step db (rotate_registry_credential_secrets faults now replacements audit db).1
  event_recorded :
      (faults : Faults) (now : Time) (event : AuditEvent) (db : Database)
      → Step db (record_audit_event faults now event db).1

-- Any number of operations, one after the other.
pub data History : Database → Database → Type 0 where
  nothing : (db : Database) → History db db
  followed_by : (u v w : Database) → History u v → Step v w → History u w

weaken : (u v : Database) → Grows u v → v.users ≡ u.users → Grows u v
weaken u v grows users = grows

Step-Grows : (u v : Database) → Step u v → Grows u v
Step-Grows _ _ (bootstrapped faults now user audit db) =
    (O.bootstrap_admin-Grows faults now user audit).at db
Step-Grows _ _ (user_created faults now user audit db) =
    (O.create_user_with_audit-Grows faults now user audit).at db
Step-Grows _ _ (user_updated faults now user expected invalidate audit db) =
    (O.update_user_security-Grows faults now user expected invalidate audit).at db
Step-Grows _ _ (password_changed faults now id expected hash audit db) =
    (O.change_user_password-Grows faults now id expected hash audit).at db
Step-Grows _ _ (token_created faults now token audit db) =
    (S.create_docker_token-kept Grows-order weaken faults now token audit).at db
Step-Grows _ _ (token_revoked faults now id at db) =
    (S.revoke_docker_token-kept Grows-order weaken faults now id at).at db
Step-Grows _ _ (own_token_revoked faults user_id id at audit db) =
    (S.revoke_own_token-kept Grows-order weaken faults 0 user_id id at audit).at db
Step-Grows _ _ (session_created faults now session db) =
    (S.create_web_session-kept Grows-order weaken faults now session).at db
Step-Grows _ _ (session_revoked faults now id at db) =
    (S.revoke_web_session-kept Grows-order weaken faults now id at).at db
Step-Grows _ _ (sessions_revoked faults now user_id at db) =
    (S.revoke_web_sessions_for_user-kept Grows-order weaken faults now user_id at).at db
Step-Grows _ _ (credential_saved faults now credential audit db) =
    (S.save_registry_credential-kept Grows-order weaken faults now credential audit).at db
Step-Grows _ _ (credential_deleted faults now user_id source_id audit db) =
    (S.delete_registry_credential-kept Grows-order weaken faults now user_id source_id audit).at db
Step-Grows _ _ (credentials_rotated faults now replacements audit db) =
    (R.rotate_registry_credential_secrets-kept Grows-order weaken faults now replacements audit).at
      db
Step-Grows _ _ (event_recorded faults now event db) =
    (R.record_audit_event-kept Grows-order weaken faults now event).at db

pub History-Grows : (u v : Database) → History u v → Grows u v
History-Grows _ _ (nothing db) = Grows-order.reflexive db
History-Grows _ _ (followed_by u v w before step) =
    Grows-order.transitive u v w (History-Grows u v before) (Step-Grows v w step)
