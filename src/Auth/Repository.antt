-- ===== src/Auth/Repository.antt =====
-- securityRepository of internal/auth/accounts.go: what the account services call, and the SQLite
-- repository as one. The services pass a context that is not done.
use regstair.Base.{Bool, List, Option, none}
use regstair.Strings.{Text}
use regstair.Effects.{Exec}
use regstair.Registry.Types.{Bytes}
use regstair.Metadata.Types.{Time, User}
use regstair.Auth.Selector.{RegistryCredential}
use regstair.Database.Records.{AuditEvent, DockerToken, WebSession}
use regstair.Database.Tables.{Database, Faults}
use regstair.Database.Accounts as A
use regstair.Database.Audit as E
use regstair.Database.Tokens as T
use regstair.Database.Sessions as S
use regstair.Database.Credentials as C

pub record SecurityRepository (W : Type 0) : Type 0 where
  pub bootstrap_admin : User → AuditEvent → Exec W User
  pub find_user_by_id : Text → Exec W (Option User)
  pub find_user_by_username : Text → Exec W (Option User)
  pub list_users : Exec W (List User)
  pub create_user_with_audit : User → AuditEvent → Exec W User
  pub update_user_security : User → Time → Bool → AuditEvent → Exec W (Option User)
  pub change_user_password : Text → Time → Text → AuditEvent → Exec W (Option User)
  pub create_docker_token_with_audit : DockerToken → AuditEvent → Exec W DockerToken
  pub find_docker_token_by_hash : Bytes → Exec W (Option DockerToken)
  pub list_docker_tokens_for_user : Text → Exec W (List DockerToken)
  pub revoke_docker_token : Text → Time → Exec W (Unit {0})
  pub revoke_docker_token_with_audit : Text → Text → Time → AuditEvent → Exec W (Unit {0})
  pub create_web_session : WebSession → Exec W WebSession
  pub find_web_session_by_hash : Bytes → Exec W (Option WebSession)
  pub revoke_web_session : Text → Time → Exec W (Unit {0})
  pub find_registry_credential : Text → Text → Exec W (Option RegistryCredential)
  pub list_registry_credentials_for_user : Text → Exec W (List RegistryCredential)
  pub save_registry_credential : RegistryCredential → AuditEvent → Exec W RegistryCredential
  pub delete_registry_credential : Text → Text → AuditEvent → Exec W (Unit {0})
  pub record_audit_event : AuditEvent → Exec W AuditEvent

-- The SQLite repository at a time of its clock.
abbrev pub sqlite_repository : Faults → Time → SecurityRepository Database
sqlite_repository faults now = record {
  bootstrap_admin = A.bootstrap_admin faults now;
  find_user_by_id = A.find_user_by_id faults none;
  find_user_by_username = A.find_user_by_username faults none;
  list_users = A.list_users faults;
  create_user_with_audit = A.create_user_with_audit faults now;
  update_user_security = A.update_user_security faults now;
  change_user_password = A.change_user_password faults now;
  create_docker_token_with_audit = T.create_docker_token_with_audit faults now;
  find_docker_token_by_hash = T.find_docker_token_by_hash faults;
  list_docker_tokens_for_user = T.list_docker_tokens_for_user faults;
  revoke_docker_token = T.revoke_docker_token faults now;
  revoke_docker_token_with_audit = T.revoke_docker_token_with_audit faults;
  create_web_session = S.create_web_session faults now;
  find_web_session_by_hash = S.find_web_session_by_hash faults;
  revoke_web_session = S.revoke_web_session faults now;
  find_registry_credential = C.find_registry_credential faults;
  list_registry_credentials_for_user = C.list_registry_credentials_for_user faults;
  save_registry_credential = C.save_registry_credential faults now;
  delete_registry_credential = C.delete_registry_credential faults now;
  record_audit_event = E.record_audit_event faults now;
}
