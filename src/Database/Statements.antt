-- ===== src/Database/Statements.antt =====
-- What the operations on tokens, sessions and credentials of
-- internal/metadata/sqlite_security.go do to a relation of tables.
use regstair.Base.{◌≡◌, refl, Option, none, some, List}
use regstair.Strings.{Text, text_eq}
use regstair.Errors.{Message}
use regstair.Effects.{Exec, pure, attempt, ◌>>=◌}
use regstair.Effects.Keeps.{
  IsPreorder, Keeps, KeepsAlways, Keeps-pure, Keeps-then, Keeps-refuse, Keeps-when,
  KeepsAlways-pure, KeepsAlways-lift, KeepsAlways-refuse, KeepsAlways-then,
}
use regstair.Metadata.Types.{Time}
use regstair.Auth.Selector.{RegistryCredential}
use regstair.Database.Records.{DockerToken, WebSession, AuditEvent}
use regstair.Database.Tables.{Database, Faults, explained, select, change}
use regstair.Database.Rules.{
  Keeps-explained, Keeps-checked, Keeps-constrained, KeepsAlways-explained, KeepsAlways-checked,
  KeepsAlways-constrained, KeepsAlways-transact,
}
use regstair.Database.Growth.{
  Grows, same_tables, token_added_Grows, session_added_Grows, revoke_tokens_Grows,
  revoke_sessions_Grows,
}
use regstair.Database.Audit.{insert_audit_event}
use regstair.Database.Tokens.{
  insert_token, create_docker_token_with_audit, revoke_docker_token, revoke_docker_token_with_audit,
}
use regstair.Database.Credentials.{
  find_registry_credential, insert_credential, write_credential, put_credential,
  save_registry_credential, delete_registry_credential,
}
use regstair.Database.Sessions.{
  insert_session, create_web_session, revoke_web_session, revoke_web_sessions_for_user,
}

module _ {R : Database → Database → Type 0} (order : IsPreorder R)
    (quiet : (db db' : Database) → Grows db db' → db'.users ≡ db.users → R db db') where
  unchanged :
      (db db' : Database)
      → db'.docker_tokens ≡ db.docker_tokens
      → db'.web_sessions ≡ db.web_sessions
      → db'.users ≡ db.users
      → R db db'
  unchanged db db' tokens sessions users = quiet db db' (same_tables db db' tokens sessions) users

  pub select-kept :
      {A : Type 0} → (faults : Faults) (f : Database → A) → KeepsAlways R (select faults f)
  unfolding select
  select-kept faults f =
      KeepsAlways-checked order faults.read_error _ (record { at = λ db. order.reflexive db })

  -- What is kept whether a value is returned or not is kept where one is.
  pub always : {A : Type 0} → (m : Exec Database A) → KeepsAlways R m → Keeps R m
  always m kept = record { at = λ db a h. kept.at db }

  attempt-kept : {A : Type 0} → (m : Exec Database A) → KeepsAlways R m → Keeps R (attempt m)
  unfolding attempt
  attempt-kept m kept = record { at = λ db a h. kept.at db }

  pub change-kept :
      (faults : Faults) (f : Database → Database)
      → ((db : Database) → R db (f db))
      → KeepsAlways R (change faults f)
  unfolding change
  change-kept faults f kept =
      KeepsAlways-checked order faults.write_error _ (record { at = λ db. kept db })

  pub insert_audit_event-kept :
      (faults : Faults) (event : AuditEvent) (at : Time)
      → Keeps R (insert_audit_event faults event at)
  unfolding insert_audit_event
  insert_audit_event-kept faults event at =
      Keeps-explained _ _ (
        Keeps-checked faults.audit_error _
          (record { at = λ db a h. unchanged db _ refl refl refl }))

  -- The audit event, and what the operation returns.
  pub audit-kept :
      {A : Type 0}
      → (faults : Faults) (event : AuditEvent) (at : Time) (a : A)
      → Keeps R (insert_audit_event faults event at >>= λ stored. pure a)
  audit-kept faults event at a =
      Keeps-then order _ _ (insert_audit_event-kept faults event at) λ stored. Keeps-pure order a

  insert_token-kept : (faults : Faults) (token : DockerToken) → Keeps R (insert_token faults token)
  unfolding insert_token
  insert_token-kept faults token = Keeps-constrained _ _ _ (
      Keeps-constrained _ _ _
        (always _ (change-kept faults _ λ db. quiet db _ (token_added_Grows token db) refl)))

  insert_session-kept :
      (faults : Faults) (session : WebSession) → KeepsAlways R (insert_session faults session)
  unfolding insert_session
  insert_session-kept faults session = KeepsAlways-constrained order _ _ _ (
      KeepsAlways-constrained order _ _ _
        (change-kept faults _ λ db. quiet db _ (session_added_Grows session db) refl))

  module _ (faults : Faults) (now : Time) where
    pub create_docker_token-kept :
        (token : DockerToken) (audit : AuditEvent)
        → KeepsAlways R (create_docker_token_with_audit faults now token audit)
    unfolding create_docker_token_with_audit
    create_docker_token-kept token audit =
        KeepsAlways-then order _ _ (KeepsAlways-lift order _) λ a.
          KeepsAlways-then order _ _ (KeepsAlways-lift order _) λ a.
            KeepsAlways-then order _ _ (KeepsAlways-refuse order _ _) λ a.
              KeepsAlways-transact order faults _ _ _ (
                Keeps-then order _ _ (attempt-kept _ (select-kept faults _)) λ enabled.
                  Keeps-then order _ _ (Keeps-refuse order _ _) λ a.
                    Keeps-then order _ _ (Keeps-explained _ _ (insert_token-kept faults _))
                      λ a. audit-kept faults audit _ _)

    pub revoke_docker_token-kept :
        (id : Text) (at : Time) → KeepsAlways R (revoke_docker_token faults now id at)
    unfolding revoke_docker_token
    revoke_docker_token-kept id at =
        KeepsAlways-explained order _ _
          (change-kept faults _ λ db. quiet db _ (revoke_tokens_Grows _ _ db) refl)

    pub revoke_own_token-kept :
        (user_id id : Text) (at : Time) (audit : AuditEvent)
        → KeepsAlways R (revoke_docker_token_with_audit faults user_id id at audit)
    unfolding revoke_docker_token_with_audit
    revoke_own_token-kept user_id id at audit =
        KeepsAlways-then order _ _ (KeepsAlways-lift order _) λ a.
          KeepsAlways-then order _ _ (select-kept _ _) λ affected.
            KeepsAlways-transact order _ _ _ _ (
              Keeps-then order _ _
                (always _
                  (change-kept faults _ λ db. quiet db _ (revoke_tokens_Grows _ at db) refl))
                λ a. Keeps-when order affected _ (audit-kept faults audit at tt))

    pub create_web_session-kept :
        (session : WebSession) → KeepsAlways R (create_web_session faults now session)
    unfolding create_web_session
    create_web_session-kept session = KeepsAlways-then order _ _ (KeepsAlways-lift order _) λ a.
        KeepsAlways-then order _ _ (KeepsAlways-explained order _ _ (insert_session-kept faults _))
          λ a. KeepsAlways-pure order _

    pub revoke_web_session-kept :
        (id : Text) (at : Time) → KeepsAlways R (revoke_web_session faults now id at)
    unfolding revoke_web_session
    revoke_web_session-kept id at =
        KeepsAlways-explained order _ _
          (change-kept faults _ λ db. quiet db _ (revoke_sessions_Grows _ _ db) refl)

    pub revoke_web_sessions_for_user-kept :
        (user_id : Text) (at : Time)
        → KeepsAlways R (revoke_web_sessions_for_user faults now user_id at)
    unfolding revoke_web_sessions_for_user
    revoke_web_sessions_for_user-kept user_id at =
        KeepsAlways-explained order _ _
          (change-kept faults _ λ db. quiet db _ (revoke_sessions_Grows _ _ db) refl)

    -- A change of the credentials.
    credentials-kept :
        (label : Message) (f : List RegistryCredential → List RegistryCredential)
        → Keeps R (
            explained label
              (change faults λ db. record db { registry_credentials = f db.registry_credentials }))
    credentials-kept label f =
        Keeps-explained _ _ (always _ (change-kept faults _ λ db. unchanged db _ refl refl refl))

    put_credential-kept :
        (credential : RegistryCredential) (existing : Option RegistryCredential)
        → Keeps R (put_credential faults now credential existing)
    unfolding put_credential insert_credential write_credential
    put_credential-kept credential none =
        Keeps-then order _ _
          (Keeps-explained _ _ (
            Keeps-constrained _ _ _ (
              Keeps-constrained _ _ _
                (always _ (change-kept faults _ λ db. unchanged db _ refl refl refl)))))
          λ a. Keeps-pure order _
    put_credential-kept credential (some existing) =
        Keeps-then order _ _ (Keeps-refuse order _ _)
          λ a. Keeps-then order _ _ (credentials-kept _ _) λ a. Keeps-pure order _

    pub save_registry_credential-kept :
        (credential : RegistryCredential) (audit : AuditEvent)
        → KeepsAlways R (save_registry_credential faults now credential audit)
    unfolding save_registry_credential find_registry_credential
    save_registry_credential-kept credential audit =
        KeepsAlways-then order _ _ (KeepsAlways-lift order _) λ a.
          KeepsAlways-then order _ _ (KeepsAlways-lift order _) λ a.
            KeepsAlways-transact order faults _ _ _ (
              Keeps-then order _ _ (Keeps-explained _ _ (always _ (select-kept faults _)))
                λ existing.
                  Keeps-then order _ _ (put_credential-kept credential existing)
                    λ saved. audit-kept faults audit now saved)

    pub delete_registry_credential-kept :
        (user_id source_id : Text) (audit : AuditEvent)
        → KeepsAlways R (delete_registry_credential faults now user_id source_id audit)
    unfolding delete_registry_credential
    delete_registry_credential-kept user_id source_id audit =
        KeepsAlways-then order _ _ (KeepsAlways-lift order _) λ a.
          KeepsAlways-transact order faults _ _ _
            (Keeps-then order _ _ (credentials-kept _ _) λ a. audit-kept faults audit now tt)
