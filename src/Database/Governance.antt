-- ===== src/Database/Governance.antt =====
-- The enabled administrators over sequences of the operations of
-- internal/metadata/sqlite_security.go.
use regstair.Base.{◌≡◌, ◌≤◌, length, ◌++◌, nat_eq, subst, sym, ap, ◌∙◌, true, List, [], ◌∷◌, arith}
use regstair.Strings.{text_eq}
use regstair.Errors.{ok, Message}
use regstair.Effects.Keeps.{Leaves, Stays}
use regstair.Metadata.Types.{Time, User}
use regstair.Database.Records.{AuditEvent}
use regstair.Database.Tables.{Database, Faults, explained}
use regstair.Database.Statements as S
use regstair.Database.Rotation as R
use regstair.Database.History.{
  Step, History, bootstrapped, user_created, user_updated, password_changed, token_created,
  token_revoked, own_token_revoked, session_created, session_revoked, sessions_revoked,
  credential_saved, credential_deleted, credentials_rotated, event_recorded, nothing, followed_by,
}
use regstair.Database.Administrators as M
use regstair.Database.Administrators.{IsGoverned, Governed, order, quiet_Governed}
use regstair.Database.Demotion as D
use regstair.Database.Reading.{
  bind_at, select-IsSearch, explained-IsSearch, explained_ok, refuse_ok, refuse_state,
}
use regstair.Database.Statements.{audit-kept}
use regstair.Database.Rules.{Leaves-transact, constrained_ok}
use regstair.Database.Tables.{insert_user}
use regstair.Database.Tables.{count_where, is_enabled_admin}
use regstair.Database.Accounts.{bootstrap_body}
use regstair.Database.Accounts.{bootstrap_admin}

step_Governed : (u v : Database) → Step u v → Stays Governed u v
step_Governed _ _ (bootstrapped faults now user audit db) =
    (M.bootstrap_admin-Governed faults now user audit).at db
step_Governed _ _ (user_created faults now user audit db) =
    (M.create_user_with_audit-Governed faults now user audit).at db
step_Governed _ _ (user_updated faults now user expected invalidate audit db) =
    (D.update_user_security-Governed faults now audit user expected invalidate).at db
step_Governed _ _ (password_changed faults now id expected hash audit db) =
    (D.change_user_password-Governed faults now audit id expected hash).at db
step_Governed _ _ (token_created faults now token audit db) =
    (S.create_docker_token-kept order quiet_Governed faults now token audit).at db
step_Governed _ _ (token_revoked faults now id at db) =
    (S.revoke_docker_token-kept order quiet_Governed faults now id at).at db
step_Governed _ _ (own_token_revoked faults user_id id at audit db) =
    (S.revoke_own_token-kept order quiet_Governed faults 0 user_id id at audit).at db
step_Governed _ _ (session_created faults now session db) =
    (S.create_web_session-kept order quiet_Governed faults now session).at db
step_Governed _ _ (session_revoked faults now id at db) =
    (S.revoke_web_session-kept order quiet_Governed faults now id at).at db
step_Governed _ _ (sessions_revoked faults now user_id at db) =
    (S.revoke_web_sessions_for_user-kept order quiet_Governed faults now user_id at).at db
step_Governed _ _ (credential_saved faults now credential audit db) =
    (S.save_registry_credential-kept order quiet_Governed faults now credential audit).at db
step_Governed _ _ (credential_deleted faults now user_id source_id audit db) =
    (S.delete_registry_credential-kept order quiet_Governed faults now user_id source_id audit).at
      db
step_Governed _ _ (credentials_rotated faults now replacements audit db) =
    (R.rotate_registry_credential_secrets-kept order quiet_Governed faults now replacements
        audit).at
      db
step_Governed _ _ (event_recorded faults now event db) =
    (R.record_audit_event-kept order quiet_Governed faults now event).at db

pub history_Governed : (u v : Database) → History u v → Stays Governed u v
history_Governed _ _ (nothing db) = order.reflexive db
history_Governed _ _ (followed_by u v w before step) =
    order.transitive u v w (history_Governed u v before) (step_Governed v w step)

-- The first user of a table.
first_IsGoverned :
    (user : User) (users : List User)
    → is_enabled_admin user ≡ true
    → length users ≡ 0
    → IsGoverned (users ++ user ∷ [])
unfolding count_where
first_IsGoverned user [] h none_there = record {
  unique = λ id. ground (arith);
  governed = ground (arith, h);
}
first_IsGoverned user (u ∷ users) h none_there = absurd (ground (arith, none_there))

insert_first :
    (faults : Faults) (label : Message) (user : User) (db : Database) (a : Unit {0})
    → is_enabled_admin user ≡ true
    → length db.users ≡ 0
    → (explained label (insert_user faults user) db).0 ≡ ok a
    → Governed (explained label (insert_user faults user) db).1
unfolding insert_user
insert_first faults label user db a admin none_there h =
    let (inserted, state) = explained_ok label _ db a h in
    let (new, added) = constrained_ok _ _ faults _ db a inserted in
    subst Governed (sym (state ∙ added)) (first_IsGoverned user db.users admin none_there)

-- What a bootstrap that returns leaves: it added the first user.
bootstrap_body-Leaves :
    (faults : Faults) (now : Time) (user : User) (audit : AuditEvent)
    → is_enabled_admin user ≡ true
    → Leaves (λ made db. Governed db) (bootstrap_body faults now user audit)
unfolding bootstrap_body
bootstrap_body-Leaves faults now user audit admin = record {
  at = λ db made h. bind_at Governed _ _ db made h λ count counted h1.
      let (value, same) =
        explained-IsSearch _ _ _ (select-IsSearch faults (λ db. length db.users)) db count
          counted in
      bind_at Governed _ _ _ made h1 λ t fresh h2.
        let zero : count ≡ 0 = ground (arith, refuse_ok _ _ _ t fresh) in
        let none_there = ap (λ d. length d.users) (refuse_state _ _ _ ∙ same) ∙ sym value ∙ zero in
        bind_at Governed _ _ _ made h2 λ b inserted h3.
          (audit-kept order quiet_Governed faults audit now _).at _ made h3
            (insert_first faults _ _ _ b admin none_there inserted);
}

bootstrap_admin-leaves :
    (faults : Faults) (now : Time) (user : User) (audit : AuditEvent) (u : Database) (made : User)
    → (bootstrap_admin faults now user audit u).0 ≡ ok made
    → Governed (bootstrap_admin faults now user audit u).1
unfolding bootstrap_admin
bootstrap_admin-leaves faults now user audit u made h = bind_at Governed _ _ u made h λ t valid h1.
    bind_at Governed _ _ _ made h1 λ s allowed h2.
      let role = refuse_ok _ _ _ s allowed in
      bind_at Governed _ _ _ made h2 λ r valid_audit h3.
        (Leaves-transact (λ made db. Governed db) faults _ _ _
            (bootstrap_body-Leaves faults now user audit (ground (arith, role)))).at
          _ made h3

-- Where a bootstrap returned, there is an enabled administrator whatever operations on the
-- users, tokens, sessions and credentials that the program calls follow it, with whatever
-- arguments and outcomes, also where they fail.
pub bootstrap_governs :
    (faults : Faults) (now : Time) (user made : User) (audit : AuditEvent) (u v : Database)
    → (bootstrap_admin faults now user audit u).0 ≡ ok made
    → History (bootstrap_admin faults now user audit u).1 v
    → 1 ≤ count_where is_enabled_admin v.users
bootstrap_governs faults now user made audit u v h steps =
    let start : Governed (bootstrap_admin faults now user audit u).1 =
      bootstrap_admin-leaves faults now user audit u made h in
    let kept : IsGoverned v.users = history_Governed _ v steps start in kept.governed
