-- ===== src/Database/Accounts.antt =====
-- The users: BootstrapAdmin, FindUserByID, FindUserByUsername and ListUsers of
-- internal/metadata/sqlite_repository.go, CreateUserWithAudit, UpdateUserSecurity and
-- ChangeUserPassword of internal/metadata/sqlite_security.go. `now` is what r.now() gives.
use regstair.Base.{
  ◌&&◌, ◌||◌, Bool, not, Option, none, some, List, [], ◌∷◌, ◌==◌, nat_eq, leb, length,
  if◌then◌else◌,
}
use regstair.Strings.{Text, text_eq, codes}
use regstair.Errors.{Error, wrap, lit, invalid_record, conflict}
use regstair.Effects.{Exec, refuse, when, if_found, pure, lift, ◌>>=◌, ◌>>◌}
use regstair.Sorting.{sort}
use regstair.Metadata.Types.{Time, User, access_admin, is_zero}
use regstair.Metadata.Memory.{Context, check_context, next_updated_at}
use regstair.Metadata.Users.{validate_user, modified, by_username}
use regstair.Database.Records.{AuditEvent, DockerToken, WebSession, validate_audit_event}
use regstair.Database.Tables.{
  Database, Faults, explained, transact, select, change, first_where, update_where, count_where,
  is_enabled_admin, insert_user, write_user,
}
use regstair.Database.Audit.{insert_audit_event}

abbrev pub has_id : Text → User → Bool
has_id id row = row.id == id

-- WHERE id = ? AND updated_at_nanos = ?
abbrev pub is_version : Text → Time → User → Bool
is_version id updated_at row = row.id == id && row.updated_at == updated_at

-- A user made now.
abbrev pub created : Time → User → User
created now user = record user { created_at = now; updated_at = now }

unfoldable pub find_user_by_id : Faults → Context → Text → Exec Database (Option User)
find_user_by_id faults ctx id = do
  lift (check_context ctx)
  explained (lit "find user by id" ∷ []) (select faults λ db. first_where (has_id id) db.users)

unfoldable pub find_user_by_username : Faults → Context → Text → Exec Database (Option User)
find_user_by_username faults ctx username = do
  lift (check_context ctx)
  explained (lit "find user by username" ∷ [])
      (select faults λ db. first_where (λ (row : User). row.username == username) db.users)

unfoldable pub list_users : Faults → Exec Database (List User)
list_users faults =
    explained (lit "list users" ∷ []) (select faults λ db. sort by_username db.users)

unfoldable pub require_enabled_admin : Faults → Text → Exec Database (Unit {0})
require_enabled_admin faults user_id = do
  count ←
      explained (lit "authorize administrator transaction" ∷ []) (
        select faults
          λ db. count_where (λ row. has_id user_id row && is_enabled_admin row) db.users)
  refuse (not (count == 1)) (wrap conflict (lit "acting administrator is not enabled" ∷ []))

unfoldable pub create_user_with_audit : Faults → Time → User → AuditEvent → Exec Database User
create_user_with_audit faults now user audit = do
  lift (validate_user user)
  lift (validate_audit_event audit)
  transact faults (lit "begin user creation" ∷ []) (lit "commit user creation" ∷ []) (do
    require_enabled_admin faults audit.actor_user_id
    explained (lit "insert user" ∷ []) (insert_user faults (created now user))
    _ ← insert_audit_event faults audit now
    pure (created now user))

-- The body of the transaction of BootstrapAdmin.
unfoldable pub bootstrap_body : Faults → Time → User → AuditEvent → Exec Database User
bootstrap_body faults now user audit = do
  count ←
      explained (lit "count users for administrator bootstrap" ∷ [])
        (select faults λ db. length db.users)
  refuse (not (count == 0))
      (wrap conflict (lit "administrator bootstrap has already completed" ∷ []))
  explained (lit "insert bootstrap administrator" ∷ []) (insert_user faults (created now user))
  _ ← insert_audit_event faults audit now
  pure (created now user)

unfoldable pub bootstrap_admin : Faults → Time → User → AuditEvent → Exec Database User
bootstrap_admin faults now user audit = do
  lift (validate_user user)
  refuse (not (user.access == access_admin) || not user.enabled)
      (wrap invalid_record (lit "bootstrap user must be an enabled administrator" ∷ []))
  lift (validate_audit_event audit)
  transact faults (lit "begin administrator bootstrap" ∷ [])
      (lit "commit administrator bootstrap" ∷ []) (bootstrap_body faults now user audit)

-- revoked_at_nanos = CASE WHEN revoked_at_nanos = 0 THEN ? ELSE revoked_at_nanos END
abbrev pub revoke_session : Time → WebSession → WebSession
revoke_session at row = if is_zero row.revoked_at then record row { revoked_at = at } else row

abbrev pub revoke_token : Time → DockerToken → DockerToken
revoke_token at row = if is_zero row.revoked_at then record row { revoked_at = at } else row

-- The UPDATEs of web_sessions and docker_tokens WHERE user_id = ?
unfoldable pub revoke_all : Text → Time → Database → Database
revoke_all user_id at db = record db {
  web_sessions =
      update_where (λ (row : WebSession). row.user_id == user_id) (revoke_session at)
        db.web_sessions;
  docker_tokens =
      update_where (λ (row : DockerToken). row.user_id == user_id) (revoke_token at)
        db.docker_tokens;
}

-- Whether an update takes the rights of an enabled administrator.
abbrev pub demotes : User → User → Bool
demotes current user = is_enabled_admin current && not (is_enabled_admin user)

-- The check of the last administrator.
unfoldable pub keep_administrator : Faults → User → User → Exec Database (Unit {0})
keep_administrator faults current user = when (demotes current user) (do
  admins ← select faults λ db. count_where is_enabled_admin db.users
  refuse (leb admins 1)
      (wrap conflict (lit "cannot disable or demote the last enabled administrator" ∷ [])))

-- The UPDATE of one version of a user, which has to change one row.
unfoldable pub update_version : Faults → User → Time → Exec Database (Unit {0})
update_version faults user expected_updated_at = do
  changed ←
      select (record faults { read_error = none })
        λ db. count_where (is_version user.id expected_updated_at) db.users
  explained (lit "update user security" ∷ [])
      (write_user faults (is_version user.id expected_updated_at) user)
  refuse (not (changed == 1)) (modified user)

-- The body of UpdateUserSecurity for the user that is there.
unfoldable pub update_current :
    Faults → Time → User → Time → Bool → AuditEvent → User → Exec Database (Option User)
update_current faults now user expected_updated_at invalidate_identity audit current = do
  refuse (not (current.updated_at == expected_updated_at)) (modified user)
  keep_administrator faults current user
  let at = next_updated_at now current.updated_at
  update_version faults (record user { updated_at = at }) expected_updated_at
  when invalidate_identity (change faults (revoke_all user.id at))
  _ ← insert_audit_event faults audit at
  pure (some (record user { created_at = current.created_at; updated_at = at }))

unfoldable pub update_user_security :
    Faults → Time → User → Time → Bool → AuditEvent → Exec Database (Option User)
update_user_security faults now user expected_updated_at invalidate_identity audit = do
  lift (validate_user user)
  lift (validate_audit_event audit)
  transact faults (lit "begin user security update" ∷ []) (lit "commit user security update" ∷ [])
      (do
        require_enabled_admin faults audit.actor_user_id
        current ←
            explained (lit "find user for security update" ∷ [])
              (select faults λ db. first_where (has_id user.id) db.users)
        if_found current
            (update_current faults now user expected_updated_at invalidate_identity audit))

abbrev pub is_system_recovery : AuditEvent → Bool
is_system_recovery audit =
    audit.actor_user_id == []
    && audit.actor_role == codes "system"
    && audit.action == codes "user.password_recovered"

abbrev invalid_password_change : Error
invalid_password_change = wrap invalid_record (lit "invalid password change" ∷ [])

-- The body of ChangeUserPassword for the user that is there.
unfoldable pub change_found :
    Faults → Time → Time → Text → AuditEvent → User → Exec Database (Option User)
change_found faults now expected_updated_at password_hash audit user = do
  refuse (not (user.updated_at == expected_updated_at)) (modified user)
  let at = next_updated_at now user.updated_at
  let changed : User = record user { password_hash = password_hash; updated_at = at }
  write_user faults (is_version user.id expected_updated_at) changed
  change faults (revoke_all user.id at)
  _ ← insert_audit_event faults audit at
  pure (some changed)

unfoldable pub change_user_password :
    Faults → Time → Text → Time → Text → AuditEvent → Exec Database (Option User)
change_user_password faults now user_id expected_updated_at password_hash audit = do
  let system_recovery = is_system_recovery audit
  refuse
      (password_hash == []
        || not system_recovery
          && (not (audit.actor_user_id == user_id) || not (audit.actor_role == codes "user")))
      invalid_password_change
  lift (validate_audit_event audit)
  transact faults (lit "begin password change" ∷ []) (lit "commit password change" ∷ []) (do
    found ← select faults λ db.
        first_where (λ (row : User). row.id == user_id && (system_recovery || row.enabled)) db.users
    if_found found (change_found faults now expected_updated_at password_hash audit))
