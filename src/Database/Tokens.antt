-- ===== src/Database/Tokens.antt =====
-- The docker tokens of internal/metadata/sqlite_security.go.
use regstair.Base.{
  ◌&&◌, ◌||◌, Bool, true, false, not, Option, none, some, List, [], ◌∷◌, ◌++◌, ◌==◌, nat_eq, any,
  filter, map, ltb, if◌then◌else◌,
}
use regstair.Strings.{Text, text_eq}
use regstair.Errors.{ok, err, wrap, lit, invalid_record, conflict}
use regstair.Effects.{Exec, refuse, when, pure, lift, attempt, ◌>>=◌, ◌>>◌}
use regstair.Sorting.{sort}
use regstair.Registry.Types.{Bytes}
use regstair.Metadata.Types.{Time, User, is_zero}
use regstair.Database.Records.{DockerToken, AuditEvent, validate_docker_token, validate_audit_event}
use regstair.Database.Tables.{
  Database, constrained, Faults, explained, transact, select, change, first_where, update_where,
  has_user, unique_failed, foreign_failed,
}
use regstair.Database.Audit.{insert_audit_event}
use regstair.Database.Accounts.{revoke_token}

-- INSERT INTO docker_tokens: the id and the hash are unique, the user is there.
unfoldable pub insert_token : Faults → DockerToken → Exec Database (Unit {0})
insert_token faults token =
    constrained
      (λ db.
        any (λ (row : DockerToken). row.id == token.id || row.token_hash == token.token_hash)
          db.docker_tokens)
      unique_failed
      (constrained (λ db. not (has_user token.user_id db)) foreign_failed
        (change faults λ db. record db { docker_tokens = db.docker_tokens ++ token ∷ [] }))

-- if token.CreatedAt.IsZero() { token.CreatedAt = r.now() }
abbrev dated_token : Time → DockerToken → DockerToken
dated_token now token =
    if is_zero token.created_at then record token { created_at = now } else token

unfoldable pub create_docker_token : Faults → Time → DockerToken → Exec Database DockerToken
create_docker_token faults now token = do
  lift (validate_docker_token token)
  explained (lit "insert docker token" ∷ []) (insert_token faults (dated_token now token))
  pure (dated_token now token)

-- SELECT enabled FROM users WHERE id = ?
abbrev enabled_of : Text → Database → Bool
enabled_of user_id db = elim (first_where (λ (row : User). row.id == user_id) db.users) [
  | none ↦ false
  | some user ↦ user.enabled
]

unfoldable pub create_docker_token_with_audit :
    Faults → Time → DockerToken → AuditEvent → Exec Database DockerToken
create_docker_token_with_audit faults now token audit = do
  lift (validate_docker_token token)
  lift (validate_audit_event audit)
  refuse (not (audit.actor_user_id == token.user_id))
      (wrap invalid_record (lit "token actor must own token" ∷ []))
  transact faults (lit "begin docker token creation" ∷ []) (lit "commit docker token creation" ∷ [])
      (do
        enabled ← attempt (select faults (enabled_of token.user_id))
        refuse (elim enabled [ err e ↦ true | ok enabled ↦ not enabled ])
            (wrap conflict (lit "token user is not enabled" ∷ []))
        explained (lit "insert docker token" ∷ [])
            (insert_token faults (record (dated_token now token) { revoked_at = 0; last_used = 0 }))
        _ ← insert_audit_event faults audit (dated_token now token).created_at
        pure (dated_token now token))

unfoldable pub find_docker_token_by_hash : Faults → Bytes → Exec Database (Option DockerToken)
find_docker_token_by_hash faults hash = explained (lit "find docker token" ∷ []) (
    select faults
      λ db. first_where (λ (row : DockerToken). row.token_hash == hash) db.docker_tokens)

-- ORDER BY created_at_nanos DESC
abbrev newer_token : DockerToken → DockerToken → Bool
newer_token a b = ltb b.created_at a.created_at

-- The hash is not selected.
unfoldable pub list_docker_tokens_for_user : Faults → Text → Exec Database (List DockerToken)
list_docker_tokens_for_user faults user_id = explained (lit "list docker tokens" ∷ []) (
    select faults λ db.
      map (λ (row : DockerToken). record row { token_hash = [] })
        (sort newer_token
          (filter (λ (row : DockerToken). row.user_id == user_id) db.docker_tokens)))

-- if revokedAt.IsZero() { revokedAt = r.now() }
abbrev pub revocation_time : Time → Time → Time
revocation_time now revoked_at = if is_zero revoked_at then now else revoked_at

unfoldable pub revoke_docker_token : Faults → Time → Text → Time → Exec Database (Unit {0})
revoke_docker_token faults now id revoked_at = explained (lit "revoke docker token" ∷ []) (
    change faults λ db. record db {
      docker_tokens =
          update_where (λ (row : DockerToken). row.id == id)
            (revoke_token (revocation_time now revoked_at)) db.docker_tokens;
    })

-- The transaction is rolled back where it has changed nothing, which is no error.
abbrev without_commit : Faults → Faults
without_commit faults = record faults { commit_error = none }

-- A token of another user is not touched, and leaves no audit event.
unfoldable pub revoke_docker_token_with_audit :
    Faults → Text → Text → Time → AuditEvent → Exec Database (Unit {0})
revoke_docker_token_with_audit faults user_id id revoked_at audit = do
  lift (validate_audit_event audit)
  affected ←
      select (record faults { read_error = none })
        λ db. any (λ (row : DockerToken). row.id == id && row.user_id == user_id) db.docker_tokens
  transact (if affected then faults else without_commit faults) [] [] (do
    change faults λ db. record db {
      docker_tokens =
          update_where (λ (row : DockerToken). row.id == id && row.user_id == user_id)
            (revoke_token revoked_at) db.docker_tokens;
    }
    when affected (do _ ← insert_audit_event faults audit revoked_at; pure tt))
