-- ===== src/Database/Sessions.antt =====
-- The web sessions of internal/metadata/sqlite_security.go.
use regstair.Base.{◌||◌, Bool, not, Option, [], ◌∷◌, ◌++◌, ◌==◌, nat_eq, any, if◌then◌else◌}
use regstair.Strings.{Text, text_eq}
use regstair.Errors.{lit}
use regstair.Effects.{Exec, pure, lift, ◌>>◌}
use regstair.Registry.Types.{Bytes}
use regstair.Metadata.Types.{Time, is_zero}
use regstair.Database.Records.{WebSession, validate_web_session}
use regstair.Database.Tables.{
  Database, constrained, Faults, explained, select, change, first_where, update_where, has_user,
  unique_failed, foreign_failed,
}
use regstair.Database.Accounts.{revoke_session}
use regstair.Database.Tokens.{revocation_time}

-- INSERT INTO web_sessions
unfoldable pub insert_session : Faults → WebSession → Exec Database (Unit {0})
insert_session faults session =
    constrained
      (λ db.
        any (λ (row : WebSession). row.id == session.id || row.token_hash == session.token_hash)
          db.web_sessions)
      unique_failed
      (constrained (λ db. not (has_user session.user_id db)) foreign_failed
        (change faults λ db. record db { web_sessions = db.web_sessions ++ session ∷ [] }))

-- The times that are not given.
abbrev dated_session : Time → WebSession → WebSession
dated_session now session =
    let created_at = if is_zero session.created_at then now else session.created_at in
    record session {
      created_at = created_at;
      last_seen_at = if is_zero session.last_seen_at then created_at else session.last_seen_at;
    }

unfoldable pub create_web_session : Faults → Time → WebSession → Exec Database WebSession
create_web_session faults now session = do
  lift (validate_web_session session)
  explained (lit "insert web session" ∷ []) (insert_session faults (dated_session now session))
  pure (dated_session now session)

unfoldable pub find_web_session_by_hash : Faults → Bytes → Exec Database (Option WebSession)
find_web_session_by_hash faults hash =
    explained (lit "find web session" ∷ []) (
      select faults
        λ db. first_where (λ (row : WebSession). row.token_hash == hash) db.web_sessions)

-- The UPDATE of the sessions that are asked for.
abbrev revoke_sessions : (WebSession → Bool) → Time → Database → Database
revoke_sessions p at db = record db {
  web_sessions = update_where p (revoke_session at) db.web_sessions;
}

unfoldable pub revoke_web_session : Faults → Time → Text → Time → Exec Database (Unit {0})
revoke_web_session faults now id revoked_at =
    explained (lit "revoke web session" ∷ [])
      (change faults (revoke_sessions (λ row. row.id == id) (revocation_time now revoked_at)))

unfoldable pub revoke_web_sessions_for_user : Faults → Time → Text → Time → Exec Database (Unit {0})
revoke_web_sessions_for_user faults now user_id revoked_at =
    explained (lit "revoke web sessions" ∷ []) (
      change faults
        (revoke_sessions (λ row. row.user_id == user_id) (revocation_time now revoked_at)))
