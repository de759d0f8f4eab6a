-- ===== src/Auth/Revocation.antt =====
-- Sessions and tokens of internal/auth/accounts.go behind a change of the password.
use regstair.Base.{
  ◌≡◌, ◌≢◌, refl, sym, ap, ◌∙◌, false, Option, none, some, arith, inl, inr, Option-cases,
}
use regstair.Strings.{Text, text_eq}
use regstair.Errors.{Result, ok}
use regstair.Effects.{lift, ◌>>=◌}
use regstair.Effects.Rules.{>>=_ok}
use regstair.Metadata.Types.{Time, User, is_zero}
use regstair.Database.Records.{AuditEvent, DockerToken, WebSession}
use regstair.Database.Tables.{Database, Faults, explained, select, checked}
use regstair.Database.Accounts.{find_user_by_username, change_user_password}
use regstair.Database.Sessions.{find_web_session_by_hash}
use regstair.Database.Tokens.{find_docker_token_by_hash}
use regstair.Database.Operations.{change_user_password-Grows}
use regstair.Database.Invalidation.{
  session_of, token_of, change_user_password-AllRevoked, search_value,
}
use regstair.Database.History.{History, History-Grows}
use regstair.Auth.Repository.{sqlite_repository}
use regstair.Auth.DockerTokens.{Digests, accept_token, is_live, authenticate_with_token}
use regstair.Auth.WebSessions.{is_open_session, accept_session, authenticate_session}

lift_value : {A W : Type 0} → (r : Result A) (w : W) (a : A) → (lift r w).0 ≡ ok a → r ≡ ok a
unfolding lift
lift_value r w a h = h

revoked_session_refused :
    (now : Time) (session other : WebSession)
    → is_zero session.revoked_at ≡ false
    → accept_session now (some session) ≢ ok other
unfolding accept_session is_open_session
revoked_session_refused now session other revoked h = ground (arith, revoked, h)

revoked_token_refused :
    (now : Time) (user : Option User) (token : DockerToken) (accepted : User × DockerToken)
    → is_zero token.revoked_at ≡ false
    → accept_token now user (some token) ≢ ok accepted
unfolding accept_token is_live
revoked_token_refused now none token accepted revoked h = absurd (cc)
revoked_token_refused now (some user) token accepted revoked h = ground (arith, revoked, h)

-- A search leaves the tables alone.
find_user_state :
    (faults : Faults) (username : Text) (db : Database)
    → (find_user_by_username faults none username db).1 ≡ db
unfolding find_user_by_username explained select checked lift ◌>>=◌
find_user_state faults username db = elim (Option-cases faults.read_error) [
  | inl e ↦ rw (checked, e) refl
  | inr (failed, e) ↦ rw (checked, e) refl
]

module _ (d : Digests) (faults : Faults) (clock now : Time) (secret : Text) (db : Database) where
  session_refused :
      (session : WebSession) (answer : User × WebSession)
      → session_of db (d.sha256 secret) ≡ some session
      → is_zero session.revoked_at ≡ false
      → (authenticate_session d (sqlite_repository faults clock) now secret db).0 ≢ ok answer
  unfolding authenticate_session find_web_session_by_hash
  session_refused session answer there revoked h =
      let (found, e, rest) = >>=_ok _ _ db answer h in
      let is_there : found ≡ some session = search_value faults _ _ db found e ∙ there in
      let (accepted, k, _) = >>=_ok _ _ _ answer rest in
      revoked_session_refused now session accepted revoked
        (ap (accept_session now) (sym is_there) ∙ lift_value _ _ accepted k)

  token_refused :
      (username : Text) (token : DockerToken) (answer : User × DockerToken)
      → token_of db (d.sha256 secret) ≡ some token
      → is_zero token.revoked_at ≡ false
      → (authenticate_with_token d (sqlite_repository faults clock) now username secret db).0
        ≢ ok answer
  unfolding authenticate_with_token find_docker_token_by_hash
  token_refused username token answer there revoked h =
      let (user, e, rest) = >>=_ok _ _ db answer h in
      let (found, k, last) = >>=_ok _ _ _ answer rest in
      let is_there : found ≡ some token =
        search_value faults _ _ _ found k
        ∙ ap (λ tables. token_of tables (d.sha256 secret)) (find_user_state faults username db)
        ∙ there in
      revoked_token_refused now user token answer revoked
        (ap (accept_token now user) (sym is_there) ∙ lift_value _ _ answer last)

-- The database behind the change of a password, and one that any operations have made of it.
module _ (faults : Faults) (now : Time) (user_id : Text) (expected : Time) (hash : Text)
    (audit : AuditEvent) (db later : Database) where
  abbrev pub changed : Database
  changed = (change_user_password faults now user_id expected hash audit db).1

  -- Behind a change of a user's password that succeeds, and behind whatever operations that the
  -- program calls follow it, no session that the user had before is accepted, at no time.
  pub change_user_password-ends_sessions :
      (d : Digests) (faults' : Faults) (clock now' : Time) (user : User) (secret : Text)
      (session : WebSession) (answer : User × WebSession)
      → (change_user_password faults now user_id expected hash audit db).0 ≡ ok (some user)
      → History changed later
      → session_of db (d.sha256 secret) ≡ some session
      → session.user_id ≡ user_id
      → (authenticate_session d (sqlite_repository faults' clock) now' secret later).0 ≢ ok answer
  change_user_password-ends_sessions d faults' clock now' user secret session answer done history
        there own =
      let ended =
        change_user_password-AllRevoked faults now user_id expected hash audit db user done in
      let before = (change_user_password-Grows faults now user_id expected hash audit).at db in
      let after = History-Grows changed later history in
      let (s, h, same, _) = before.sessions.found (d.sha256 secret) session there in
      let (s', h', _, still) = after.sessions.found (d.sha256 secret) s h in
      session_refused d faults' clock now' secret later s' answer h'
        (ground (arith, still, ended.sessions (d.sha256 secret) s h (same ∙ own)))

  -- Behind a change of a user's password that succeeds, and behind whatever operations that the
  -- program calls follow it, no docker token that the user had before is accepted, at no time and
  -- with no username.
  pub change_user_password-ends_tokens :
      (d : Digests) (faults' : Faults) (clock now' : Time) (user : User) (secret username : Text)
      (token : DockerToken) (answer : User × DockerToken)
      → (change_user_password faults now user_id expected hash audit db).0 ≡ ok (some user)
      → History changed later
      → token_of db (d.sha256 secret) ≡ some token
      → token.user_id ≡ user_id
      → (authenticate_with_token d (sqlite_repository faults' clock) now' username secret later).0
        ≢ ok answer
  change_user_password-ends_tokens d faults' clock now' user secret username token answer done
        history there own =
      let ended =
        change_user_password-AllRevoked faults now user_id expected hash audit db user done in
      let before = (change_user_password-Grows faults now user_id expected hash audit).at db in
      let after = History-Grows changed later history in
      let (t, h, same, _) = before.tokens.found (d.sha256 secret) token there in
      let (t', h', _, still) = after.tokens.found (d.sha256 secret) t h in
      token_refused d faults' clock now' secret later username t' answer h'
        (ground (arith, still, ended.tokens (d.sha256 secret) t h (same ∙ own)))
