-- ===== src/Auth/WebSessions.antt =====
-- WebSessionService of internal/auth/accounts.go.
use regstair.Base.{
  ℕ, ◌+◌, ◌&&◌, Bool, not, Option, none, some, [], ◌==◌, nat_eq, ltb, if◌then◌else◌,
}
use regstair.Strings.{Text, text_eq}
use regstair.Errors.{Result, ok, err, bare, invalid_session, invalid_csrf}
use regstair.Effects.{Exec, pure, fail, lift, ◌>>=◌}
use regstair.Registry.Types.{Bytes}
use regstair.Metadata.Types.{Time, User, is_zero}
use regstair.Database.Records.{WebSession}
use regstair.Auth.Repository.{SecurityRepository}
use regstair.Auth.DockerTokens.{Digests, random_id, random_secret}

pub record IssuedWebSession : Type 0 where
  pub secret : Text
  pub csrf_token : Text
  pub session : WebSession

-- !session.RevokedAt.IsZero() || !now.Before(session.IdleExpiresAt) || …
unfoldable pub is_open_session : Time → WebSession → Bool
is_open_session now session =
    is_zero session.revoked_at
    && ltb now session.idle_expires_at
    && ltb now session.absolute_expires_at

-- The session that counts.
unfoldable pub accept_session : Time → Option WebSession → Result WebSession
accept_session now none = err (bare invalid_session)
accept_session now (some session) =
    if is_open_session now session then ok session else err (bare invalid_session)

-- user == nil || !user.Enabled
unfoldable pub accept_user : Option User → Result User
accept_user none = err (bare invalid_session)
accept_user (some user) = if user.enabled then ok user else err (bare invalid_session)

module _ (d : Digests) {W : Type 0} (repo : SecurityRepository W) (now : Time) where
  unfoldable pub create_session :
      ℕ → ℕ → Result Bytes → Result Bytes → Result Bytes → Text → Exec W IssuedWebSession
  create_session idle absolute id_bytes secret_bytes csrf_bytes user_id = do
    id ← lift (random_id d id_bytes)
    secret ← lift (random_secret d secret_bytes)
    csrf ← lift (random_secret d csrf_bytes)
    session ← repo.create_web_session (record {
      id = id;
      user_id = user_id;
      token_hash = d.sha256 secret;
      csrf_token_hash = d.sha256 csrf;
      created_at = 0;
      last_seen_at = 0;
      idle_expires_at = now + idle;
      absolute_expires_at = now + absolute;
      revoked_at = 0;
    })
    pure (record {
      secret = secret;
      csrf_token = csrf;
      session = record session { token_hash = []; csrf_token_hash = [] };
    })

  unfoldable pub authenticate_session : Text → Exec W (User × WebSession)
  authenticate_session secret = do
    found ← repo.find_web_session_by_hash (d.sha256 secret)
    session ← lift (accept_session now found)
    user ← repo.find_user_by_id session.user_id
    user ← lift (accept_user user)
    pure (user, session)

  -- equalBytes compares in constant time.
  unfoldable pub validate_session : Text → Text → Exec W User
  validate_session secret csrf = do
    (user, session) ← authenticate_session secret
    if not (d.sha256 csrf == session.csrf_token_hash) then fail (bare invalid_csrf) else pure user

  unfoldable pub authenticate_web_session : Text → Exec W User
  authenticate_web_session secret = do (user, session) ← authenticate_session secret; pure user

  unfoldable pub revoke_session_of : Text → Exec W (Unit {0})
  revoke_session_of secret = do
    found ← repo.find_web_session_by_hash (d.sha256 secret)
    elim found [ none ↦ pure tt | some session ↦ repo.revoke_web_session session.id now ]
