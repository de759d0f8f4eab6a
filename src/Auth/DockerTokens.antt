-- ===== src/Auth/DockerTokens.antt =====
-- DockerTokenService of internal/auth/accounts.go. SHA-256, the base64 encoding and the bytes that
-- the random reader gives are arguments; `now` is what s.now() gives.
use regstair.Base.{
  ℤ, pos, negsuc, ℕ, ◌+◌, ◌&&◌, ◌||◌, Bool, true, Option, some, List, [], ◌∷◌, ◌++◌, ◌==◌, nat_eq,
  ltb, if◌then◌else◌,
}
use regstair.Strings.{Text, text_eq, codes, trim_space}
use regstair.Errors.{Result, ok, err, bare, plain_error, prefixed, lit, invalid_credentials}
use regstair.Effects.{Exec, refuse, pure, lift, ◌>>=◌, ◌>>◌}
use regstair.Registry.Types.{Bytes}
use regstair.Metadata.Types.{Time, User, is_zero}
use regstair.Database.Records.{AuditEvent, DockerToken}
use regstair.Auth.Repository.{SecurityRepository}

-- The libraries that the services of accounts use.
pub record Digests : Type 0 where
  -- sha256.Sum256 of a text
  pub sha256 : Text → Bytes
  -- base64.RawURLEncoding and hex
  pub encode_url : Bytes → Text
  pub encode_hex : Bytes → Text

-- The parts of an audit event that are given.
abbrev pub audit_of : Text → Text → Text → Text → Text → AuditEvent
audit_of actor role action target_type target_id = record {
  id = 0;
  timestamp = 0;
  actor_user_id = actor;
  actor_role = role;
  action = action;
  target_type = target_type;
  target_id = target_id;
  outcome = codes "success";
  correlation_id = [];
  remote_address = [];
  details = [];
}

-- randomID and randomSecret, from what the reader gives
unfoldable pub random_id : Digests → Result Bytes → Result Text
random_id d (ok bytes) = ok (d.encode_hex bytes)
random_id d (err e) = err (prefixed (lit "generate id" ∷ []) e)

unfoldable pub random_secret : Digests → Result Bytes → Result Text
random_secret d (ok bytes) = ok (d.encode_url bytes)
random_secret d (err e) = err (prefixed (lit "generate secret" ∷ []) e)

pub record IssuedDockerToken : Type 0 where
  pub token : DockerToken
  pub secret : Text

-- 90 * 24 * time.Hour
abbrev longest_lifetime : ℕ
longest_lifetime = 7_776_000_000_000_000

-- lifetime <= 0 || lifetime > 90*24*time.Hour, for a lifetime of nanoseconds
abbrev is_bad_lifetime : ℤ → Bool
is_bad_lifetime (pos n) = n == 0 || ltb longest_lifetime n
is_bad_lifetime (negsuc n) = true

abbrev nanoseconds : ℤ → ℕ
nanoseconds (pos n) = n
nanoseconds (negsuc n) = 0

-- A token that is of the user, not revoked and not expired.
unfoldable pub is_live : Time → Text → DockerToken → Bool
is_live now user_id token =
    token.user_id == user_id && is_zero token.revoked_at && ltb now token.expires_at

-- user == nil || !user.Enabled || token == nil || … : the user and the token, or an error
unfoldable pub accept_token : Time → Option User → Option DockerToken → Result (User × DockerToken)
accept_token now (some user) (some token) =
    if user.enabled && is_live now user.id token
    then ok (user, token)
    else err (bare invalid_credentials)
accept_token now _ _ = err (bare invalid_credentials)

module _ (d : Digests) {W : Type 0} (repo : SecurityRepository W) (now : Time) where
  unfoldable pub issue_docker_token :
      Result Bytes → Result Bytes → Text → Text → ℤ → Exec W IssuedDockerToken
  issue_docker_token id_bytes secret_bytes user_id label lifetime = do
    refuse (is_bad_lifetime lifetime)
        (plain_error (lit "token lifetime must be between one second and 90 days" ∷ []))
    id ← lift (random_id d id_bytes)
    bytes ← lift (elim secret_bytes [
      | ok bytes ↦ ok bytes
      | err e ↦ err (prefixed (lit "generate docker token" ∷ []) e)
    ])
    let secret = codes "rst_" ++ d.encode_url bytes
    token ←
        repo.create_docker_token_with_audit
          (record {
            id = id;
            user_id = user_id;
            label = trim_space label;
            token_hash = d.sha256 secret;
            created_at = 0;
            expires_at = now + nanoseconds lifetime;
            revoked_at = 0;
            last_used = 0;
          })
          (audit_of user_id (codes "user") (codes "docker_token.created") (codes "docker_token") id)
    pure (record { token = record token { token_hash = [] }; secret = secret })

  unfoldable pub authenticate_with_token : Text → Text → Exec W (User × DockerToken)
  authenticate_with_token username secret = do
    user ← repo.find_user_by_username username
    token ← repo.find_docker_token_by_hash (d.sha256 secret)
    lift (accept_token now user token)

  unfoldable pub authenticate_docker : Text → Text → Exec W User
  authenticate_docker username secret = do
    (user, token) ← authenticate_with_token username secret
    pure user

  unfoldable pub validate_hash : Text → Bytes → Exec W User
  validate_hash user_id hash = do
    token ← repo.find_docker_token_by_hash hash
    user ← repo.find_user_by_id user_id
    (user, token) ← lift (accept_token now user token)
    pure user

  unfoldable pub revoke_token_of : Text → Exec W (Unit {0})
  revoke_token_of id = repo.revoke_docker_token id now

  unfoldable pub list_tokens : Text → Exec W (List DockerToken)
  list_tokens user_id = repo.list_docker_tokens_for_user user_id

  unfoldable pub revoke_for_user : Text → Text → Exec W (Unit {0})
  revoke_for_user user_id id =
      repo.revoke_docker_token_with_audit user_id id now
        (audit_of user_id (codes "user") (codes "docker_token.revoked") (codes "docker_token") id)
