-- ===== src/Database/Records.antt =====
-- The records of internal/metadata/security.go with their checks, and ValidateAuditDetails of
-- internal/security/safe.go.
use regstair.Base.{ℕ, ◌&&◌, ◌||◌, Bool, not, List, [], ◌∷◌, ◌==◌, nat_eq, any, ltb, leb, length}
use regstair.Strings.{Text, text_eq, codes}
use regstair.Errors.{
  Result, ok, err, ◌>>◌, refuse_if, wrap, lit, quoted, invalid_record, unsafe_detail,
}
use regstair.Maps.{Map}
use regstair.Registry.Types.{Bytes}
use regstair.Metadata.Types.{Time, is_zero}
use regstair.Auth.Selector.{RegistryCredential}

pub record DockerToken : Type 0 where
  pub id : Text
  pub user_id : Text
  pub label : Text
  pub token_hash : Bytes
  pub created_at : Time
  pub expires_at : Time
  pub revoked_at : Time
  pub last_used : Time

pub record WebSession : Type 0 where
  pub id : Text
  pub user_id : Text
  pub token_hash : Bytes
  pub csrf_token_hash : Bytes
  pub created_at : Time
  pub last_seen_at : Time
  pub idle_expires_at : Time
  pub absolute_expires_at : Time
  pub revoked_at : Time

pub record AuditEvent : Type 0 where
  pub id : ℕ
  pub timestamp : Time
  pub actor_user_id : Text
  pub actor_role : Text
  pub action : Text
  pub target_type : Text
  pub target_id : Text
  pub outcome : Text
  pub correlation_id : Text
  pub remote_address : Text
  pub details : Map Text Text

-- unicode.IsControl, whose runes are in Latin-1
abbrev is_control : ℕ → Bool
is_control c = ltb c 0x20 || leb 0x7F c && ltb c 0xA0

abbrev pub allowed_detail_keys : List Text
allowed_detail_keys =
    codes "source_id"
    ∷ codes "route"
    ∷ codes "operation"
    ∷ codes "error_classification"
    ∷ codes "reason"
    ∷ codes "previous_access"
    ∷ codes "new_access"
    ∷ codes "enabled"
    ∷ codes "username"
    ∷ codes "previous_key_id"
    ∷ codes "new_key_id"
    ∷ codes "credential_count"
    ∷ []

-- The check of one detail; a text is valid UTF-8.
unfoldable pub validate_detail : Text → Text → Result (Unit {0})
validate_detail key value =
    refuse_if (not (any (λ k. k == key) allowed_detail_keys))
      (wrap unsafe_detail (lit "detail key " ∷ quoted key ∷ lit " is not allowed" ∷ []))
    >> refuse_if (ltb 512 (length value) || any is_control value)
        (wrap unsafe_detail (lit "detail value for " ∷ quoted key ∷ lit " is invalid" ∷ []))

unfoldable pub validate_audit_details : Map Text Text → Result (Unit {0})
validate_audit_details [] = ok tt
validate_audit_details ((key, value) ∷ details) =
    validate_detail key value >> validate_audit_details details

unfoldable pub validate_docker_token : DockerToken → Result (Unit {0})
validate_docker_token token =
    refuse_if
      (token.id == []
        || token.user_id == []
        || not (length token.token_hash == 32)
        || is_zero token.expires_at)
      (wrap invalid_record (lit "invalid docker token" ∷ []))

unfoldable pub validate_web_session : WebSession → Result (Unit {0})
validate_web_session session =
    refuse_if
      (session.id == []
        || session.user_id == []
        || not (length session.token_hash == 32)
        || not (length session.csrf_token_hash == 32)
        || is_zero session.idle_expires_at
        || is_zero session.absolute_expires_at)
      (wrap invalid_record (lit "invalid web session" ∷ []))

unfoldable pub validate_registry_credential : RegistryCredential → Result (Unit {0})
validate_registry_credential credential =
    refuse_if
      (credential.id == []
        || credential.user_id == []
        || credential.source_id == []
        || credential.username == []
        || credential.encrypted_secret == [])
      (wrap invalid_record (lit "invalid registry credential" ∷ []))

unfoldable pub validate_audit_event : AuditEvent → Result (Unit {0})
validate_audit_event event =
    refuse_if
      (event.actor_role == []
        || event.action == []
        || event.target_type == []
        || event.target_id == []
        || event.outcome == [])
      (wrap invalid_record (lit "invalid audit event" ∷ []))
    >> elim (validate_audit_details event.details) [
      | ok _ ↦ ok tt
      | err e ↦ err (wrap invalid_record e.message)
    ]
