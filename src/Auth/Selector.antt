-- ===== src/Auth/Selector.antt =====
-- RuntimeCredentialSelector of internal/auth/runtime_credentials.go and RouteAuthorizer of
-- internal/auth/auth.go. The repository of users and credentials, the keyring and the connector
-- factory are arguments.
use regstair.Base.{
  ◌&&◌, ◌||◌, Bool, true, false, not, Option, none, some, List, [], ◌∷◌, ◌==◌, if◌then◌else◌,
}
use regstair.Strings.{Text, text_eq, codes}
use regstair.Errors.{
  Error, ok, err, bare, wrap, lit, plain, unavailable, credential_required, credential_unavailable,
  authorization,
}
use regstair.Effects.{Exec, pure, fail, attempt, ◌>>=◌}
use regstair.Maps
use regstair.Maps.{Map}
use regstair.Identity.{Principal, kind_local_user}
use regstair.Metadata.Types.{
  Time, User, CacheBinding, operation_pull, operation_push, access_challenge, access_proxy,
  access_current_user_required,
}

-- config.Source, as far as the selector reads it.
pub record SourceConfig : Type 0 where
  pub id : Text
  pub enabled : Bool
  pub strategy : Text

abbrev pub strategy_challenge : Text
strategy_challenge = codes "challenge"

abbrev pub strategy_proxy : Text
strategy_proxy = codes "proxy"

pub record RegistryCredential : Type 0 where
  pub id : Text
  pub user_id : Text
  pub source_id : Text
  pub username : Text
  pub encrypted_secret : Text
  pub created_at : Time
  pub updated_at : Time

-- What the selector calls. A connector that cannot be made, or a secret that cannot be decrypted, is
-- `none`.
pub record Accounts (W Connector : Type 0) : Type 0 where
  pub find_user_by_id : Text → Exec W (Option User)
  pub find_registry_credential : Text → Text → Exec W (Option RegistryCredential)
  pub decrypt : Text → Text → Text → Text → Option Text
  pub factory : SourceConfig → Text → Text → Option Connector

-- The loop of NewRuntimeCredentialSelector: of two sources of one id the later stays.
unfoldable pub by_id : List SourceConfig → Map Text SourceConfig → Map Text SourceConfig
by_id [] m = m
by_id (source ∷ sources) m = by_id sources (Maps.put m source.id source)

abbrev pub is_local_user : Principal → Bool
is_local_user principal = not (not (principal.kind == kind_local_user) || principal.id == [])

-- source.Auth.Strategy == "" || source.Auth.Strategy == config.AuthStrategyChallenge
abbrev pub is_open : SourceConfig → Bool
is_open source = source.strategy == [] || source.strategy == strategy_challenge

abbrev pub local_user_required : Error
local_user_required = wrap credential_required (lit "local user authentication is required" ∷ [])

-- user == nil || !user.Enabled
abbrev pub is_active : Option User → Bool
is_active none = false
is_active (some user) = user.enabled

module _ {W Connector : Type 0} (a : Accounts W Connector) (sources : Map Text SourceConfig)
    (connectors : Map Text Connector) where
  -- s.sources[id], if it is there and enabled
  abbrev pub enabled_source : Text → Option SourceConfig
  enabled_source id = elim (Maps.get sources id) [
    | none ↦ none
    | some source ↦ if source.enabled then some source else none
  ]

  -- The connector of the user's own credential.
  unfoldable pub own_connector :
      Principal → SourceConfig → Text → RegistryCredential → Exec W (Option Connector × Text)
  own_connector principal source source_id credential =
      elim (a.decrypt credential.id principal.id source_id credential.encrypted_secret) [
        | none ↦ fail (wrap credential_unavailable (lit "credential cannot be decrypted" ∷ []))
        | some secret ↦ elim (a.factory source credential.username secret) [
          | none ↦ fail (wrap credential_unavailable (lit "create request connector" ∷ []))
          | some connector ↦ pure (some connector, codes "current_user")
        ]
      ]

  -- The request of a local user whose account is active.
  unfoldable pub user_connector : Principal → SourceConfig → Text → Exec W (Option Connector × Text)
  user_connector principal source source_id =
      if source.strategy == strategy_proxy
      then pure (Maps.get connectors source_id, codes "proxy")
      else (do
        credential ← a.find_registry_credential principal.id source_id
        elim credential [
          | none ↦
              if is_open source
              then pure (Maps.get connectors source_id, codes "anonymous")
              else fail (
                  wrap credential_required (lit "no credential for source " ∷ plain source_id ∷ []))
          | some credential ↦ own_connector principal source source_id credential
        ])

  unfoldable pub local_connector :
      Principal → SourceConfig → Text → Exec W (Option Connector × Text)
  local_connector principal source source_id = do
    user ← a.find_user_by_id principal.id
    if is_active user
        then user_connector principal source source_id
        else fail (wrap authorization (lit "local user is disabled" ∷ []))

  unfoldable pub anonymous_connector : SourceConfig → Text → Text → Exec W (Option Connector × Text)
  anonymous_connector source source_id operation =
      if operation == operation_pull && is_open source
      then pure (Maps.get connectors source_id, codes "anonymous")
      else fail local_user_required

  unfoldable pub connector_for : Principal → Text → Text → Exec W (Option Connector × Text)
  connector_for principal source_id operation = elim (enabled_source source_id) [
    | none ↦ fail (wrap unavailable (lit "source " ∷ plain source_id ∷ []))
    | some source ↦
        if is_local_user principal
        then local_connector principal source source_id
        else anonymous_connector source source_id operation
  ]

  -- The binding of a user who may use it, or of the proxy.
  unfoldable pub authorize_user : Principal → CacheBinding → Exec W Text
  authorize_user principal binding = do
    found ← attempt (a.find_user_by_id principal.id)
    if elim found [ ok user ↦ is_active user | err e ↦ false ]
        then (if binding.access == access_proxy then pure (codes "proxy") else (do
          credential ← a.find_registry_credential principal.id binding.source
          elim credential [
            | none ↦ fail (bare credential_required)
            | some _ ↦ pure (codes "current_user")
          ]))
        else fail (bare authorization)

  unfoldable pub authorize_bound : Principal → CacheBinding → Exec W Text
  authorize_bound principal binding =
      if not (is_local_user principal)
      then fail (bare credential_required)
      else if binding.access == access_current_user_required
          && not (principal.id == binding.user_id)
      then fail (bare authorization)
      else authorize_user principal binding

  unfoldable pub authorize_cache : Principal → CacheBinding → Text → Exec W Text
  authorize_cache principal binding operation = elim (enabled_source binding.source) [
    | none ↦ fail (bare authorization)
    | some source ↦
        if binding.access == access_challenge && operation == operation_pull
        then pure (codes "anonymous")
        else authorize_bound principal binding
  ]

-- RouteAuthorizer.Authorize
unfoldable pub authorize : Principal → Text → Text → Bool
authorize principal operation route =
    if operation == operation_pull
    then true
    else operation == operation_push
      && principal.kind == kind_local_user
      && not (principal.id == [])
