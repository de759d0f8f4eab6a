-- ===== src/Resolution/Pull.antt =====
-- PullResolver.Pull and PullResolver.OpenBlob.
use regstair.Base.{
  ℤ, pos, Bool, true, false, not, Option, none, some, List, [], ◌∷◌, ◌++◌, ◌==◌, if◌then◌else◌,
}
use regstair.Strings.{Text, text_eq}
use regstair.Maps
use regstair.Errors.{
  Error, ok, err, bare, wrap, errors_is, errors_is_any, lit, plain, quoted, unauthorized,
  source_unavailable, resolution_not_found, blob_not_found, authentication, authorization,
  not_found, unavailable, credential_required, credential_unavailable,
}
use regstair.Effects.{Exec, pure, fail, lift, attempt, ◌>>=◌, ◌>>◌}
use regstair.Identity.{Principal, event_identity}
use regstair.Registry.Types.{Stream, Manifest}
use regstair.Content.Types.{BlobDescriptor}
use regstair.Metadata.Types.{Time, operation_pull}
use regstair.Policy.Types.{PullDecision}
use regstair.Policy.Normalize.{Unicode}
use regstair.Policy.Engine.{resolve_pull}
use regstair.Resolution.Services.{Services, Resolver}
use regstair.Resolution.Records.{PullRequest, PullResult, reference_string}
use regstair.Resolution.Recording.{
  record_successful_pull, record_failed_pull, record_unauthorized_pull,
}
use regstair.Resolution.Cache.{
  anonymous_credential, cache_manifest, cache_bindings, authorize_cached_object, try_cache,
}

-- The errors of a credential, after which no further source is asked.
abbrev pub is_credential_error : Error → Bool
is_credential_error e =
    errors_is_any e
      (credential_required ∷ credential_unavailable ∷ authentication ∷ authorization ∷ [])

-- What one source comes to: a manifest, or the last error, and whether to go on.
pub data Answer (s : Services) : Type 0 where
  answered : s.Connector → Text → Manifest → Answer s
  next_source : Error → Answer s
  stop : Error → Answer s

-- What the loop over the sources comes to: a result, or the last error if there was one.
pub data Outcome : Type 0 where
  resolved : PullResult → Outcome
  exhausted : Option Error → Outcome

unfoldable pub missing_connector : Text → Error
missing_connector source = wrap source_unavailable (lit "missing connector " ∷ quoted source ∷ [])

-- The tests on the error of ResolveManifest, in their order.
unfoldable pub refused_manifest : (s : Services) → Text → Error → Answer s
refused_manifest s source e =
    if errors_is e authentication
    then stop (record {
      wraps = source_unavailable ∷ authentication ∷ [];
      message =
          lit "source unavailable: registry authentication failed for source " ∷ plain source ∷ [];
    })
    else if errors_is e not_found
    then next_source e
    else if errors_is e unavailable
    then next_source (wrap source_unavailable (plain source ∷ []))
    else next_source e

-- The error of a pull that no source answered.
unfoldable pub failed_pull_error : PullDecision → Option Error → Error
failed_pull_error decision none =
    wrap resolution_not_found
      (plain (reference_string decision.logical_repository decision.reference) ∷ [])
failed_pull_error decision (some e) =
    if errors_is e source_unavailable
    then e
    else if is_credential_error e
    then e
    else wrap resolution_not_found
        (plain (reference_string decision.logical_repository decision.reference) ∷ [])

unfoldable pub denied_pull : PullRequest → PullDecision → Error
denied_pull request decision = wrap unauthorized (
    lit "client "
    ∷ quoted (event_identity request.principal)
    ∷ lit " cannot pull route "
    ∷ quoted decision.route_name
    ∷ [])

unfoldable pub pull_result : PullDecision → Bool → Text → Text → Manifest → PullResult
pull_result decision fallback source credential_source manifest = record {
  manifest = manifest;
  source = source;
  route = decision.route_name;
  fallback_used = fallback;
  explanation =
      (decision.explanation ++ (lit "resolved manifest from source " ∷ quoted source ∷ []) ∷ [])
      ++ (if fallback then (lit "fallback source was used" ∷ []) ∷ [] else []);
  credential_source = credential_source;
}

module _ (s : Services) where
  open s use {World, Connector, open_blob, list_blobs, record_cache_bindings, resolve_manifest}

  -- No authorizer authorizes all.
  unfoldable pub authorized : Resolver s → Principal → Text → Text → Bool
  authorized r principal operation route = elim r.authorizer [
    | none ↦ true
    | some authorize ↦ authorize principal operation route
  ]

  -- The connector of a source, and the credential that it uses.
  unfoldable pub connector_of :
      Resolver s → Principal → Text → Text → Exec World (Option Connector × Text)
  connector_of r principal source operation = elim r.provider [
    | none ↦ pure (Maps.get r.connectors source, anonymous_credential)
    | some provider ↦ provider.connector_for principal source operation
  ]

  -- One round of the loop, up to the manifest.
  unfoldable pub ask_source : Resolver s → PullRequest → PullDecision → Text → Exec World (Answer s)
  ask_source r request decision source = do
    chosen ← attempt (connector_of r request.principal source operation_pull)
    elim chosen [
      | err e ↦ pure (if is_credential_error e then stop e else next_source e)
      | ok (none, credential_source) ↦ pure (next_source (missing_connector source))
      | ok (some connector, credential_source) ↦ do
        found ← attempt (resolve_manifest connector decision.physical_repository decision.reference)
        elim found [
          | err e ↦ pure (refused_manifest s source e)
          | ok manifest ↦ pure (answered connector credential_source manifest)
        ]
    ]

  -- The rest of the round: the manifest is cached, bound and recorded.
  unfoldable pub accept_manifest :
      Time
      → PullRequest
      → PullDecision
      → Bool
      → Text
      → Connector
      → Text
      → Manifest
      → Exec World PullResult
  accept_manifest started request decision fallback source connector credential_source manifest = do
    cache_manifest s connector decision.physical_repository manifest
    record_cache_bindings (cache_bindings request decision source manifest credential_source)
    record_successful_pull s started request decision
        (pull_result decision fallback source credential_source manifest)
    pure (pull_result decision fallback source credential_source manifest)

  -- The loop over the candidate sources; `fallback` is `index > 0`.
  unfoldable pub ask_sources :
      Resolver s
      → Time
      → PullRequest
      → PullDecision
      → Bool
      → List Text
      → Option Error
      → Exec World Outcome
  ask_sources r started request decision fallback [] last_error = pure (exhausted last_error)
  ask_sources r started request decision fallback (source ∷ sources) last_error =
      let rest = ask_sources r started request decision true sources in
      do
        answer ← ask_source r request decision source
        elim answer [
          | answered connector credential_source manifest ↦ do
            result ←
                accept_manifest started request decision fallback source connector credential_source
                  manifest
            pure (resolved result)
          | next_source e ↦ rest (some e)
          | stop e ↦ pure (exhausted (some e))
        ]

  unfoldable pub ask_upstream :
      Resolver s → Time → PullRequest → PullDecision → Exec World PullResult
  ask_upstream r started request decision = do
    outcome ← ask_sources r started request decision false decision.candidate_sources none
    elim outcome [
      | resolved result ↦ pure result
      | exhausted last_error ↦ do
        record_failed_pull s started request decision last_error
        fail (failed_pull_error decision last_error)
    ]

  -- The pull of an authorized client: the cache first, then the sources.
  unfoldable pub serve_pull : Resolver s → Time → PullRequest → PullDecision → Exec World PullResult
  serve_pull r started request decision = do
    cached ← try_cache s r started request decision
    elim cached [ some result ↦ pure result | none ↦ ask_upstream r started request decision ]

  -- The pull of a client that the route's authorizer refuses.
  unfoldable pub refuse_pull : Time → PullRequest → PullDecision → Exec World PullResult
  refuse_pull started request decision = do
    record_unauthorized_pull s started request decision
    fail (denied_pull request decision)

  unfoldable pub pull : ⦃u : Unicode⦄ → Resolver s → PullRequest → Exec World PullResult
  pull r request = do
    started ← s.now
    decision ← lift (
        resolve_pull r.policy
          (record { repository = request.repository; reference = request.reference }))
    if authorized r request.principal operation_pull decision.route_name
        then serve_pull r started request decision
        else refuse_pull started request decision

-- BlobRequest and BlobResult
pub record BlobRequest : Type 0 where
  pub repository : Text
  pub digest : Text
  pub principal : Principal

pub record BlobResult : Type 0 where
  pub content : Stream
  pub size : ℤ
  pub credential_source : Text

-- The loop that looks for the size; 0 where the digest is not listed.
unfoldable pub listed_size : Text → List BlobDescriptor → ℤ
listed_size digest [] = pos 0
listed_size digest (blob ∷ blobs) =
    let rest = listed_size digest blobs in if blob.digest == digest then blob.size else rest

module _ (s : Services) where
  open s use {World, open_blob, list_blobs}

  unfoldable pub open_pulled_blob : ⦃u : Unicode⦄ → Resolver s → BlobRequest → Exec World BlobResult
  open_pulled_blob r request = do
    decision ← lift (
        resolve_pull r.policy
          (record { repository = request.repository; reference = request.digest }))
    if not (authorized s r request.principal operation_pull decision.route_name)
        then fail (bare unauthorized)
        else (do
          granted ← authorize_cached_object s r request.principal decision request.digest
          elim granted [
            | none ↦ fail (bare blob_not_found)
            | some (_, credential_source) ↦ do
              rc ← open_blob request.digest
              listed ← attempt list_blobs
              pure (record {
                content = rc;
                size = elim listed [ err e ↦ pos 0 | ok blobs ↦ listed_size request.digest blobs ];
                credential_source = credential_source;
              })
          ])
