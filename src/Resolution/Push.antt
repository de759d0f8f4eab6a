-- ===== src/Resolution/Push.antt =====
-- PushResolver.Push.
use regstair.Base.{none, some, List, [], ◌∷◌, ◌++◌, if◌then◌else◌}
use regstair.Strings.{Text, codes}
use regstair.Errors.{
  Error, ok, err, wrap, errors_is, lit, plain, quoted, unauthorized, source_unavailable,
  blob_not_found, blob_digest_mismatch, manifest_digest_mismatch, staged_blob_missing,
  authentication, authorization, unavailable, credential_required,
}
use regstair.Effects.{Exec, pure, fail, lift, attempt, ◌>>=◌, ◌>>◌}
use regstair.Identity.{event_identity}
use regstair.Registry.Types.{reader, Descriptor, Manifest}
use regstair.Metadata.Types.{Time, operation_push}
use regstair.Policy.Types.{PushDecision}
use regstair.Policy.Normalize.{Unicode}
use regstair.Policy.Engine.{resolve_push}
use regstair.Resolution.Services.{Services, Resolver}
use regstair.Resolution.Records.{PushRequest, PushResult}
use regstair.Resolution.Recording.{
  record_successful_push, record_rejected_push, record_failed_push, record_unauthorized_push,
}
use regstair.Resolution.Pull.{authorized, connector_of}

unfoldable pub denied_push : PushRequest → PushDecision → Error
denied_push request decision = wrap unauthorized (
    lit "client "
    ∷ quoted (event_identity request.principal)
    ∷ lit " cannot push route "
    ∷ quoted decision.route_name
    ∷ [])

-- errors.Is(err, ErrAuthentication), then ErrUnavailable, of a call to a destination.
unfoldable pub destination_error : Text → Error → Error
destination_error name e =
    if errors_is e authentication
    then record {
      wraps = source_unavailable ∷ authentication ∷ [];
      message =
          lit "source unavailable: registry authentication failed for destination "
          ∷ plain name
          ∷ [];
    }
    else if errors_is e unavailable
    then wrap source_unavailable (plain name ∷ [])
    else e

unfoldable pub credential_class : Error → Text
credential_class e =
    if errors_is e credential_required
    then codes "credential_required"
    else if errors_is e authorization
    then codes "upstream_authorization_failed"
    else codes "credential_unavailable"

unfoldable pub publish_class : Error → Text
publish_class e =
    if errors_is e authentication
    then codes "upstream_authentication_failed"
    else if errors_is e staged_blob_missing
    then codes "staged_blob_missing"
    else codes "destination_error"

unfoldable pub manifest_class : Error → Text
manifest_class e =
    if errors_is e authentication
    then codes "upstream_authentication_failed"
    else if errors_is e unavailable
    then codes "destination_unavailable"
    else codes "destination_error"

unfoldable pub missing_destination : PushDecision → Error
missing_destination decision =
    wrap source_unavailable
      (lit "missing destination connector " ∷ quoted decision.destination ∷ [])

unfoldable pub push_result : PushDecision → Text → Descriptor → PushResult
push_result decision credential_source descriptor = record {
  route = decision.route_name;
  destination = decision.destination;
  logical_repository = decision.logical_repository;
  physical_repository = decision.physical_repository;
  reference = decision.reference;
  manifest_digest = descriptor.digest;
  explanation =
      decision.explanation
      ++ (lit "published manifest "
          ∷ quoted descriptor.digest
          ∷ lit " to destination "
          ∷ quoted decision.destination
          ∷ [])
        ∷ [];
  credential_source = credential_source;
}

module _ (s : Services) where
  open s use {
    World, Connector, now, put_blob, open_blob, connector_name, put_source_blob, put_manifest,
  }

  unfoldable pub verify_and_store_manifest : Manifest → Exec World (Unit {0})
  verify_and_store_manifest manifest = do
    put ← attempt (put_blob manifest.digest (reader manifest.content))
    elim put [
      | ok _ ↦ pure tt
      | err e ↦
          if errors_is e blob_digest_mismatch
          then fail (record {
            wraps = manifest_digest_mismatch ∷ [];
            message = lit "manifest digest mismatch: " ∷ e.message;
          })
          else fail e
    ]

  unfoldable pub publish_blob : Connector → Text → Text → Exec World (Unit {0})
  publish_blob destination repository digest = do
    opened ← attempt (open_blob digest)
    elim opened [
      | err e ↦
          if errors_is e blob_not_found
          then fail (wrap staged_blob_missing (plain digest ∷ []))
          else fail e
      | ok rc ↦ do
        put ← attempt (put_source_blob destination repository digest rc)
        elim put [
          | ok _ ↦ pure tt
          | err e ↦ fail (destination_error (connector_name destination) e)
        ]
    ]

  -- A failure is recorded, whatever comes of recording it, and returned.
  unfoldable pub fail_push :
      {A : Type 0} → Time → PushRequest → PushDecision → Error → Text → Exec World A
  fail_push started request decision e error_class = do
    attempt (record_failed_push s started request decision e error_class)
    fail e

  -- The loop over the blobs.
  unfoldable pub publish_blobs :
      Time → PushRequest → PushDecision → Connector → List Text → Exec World (Unit {0})
  publish_blobs started request decision destination [] = pure tt
  publish_blobs started request decision destination (digest ∷ digests) =
      let rest = publish_blobs started request decision destination digests in
      do
        published ← attempt (publish_blob destination decision.physical_repository digest)
        elim published [
          | ok _ ↦ rest
          | err e ↦ fail_push started request decision e (publish_class e)
        ]

  -- The manifest is published behind its blobs.
  unfoldable pub publish_manifest :
      Time → PushRequest → PushDecision → Connector → Exec World Descriptor
  publish_manifest started request decision destination = do
    put ←
        attempt (
          put_manifest destination decision.physical_repository decision.reference request.manifest)
    elim put [
      | ok descriptor ↦ pure descriptor
      | err e ↦
          fail_push started request decision (destination_error decision.destination e)
            (manifest_class e)
    ]

  -- A push to a connector: the manifest is verified, the blobs are published, then the manifest.
  unfoldable pub publish :
      Time → PushRequest → PushDecision → Connector → Text → Exec World PushResult
  publish started request decision destination credential_source = do
    verified ← attempt (verify_and_store_manifest request.manifest)
    elim verified [
      | err e ↦ fail_push started request decision e (codes "manifest_invalid")
      | ok _ ↦ do
        publish_blobs started request decision destination request.manifest.blob_digests
        descriptor ← publish_manifest started request decision destination
        record_successful_push s started request decision
            (push_result decision credential_source descriptor)
        pure (push_result decision credential_source descriptor)
    ]

  -- The push of an authorized client.
  unfoldable pub serve_push : Resolver s → Time → PushRequest → PushDecision → Exec World PushResult
  serve_push r started request decision = do
    chosen ← attempt (connector_of s r request.principal decision.destination operation_push)
    elim chosen [
      | err e ↦ fail_push started request decision e (credential_class e)
      | ok (none, credential_source) ↦
          fail_push started request decision (missing_destination decision)
            (codes "destination_unavailable")
      | ok (some destination, credential_source) ↦
          publish started request decision destination credential_source
    ]

  unfoldable pub push : ⦃u : Unicode⦄ → Resolver s → PushRequest → Exec World PushResult
  push r request = do
    started ← now
    decided ← attempt (
        lift (
          resolve_push r.policy
            (record { repository = request.repository; reference = request.reference })))
    elim decided [
      | err e ↦ do attempt (record_rejected_push s started request e); fail e
      | ok decision ↦
          if authorized s r request.principal operation_push decision.route_name
          then serve_push r started request decision
          else (do
            record_unauthorized_push s started request decision
            fail (denied_push request decision))
    ]
