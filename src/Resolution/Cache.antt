-- ===== src/Resolution/Cache.antt =====
-- The local cache of pull.go: what may be served from it, and what a pull puts into it.
use regstair.Base.{
  pos, int_eq, false, ◌&&◌, Bool, not, Option, none, some, List, [], ◌∷◌, ◌++◌, map, ◌==◌, length,
  if◌then◌else◌,
}
use regstair.Strings.{Text, text_eq, codes}
use regstair.Errors.{
  Message, Error, ok, err, bare, prefixed, errors_is, lit, plain, blob_not_found,
  credential_required,
}
use regstair.Effects.{Exec, pure, fail, attempt, ◌>>=◌, ◌>>◌}
use regstair.Identity.{Principal}
use regstair.Registry.Types.{Bytes, reader, Descriptor, Manifest}
use regstair.Registry.Parse.{parse_manifest}
use regstair.Metadata.Types.{
  Time, operation_pull, access_challenge, access_proxy, access_current_user_required, TagMapping,
  CacheBinding,
}
use regstair.Policy.Types.{PullDecision}
use regstair.Policy.Validate.{contains}
use regstair.Resolution.Services.{Services, Provider, Resolver}
use regstair.Resolution.Records.{PullRequest, PullResult, is_digest_reference, mapping_is_fresh}
use regstair.Resolution.Recording.{record_cache_hit}

abbrev pub source_cache : Text
source_cache = codes "local-cache"

abbrev pub anonymous_credential : Text
anonymous_credential = codes "anonymous"

-- The binding that lets an object be served, and the credential that it is served under.
abbrev pub Grant : Type 0
Grant = Option (CacheBinding × Text)

-- The access that a binding records, and the user that it is bound to.
unfoldable pub binding_access : PullRequest → Text → Text × Text
binding_access request credential_source =
    if credential_source == codes "current_user"
    then (access_current_user_required, request.principal.id)
    else if credential_source == codes "proxy"
    then (access_proxy, [])
    else (access_challenge, [])

unfoldable pub cache_bindings :
    PullRequest → PullDecision → Text → Manifest → Text → List CacheBinding
unfolding binding_access
cache_bindings request decision source manifest credential_source =
    let (access, user_id) = binding_access request credential_source in
    let bind = λ (kind digest : Text).
      let b : CacheBinding = record {
        logical_repository = decision.logical_repository;
        route = decision.route_name;
        source = source;
        physical_repository = decision.physical_repository;
        manifest_digest = manifest.digest;
        object_digest = digest;
        object_kind = kind;
        access = access;
        user_id = user_id;
        created_at = 0;
        updated_at = 0;
      } in
      b in
    bind (codes "manifest") manifest.digest ∷ map (bind (codes "blob")) manifest.blob_digests

abbrev pub is_bound_to : CacheBinding → TagMapping → Bool
is_bound_to binding mapping =
    binding.source == mapping.source && binding.manifest_digest == mapping.digest

module _ (s : Services) where
  open s use {
    World, Connector, now, put_blob, open_blob, find_tag_mapping, record_cache_bindings,
    list_cache_bindings, open_source_blob, unmarshal, digest_bytes,
  }

  -- The loop over the blobs of a manifest.
  unfoldable pub cache_blobs : Connector → Text → List Text → Exec World (Unit {0})
  cache_blobs connector repository [] = pure tt
  cache_blobs connector repository (digest ∷ digests) =
      let rest = cache_blobs connector repository digests in
      do
        opened ← attempt (open_source_blob connector repository digest)
        elim opened [
          | err e ↦ fail (prefixed (lit "open source blob " ∷ plain digest ∷ []) e)
          | ok rc ↦ do
            put ← attempt (put_blob digest rc)
            elim put [
              | err e ↦ fail (prefixed (lit "cache blob " ∷ plain digest ∷ []) e)
              | ok _ ↦ elim rc.close_error [
                | some e ↦ fail (prefixed (lit "close source blob " ∷ plain digest ∷ []) e)
                | none ↦ rest
              ]
            ]
        ]

  unfoldable pub cache_manifest : Connector → Text → Manifest → Exec World (Unit {0})
  cache_manifest connector repository manifest = do
    put ← attempt (put_blob manifest.digest (reader manifest.content))
    elim put [
      | err e ↦ fail (prefixed (lit "cache manifest" ∷ []) e)
      | ok _ ↦ cache_blobs connector repository manifest.blob_digests
    ]

  -- What the provider says of a binding; a refusal is handed to the next round.
  unfoldable pub ask_grant :
      Option (Provider s)
      → Principal
      → CacheBinding
      → (Option Error → Exec World Grant)
      → Exec World Grant
  ask_grant none principal binding next = next (some (bare credential_required))
  ask_grant (some provider) principal binding next = do
    answer ← attempt (provider.authorize_cache principal binding operation_pull)
    elim answer [
      | ok credential_source ↦ pure (some (binding, credential_source))
      | err e ↦ next (some e)
    ]

  -- One round of the loop over the bindings, with the last refusal; `next` is the rest.
  unfoldable pub consider_binding :
      Resolver s
      → Principal
      → PullDecision
      → CacheBinding
      → Option Error
      → (Option Error → Exec World Grant)
      → Exec World Grant
  consider_binding r principal decision binding denied next =
      if not (contains decision.candidate_sources binding.source)
      then next denied
      else if binding.access == access_challenge
      then pure (some (binding, anonymous_credential))
      else ask_grant r.provider principal binding next

  unfoldable pub authorize_bindings :
      Resolver s → Principal → PullDecision → List CacheBinding → Option Error → Exec World Grant
  authorize_bindings r principal decision [] (some denied) = fail denied
  authorize_bindings r principal decision [] none = pure none
  authorize_bindings r principal decision (binding ∷ bindings) denied =
      consider_binding r principal decision binding denied
        (authorize_bindings r principal decision bindings)

  unfoldable pub authorize_cached_object :
      Resolver s → Principal → PullDecision → Text → Exec World Grant
  authorize_cached_object r principal decision digest = do
    bindings ← list_cache_bindings decision.logical_repository decision.route_name digest
    authorize_bindings r principal decision bindings none

  -- The manifest of the bytes, with the descriptor's gaps filled in.
  unfoldable pub described : Descriptor → Bytes → Manifest
  described descriptor body =
      let sized =
        if descriptor.size == pos 0
        then record descriptor { size = pos (length body) }
        else descriptor in
      elim (parse_manifest unmarshal digest_bytes body) [
        | none ↦ record { descriptor = sized; content = body; blob_digests = [] }
        | some parsed ↦ record {
          descriptor =
              if sized.media_type == []
              then record sized { media_type = parsed.media_type }
              else sized;
          content = body;
          blob_digests = parsed.blob_digests;
        }
      ]

  unfoldable pub cached_manifest_by_digest : Text → Descriptor → Exec World (Option Manifest)
  cached_manifest_by_digest digest descriptor = do
    opened ← attempt (open_blob digest)
    elim opened [
      | err e ↦ if errors_is e blob_not_found then pure none else fail e
      | ok rc ↦ elim rc.read_error [
        | some e ↦ fail e
        | none ↦ pure (some (described descriptor rc.body))
      ]
    ]

  -- A result from the cache, recorded as a hit.
  unfoldable pub serve_cached :
      Time → PullRequest → PullDecision → Manifest → Text → Message → Exec World (Option PullResult)
  serve_cached started request decision manifest credential_source how =
      let result : PullResult = record {
        manifest = manifest;
        source = source_cache;
        route = decision.route_name;
        fallback_used = false;
        explanation = decision.explanation ++ how ∷ [];
        credential_source = credential_source;
      } in
      do record_cache_hit s started request decision result; pure (some result)

  unfoldable pub try_digest :
      Resolver s → Time → PullRequest → PullDecision → Exec World (Option PullResult)
  try_digest r started request decision = do
    granted ← authorize_cached_object r request.principal decision decision.reference
    elim granted [
      | none ↦ pure none
      | some (_, credential_source) ↦ do
        cached ←
            cached_manifest_by_digest decision.reference
              (record { media_type = []; digest = decision.reference; size = pos 0 })
        elim cached [
          | none ↦ pure none
          | some manifest ↦
              serve_cached started request decision manifest credential_source
                (lit "served digest reference from local cache" ∷ [])
        ]
    ]

  -- The manifest of a tag's mapping, whose blobs are those of the mapping.
  unfoldable pub serve_mapping :
      Time → PullRequest → PullDecision → TagMapping → Text → Exec World (Option PullResult)
  serve_mapping started request decision mapping credential_source = do
    cached ←
        cached_manifest_by_digest mapping.digest
          (record { media_type = mapping.media_type; digest = mapping.digest; size = mapping.size })
    elim cached [
      | none ↦ pure none
      | some manifest ↦
          serve_cached started request decision
            (record manifest { blob_digests = mapping.blob_digests }) credential_source
            (lit "served tag reference from fresh local cache mapping" ∷ [])
    ]

  -- The tag's mapping is fresh: its manifest may be served if the binding is that of the mapping.
  unfoldable pub try_mapping :
      Resolver s → Time → PullRequest → PullDecision → TagMapping → Exec World (Option PullResult)
  try_mapping r started request decision mapping = do
    granted ← authorize_cached_object r request.principal decision mapping.digest
    elim granted [
      | none ↦ pure none
      | some (binding, credential_source) ↦
          if is_bound_to binding mapping
          then serve_mapping started request decision mapping credential_source
          else pure none
    ]

  unfoldable pub try_tag :
      Resolver s → Time → PullRequest → PullDecision → Exec World (Option PullResult)
  try_tag r started request decision = do
    found ← find_tag_mapping decision.logical_repository decision.reference
    elim found [
      | none ↦ pure none
      | some mapping ↦ do
        time ← now
        if mapping_is_fresh mapping time
            then try_mapping r started request decision mapping
            else pure none
    ]

  unfoldable pub try_cache :
      Resolver s → Time → PullRequest → PullDecision → Exec World (Option PullResult)
  try_cache r started request decision =
      if is_digest_reference decision.reference
      then try_digest r started request decision
      else try_tag r started request decision
