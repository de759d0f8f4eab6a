-- ===== src/Resolution/Records.antt =====
-- The requests and results of the resolvers, and what they write to the metadata: the records and
-- events of the record… functions of pull.go and push.go.
use regstair.Base.{
  ℕ, ℤ, pos, ◌+◌, ◌-◌, Bool, false, ◌&&◌, ◌||◌, not, Option, none, some, List, [], ◌∷◌, ◌++◌, ◌==◌,
  ltb, nat_eq, if◌then◌else◌,
}
use regstair.Strings.{Text, text_eq, codes, has_prefix}
use regstair.Errors.{
  Sentinel, Message, Error, errors_is, lit, quoted, source_unavailable, authentication,
  authorization, credential_required, credential_unavailable,
}
use regstair.Identity.{Principal, event_identity}
use regstair.Registry.Types.{Manifest}
use regstair.Metadata.Types.{
  Time, is_zero, operation_pull, operation_push, status_success, status_denied, status_error,
  cache_hit, cache_miss, cache_bypassed, RequestEvent, ProvenanceRecord, TagMapping,
}
use regstair.Policy.Types.{PullDecision, PushDecision}

pub record PullRequest : Type 0 where
  pub repository : Text
  pub reference : Text
  pub principal : Principal

pub record PullResult : Type 0 where
  pub manifest : Manifest
  pub source : Text
  pub route : Text
  pub fallback_used : Bool
  pub explanation : List Message
  pub credential_source : Text

pub record PushRequest : Type 0 where
  pub repository : Text
  pub reference : Text
  pub manifest : Manifest
  pub principal : Principal

pub record PushResult : Type 0 where
  pub route : Text
  pub destination : Text
  pub logical_repository : Text
  pub physical_repository : Text
  pub reference : Text
  pub manifest_digest : Text
  pub explanation : List Message
  pub credential_source : Text

unfoldable pub is_digest_reference : Text → Bool
is_digest_reference reference = has_prefix reference (codes "sha256:")

unfoldable pub reference_string : Text → Text → Text
reference_string repository reference =
    if is_digest_reference reference
    then repository ++ codes "@" ++ reference
    else repository ++ codes ":" ++ reference

-- A zero time never runs out.
unfoldable pub mapping_is_fresh : TagMapping → Time → Bool
mapping_is_fresh mapping now =
    is_zero mapping.fresh_until || ltb now mapping.fresh_until || mapping.fresh_until == now

abbrev pub manifest_and_blob_bytes : Manifest → ℤ
manifest_and_blob_bytes manifest = manifest.size

-- 24 * time.Hour
abbrev pub day : ℕ
day = 86_400_000_000_000

-- The event that the parts of all others are taken from.
abbrev pub blank_event : RequestEvent
blank_event = record {
  id = 0;
  timestamp = 0;
  operation = [];
  client_identity = [];
  credential_source = [];
  logical_reference = [];
  matched_route = [];
  source_or_destination = [];
  status = [];
  cache_result = [];
  duration = 0;
  bytes_transferred = pos 0;
  error_classification = [];
  explanation = [];
}

unfoldable pub pull_provenance : Time → PullDecision → PullResult → ProvenanceRecord
pull_provenance now decision result = record {
  logical_reference = reference_string decision.logical_repository decision.reference;
  physical_source_reference = reference_string decision.physical_repository decision.reference;
  requested_reference = decision.reference;
  resolved_digest = result.manifest.digest;
  source = result.source;
  route = result.route;
  fallback_used = result.fallback_used;
  stale_served = false;
  retrieved_at = now;
  validated_at = now;
}

unfoldable pub pull_tag_mapping : Time → PullDecision → PullResult → TagMapping
pull_tag_mapping now decision result = record {
  logical_repository = decision.logical_repository;
  tag = decision.reference;
  digest = result.manifest.digest;
  media_type = result.manifest.media_type;
  size = result.manifest.size;
  blob_digests = result.manifest.blob_digests;
  source = result.source;
  route = result.route;
  resolved_at = now;
  last_validated_at = now;
  fresh_until = now + day;
}

unfoldable pub pull_success_event :
    Time → Time → PullRequest → PullDecision → PullResult → RequestEvent
pull_success_event started now request decision result = record blank_event {
  timestamp = now;
  operation = operation_pull;
  client_identity = event_identity request.principal;
  credential_source = result.credential_source;
  logical_reference = reference_string decision.logical_repository decision.reference;
  matched_route = result.route;
  source_or_destination = result.source;
  status = status_success;
  cache_result = cache_miss;
  duration = now - started;
  bytes_transferred = manifest_and_blob_bytes result.manifest;
  explanation = result.explanation;
}

unfoldable pub cache_hit_event :
    Time → Time → PullRequest → PullDecision → PullResult → RequestEvent
cache_hit_event started now request decision result = record blank_event {
  timestamp = now;
  operation = operation_pull;
  client_identity = event_identity request.principal;
  credential_source = result.credential_source;
  logical_reference = reference_string decision.logical_repository decision.reference;
  matched_route = result.route;
  source_or_destination = result.source;
  status = status_success;
  cache_result = cache_hit;
  duration = now - started;
  bytes_transferred = result.manifest.size;
  explanation = result.explanation;
}

-- Whether the error is there and wraps the sentinel.
abbrev pub caused_by : Option Error → Sentinel → Bool
caused_by none target = false
caused_by (some e) target = errors_is e target

-- A later test overrides an earlier one.
unfoldable pub failed_pull_class : PullDecision → Option Error → Text
failed_pull_class decision cause =
    if caused_by cause authorization
    then codes "upstream_authorization_failed"
    else if caused_by cause credential_unavailable
    then codes "credential_unavailable"
    else if caused_by cause credential_required
    then codes "credential_required"
    else if caused_by cause authentication
    then codes "upstream_authentication_failed"
    else if caused_by cause source_unavailable
    then codes "source_unavailable"
    else if not (decision.authoritative_source == []) && not decision.external_fallback_allowed
    then codes "fallback_blocked"
    else codes "not_found"

unfoldable pub failed_pull_event :
    Time → Time → PullRequest → PullDecision → Option Error → RequestEvent
failed_pull_event started now request decision cause = record blank_event {
  timestamp = now;
  operation = operation_pull;
  client_identity = event_identity request.principal;
  logical_reference = reference_string decision.logical_repository decision.reference;
  matched_route = decision.route_name;
  status =
      if not (decision.authoritative_source == []) && not decision.external_fallback_allowed
      then status_denied
      else status_error;
  cache_result = cache_miss;
  duration = now - started;
  error_classification = failed_pull_class decision cause;
  explanation = decision.explanation;
}

unfoldable pub unauthorized_pull_event : Time → Time → PullRequest → PullDecision → RequestEvent
unauthorized_pull_event started now request decision = record blank_event {
  timestamp = now;
  operation = operation_pull;
  client_identity = event_identity request.principal;
  logical_reference = reference_string decision.logical_repository decision.reference;
  matched_route = decision.route_name;
  status = status_denied;
  cache_result = cache_miss;
  duration = now - started;
  error_classification = codes "authorization_denied";
  explanation =
      decision.explanation
      ++ (lit "client "
          ∷ quoted (event_identity request.principal)
          ∷ lit " is not authorized for pull route "
          ∷ quoted decision.route_name
          ∷ [])
        ∷ [];
}

unfoldable pub push_provenance : Time → PushDecision → PushResult → ProvenanceRecord
push_provenance now decision result = record {
  logical_reference = reference_string decision.logical_repository decision.reference;
  physical_source_reference = reference_string decision.physical_repository decision.reference;
  requested_reference = decision.reference;
  resolved_digest = result.manifest_digest;
  source = result.destination;
  route = result.route;
  fallback_used = false;
  stale_served = false;
  retrieved_at = now;
  validated_at = now;
}

unfoldable pub push_success_event :
    Time → Time → PushRequest → PushDecision → PushResult → RequestEvent
push_success_event started now request decision result = record blank_event {
  timestamp = now;
  operation = operation_push;
  client_identity = event_identity request.principal;
  credential_source = result.credential_source;
  logical_reference = reference_string decision.logical_repository decision.reference;
  matched_route = result.route;
  source_or_destination = result.destination;
  status = status_success;
  cache_result = cache_bypassed;
  duration = now - started;
  explanation = result.explanation;
}

unfoldable pub rejected_push_event : Time → Time → PushRequest → Error → RequestEvent
rejected_push_event started now request cause = record blank_event {
  timestamp = now;
  operation = operation_push;
  client_identity = event_identity request.principal;
  logical_reference = reference_string request.repository request.reference;
  status = status_denied;
  cache_result = cache_bypassed;
  duration = now - started;
  error_classification = codes "push_denied";
  explanation = cause.message ∷ [];
}

unfoldable pub failed_push_event :
    Time → Time → PushRequest → PushDecision → Error → Text → RequestEvent
failed_push_event started now request decision cause error_class = record blank_event {
  timestamp = now;
  operation = operation_push;
  client_identity = event_identity request.principal;
  logical_reference = reference_string decision.logical_repository decision.reference;
  matched_route = decision.route_name;
  source_or_destination = decision.destination;
  status = status_error;
  cache_result = cache_bypassed;
  duration = now - started;
  error_classification = error_class;
  explanation = decision.explanation ++ cause.message ∷ [];
}

unfoldable pub unauthorized_push_event : Time → Time → PushRequest → PushDecision → RequestEvent
unauthorized_push_event started now request decision = record blank_event {
  timestamp = now;
  operation = operation_push;
  client_identity = event_identity request.principal;
  logical_reference = reference_string decision.logical_repository decision.reference;
  matched_route = decision.route_name;
  source_or_destination = decision.destination;
  status = status_denied;
  cache_result = cache_bypassed;
  duration = now - started;
  error_classification = codes "authorization_denied";
  explanation =
      decision.explanation
      ++ (lit "client "
          ∷ quoted (event_identity request.principal)
          ∷ lit " is not authorized for push route "
          ∷ quoted decision.route_name
          ∷ [])
        ∷ [];
}
