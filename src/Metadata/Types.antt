-- ===== src/Metadata/Types.antt =====
-- The types of internal/metadata/repository.go. Operations, statuses, cache results and accesses are
-- texts, as in the source. A time is a number of nanoseconds, 0 the zero time.
use regstair.Base.{ℕ, ℤ, Bool, List, Option, nat_beq}
use regstair.Strings.{Text, codes}
use regstair.Errors.{Message}

abbrev pub Time : Type 0
Time = ℕ

abbrev pub is_zero : Time → Bool
is_zero t = nat_beq t 0

abbrev pub operation_pull : Text
operation_pull = codes "pull"

abbrev pub operation_push : Text
operation_push = codes "push"

abbrev pub status_success : Text
status_success = codes "success"

abbrev pub status_denied : Text
status_denied = codes "denied"

abbrev pub status_error : Text
status_error = codes "error"

abbrev pub cache_hit : Text
cache_hit = codes "hit"

abbrev pub cache_miss : Text
cache_miss = codes "miss"

abbrev pub cache_bypassed : Text
cache_bypassed = codes "bypassed"

abbrev pub access_challenge : Text
access_challenge = codes "challenge"

abbrev pub access_proxy : Text
access_proxy = codes "proxy"

abbrev pub access_current_user_required : Text
access_current_user_required = codes "current_user_required"

pub record RequestEvent : Type 0 where
  pub id : ℕ
  pub timestamp : Time
  pub operation : Text
  pub client_identity : Text
  pub credential_source : Text
  pub logical_reference : Text
  pub matched_route : Text
  pub source_or_destination : Text
  pub status : Text
  pub cache_result : Text
  pub duration : ℕ
  pub bytes_transferred : ℤ
  pub error_classification : Text
  pub explanation : List Message

pub record ProvenanceRecord : Type 0 where
  pub logical_reference : Text
  pub physical_source_reference : Text
  pub requested_reference : Text
  pub resolved_digest : Text
  pub source : Text
  pub route : Text
  pub fallback_used : Bool
  pub stale_served : Bool
  pub retrieved_at : Time
  pub validated_at : Time

pub record TagMapping : Type 0 where
  pub logical_repository : Text
  pub tag : Text
  pub digest : Text
  pub media_type : Text
  pub size : ℤ
  pub blob_digests : List Text
  pub source : Text
  pub route : Text
  pub resolved_at : Time
  pub last_validated_at : Time
  pub fresh_until : Time

pub record CacheBinding : Type 0 where
  pub logical_repository : Text
  pub route : Text
  pub source : Text
  pub physical_repository : Text
  pub manifest_digest : Text
  pub object_digest : Text
  pub object_kind : Text
  pub access : Text
  pub user_id : Text
  pub created_at : Time
  pub updated_at : Time

abbrev pub access_user : Text
access_user = codes "user"

abbrev pub access_admin : Text
access_admin = codes "admin"

pub record User : Type 0 where
  pub id : Text
  pub username : Text
  pub password_hash : Text
  pub display_name : Text
  pub email : Text
  pub access : Text
  pub enabled : Bool
  pub created_at : Time
  pub updated_at : Time

-- An empty text and a zero time ask for nothing.
pub record RequestEventFilter : Type 0 where
  pub client_identity : Text
  pub credential_source : Text
  pub route : Text
  pub operation : Text
  pub source_or_destination : Text
  pub status : Text
  pub cache_result : Text
  pub error_classification : Text
  pub reference_contains : Text
  pub after : Time
  pub before : Time

pub record RequestEventCursor : Type 0 where
  pub timestamp : Time
  pub id : ℕ

pub record RequestEventQuery : Type 0 where
  pub filter : RequestEventFilter
  pub limit : ℤ
  pub cursor : Option RequestEventCursor
  pub oldest_first : Bool

pub record RequestEventPage : Type 0 where
  pub events : List RequestEvent
  pub next : Option RequestEventCursor

pub record RequestEventSummary : Type 0 where
  pub total : ℕ
  pub errors : ℕ
  pub denied_pushes : ℕ
  pub auth_failures : ℕ
  pub cache_hits : ℕ
  pub cache_misses : ℕ
  pub average : ℕ
  pub p95 : ℕ
