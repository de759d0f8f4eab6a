-- ===== src/Metadata/Tests.antt =====
-- Runs of the MemoryRepository, and its theorems at these runs.
use regstair.Base.{
  ℕ, ◌*◌, ◌≤◌, pos, ◌≡◌, ◌⊎◌, ◌/◌, refl, inl, true, not, ◌&&◌, ◌==◌, none, some, List, [], ◌∷◌,
  length, filter, leb, In, if◌then◌else◌,
}
use regstair.Strings.{
  codes, text_eq, text_beq, text_ltb, trim, trim_space, trim_left, trim_right, is_space,
}
use regstair.Sorting.{sort, insert}
use regstair.Errors.{ok, err}
use regstair.Maps.{get, put, delete, values}
use regstair.Metadata.Types.{
  RequestEvent, RequestEventPage, TagMapping, CacheBinding, User, access_user,
  access_current_user_required, operation_pull, status_success, cache_miss,
}
use regstair.Metadata.Memory.{Repository, new_repository, next_updated_at}
use regstair.Metadata.Users.{
  modified, validate_user, store_user, create_user, replace_user, update_found, update_user,
  find_user_by_id, find_user_by_username,
}
use regstair.Metadata.Events.{
  sum, get_elem?, numbered, record_request_event, validate_request_event, find_event,
  find_request_event_by_id, summarize_durations, no_filter, query_request_events,
  count_request_events,
}
use regstair.Metadata.Tags.{
  validate_tag_mapping, validated, tag_key, record_tag_mapping, find_tag_mapping,
}
use regstair.Metadata.Bindings.{
  validate_cache_binding, validate_cache_bindings, dated, put_binding, put_bindings,
  cache_binding_key, record_cache_bindings, list_cache_bindings,
}
use regstair.Metadata.Steps.{Reachable, new, after, creates_user, records_event, records_bindings}
use regstair.Metadata.UserLaws.{find_user_by_username_found, update_user_once}
use regstair.Metadata.EventLaws.{
  find_request_event_by_id_nth, all_matching, count_request_events-query_request_events,
}
use regstair.Metadata.Percentile.{summarize_durations_p95}
use regstair.Metadata.TagLaws.{find_tag_mapping-record_tag_mapping}
use regstair.Metadata.BindingLaws.{list_cache_bindings_user}

abbrev ada : User
ada = record {
  id = codes "u1";
  username = codes "ada";
  password_hash = codes "hash";
  display_name = [];
  email = [];
  access = access_user;
  enabled = true;
  created_at = 0;
  updated_at = 0;
}

-- A proof by running the repository names this: it opens all that its methods call.
repository_runs : Unit {0}
unfolding text_beq text_ltb trim trim_space trim_left trim_right is_space sort insert get put delete
    values filter next_updated_at validate_user store_user create_user replace_user update_found
    update_user find_user_by_id find_user_by_username numbered record_request_event
    validate_request_event find_event find_request_event_by_id validate_tag_mapping validated
    tag_key record_tag_mapping find_tag_mapping validate_cache_binding validate_cache_bindings dated
    put_binding put_bindings cache_binding_key record_cache_bindings list_cache_bindings
repository_runs = tt

abbrev with_ada : Repository
with_ada = (create_user none 5 ada new_repository).1

abbrev ada_stored : User
ada_stored = record ada { created_at = 5; updated_at = 5 }

with_ada_reached : Reachable with_ada
with_ada_reached = after new_repository with_ada new (creates_user none 5 ada)

find_user_by_username_found_example :
    (ada_stored.username ≡ codes "ada")
    × ((find_user_by_id none ada_stored.id with_ada).0 ≡ ok (some ada_stored))
find_user_by_username_found_example =
    find_user_by_username_found with_ada (codes "ada") ada_stored with_ada_reached found
  where
    found : (find_user_by_username none (codes "ada") with_ada).0 ≡ ok (some ada_stored)
    found = unfold repository_runs in refl

abbrev ada_renamed : User
ada_renamed = record ada { username = codes "countess" }

update_user_once_example :
    (update_user none 9 ada 5 (update_user none 7 ada_renamed 5 with_ada).1).0 ≡ err (modified ada)
update_user_once_example =
    update_user_once 7 ada_renamed 5 with_ada
      (record ada_renamed { created_at = 5; updated_at = 7 }) first 9 ada valid refl
  where
    first :
        (update_user none 7 ada_renamed 5 with_ada).0
        ≡ ok (some (record ada_renamed { created_at = 5; updated_at = 7 }))
    first = unfold repository_runs in refl

    valid : validate_user ada ≡ ok tt
    valid = unfold repository_runs in refl

abbrev pulled_event : RequestEvent
pulled_event = record {
  id = 0;
  timestamp = 3;
  operation = operation_pull;
  client_identity = [];
  credential_source = [];
  logical_reference = codes "app:1";
  matched_route = [];
  source_or_destination = [];
  status = status_success;
  cache_result = cache_miss;
  duration = 4;
  bytes_transferred = pos 0;
  error_classification = [];
  explanation = [];
}

abbrev with_event : Repository
with_event = (record_request_event none 5 pulled_event with_ada).1

find_request_event_by_id_nth_example :
    (find_request_event_by_id none (pos 1) with_event).0 ≡ ok (get_elem? with_event.events 0)
find_request_event_by_id_nth_example =
    find_request_event_by_id_nth with_event 0
      (after with_ada with_event with_ada_reached (records_event none 5 pulled_event))

event_is_found :
    (find_request_event_by_id none (pos 1) with_event).0
    ≡ ok (some (record pulled_event { id = 1 }))
unfolding repository_runs
event_is_found = refl

abbrev durations : List ℕ
durations = 7 ∷ 2 ∷ []

summarize_durations_p95_example :
    (average p95 : ℕ) × (summarize_durations durations ≡ some (average, p95))
    × (((durations ≡ []) × (average ≡ 0) × (p95 ≡ 0))
        ⊎ ((average ≡ sum durations / length durations)
            × In p95 durations
            × (95 * length durations ≤ 100 * length (filter (λ d. leb d p95) durations))))
summarize_durations_p95_example = summarize_durations_p95 durations

abbrev app_mapping : TagMapping
app_mapping = record {
  logical_repository = codes "app";
  tag = codes "1";
  digest = codes "sha256:00";
  media_type = codes "m";
  size = pos 3;
  blob_digests = [];
  source = codes "hub";
  route = codes "all";
  resolved_at = 0;
  last_validated_at = 0;
  fresh_until = 0;
}

find_tag_mapping-record_tag_mapping_example :
    (find_tag_mapping none
      (codes "app")
      (codes "1")
      (record_tag_mapping none 5 app_mapping with_ada).1).0
    ≡ (if codes "app" == app_mapping.logical_repository && codes "1" == app_mapping.tag
        then ok (some (validated 5 app_mapping))
        else (find_tag_mapping none (codes "app") (codes "1") with_ada).0)
find_tag_mapping-record_tag_mapping_example =
    find_tag_mapping-record_tag_mapping 5 app_mapping with_ada accepted (refl, (refl, (refl, tt)))
      (codes "app") (codes "1") (refl, (refl, (refl, tt)))
  where
    accepted : validate_tag_mapping app_mapping ≡ ok tt
    accepted = unfold repository_runs in refl

abbrev own_binding : CacheBinding
own_binding = record {
  logical_repository = codes "app";
  route = codes "all";
  source = codes "hub";
  physical_repository = codes "app";
  manifest_digest = codes "sha256:00";
  object_digest = codes "sha256:00";
  object_kind = codes "manifest";
  access = access_current_user_required;
  user_id = codes "u1";
  created_at = 6;
  updated_at = 6;
}

abbrev with_binding : Repository
with_binding = (record_cache_bindings none 6 (own_binding ∷ []) with_ada).1

list_cache_bindings_user_example :
    (own_binding.logical_repository ≡ codes "app")
    × (own_binding.route ≡ codes "all")
    × (own_binding.object_digest ≡ codes "sha256:00")
    × (text_beq own_binding.access access_current_user_required
        ≡ not (text_beq own_binding.user_id []))
list_cache_bindings_user_example =
    list_cache_bindings_user with_binding (codes "app") (codes "all") (codes "sha256:00")
      (own_binding ∷ []) own_binding
      (after with_ada with_binding with_ada_reached (records_bindings none 6 (own_binding ∷ [])))
      listed (inl refl)
  where
    listed :
        (list_cache_bindings none (codes "app") (codes "all") (codes "sha256:00") with_binding).0
        ≡ ok (own_binding ∷ [])
    listed = unfold repository_runs in refl

count_request_events-query_request_events_example :
    (page : RequestEventPage) × ((query_request_events none (all_matching no_filter) with_event).0
      ≡ ok page)
    × (page.next ≡ none)
    × ((count_request_events none no_filter with_event).0 ≡ ok (length page.events))
count_request_events-query_request_events_example =
    count_request_events-query_request_events no_filter with_event
