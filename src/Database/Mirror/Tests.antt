-- ===== src/Database/Mirror/Tests.antt =====
-- Calls of the two repositories, one after the other, and the theorem about them at these calls.
use regstair.Base.{pos, ◌≡◌, refl, true, false, Bool, none, some, [], ◌∷◌, List}
use regstair.Strings.{codes}
use regstair.Strings.{text_beq, trim, trim_space, trim_left, trim_right, is_space}
use regstair.Maps.{put, get, delete, values}
use regstair.Metadata.Memory.{next_updated_at}
use regstair.Metadata.Users.{
  validate_user, store_user, create_user, replace_user, update_found, update_user,
  find_user_by_username, list_users,
}
use regstair.Metadata.Events.{
  record_request_event, validate_request_event, query_request_events, find_request_event_by_id,
  summarize_request_events, count_request_events, summary_of,
}
use regstair.Metadata.Tags.{record_tag_mapping, validate_tag_mapping, find_tag_mapping}
use regstair.Database.Mirror.Calls.{answered}
use regstair.Errors.{Result, ok, err, lit, plain_error}
use regstair.Metadata.Types.{User, RequestEvent, TagMapping, CacheBinding, access_user}
use regstair.Metadata.Memory.{Context, new_repository}
use regstair.Metadata.Events.{no_filter}
use regstair.Metadata.Bindings.{
  record_cache_bindings, validate_cache_bindings, validate_cache_binding, list_cache_bindings,
}
use regstair.Database.Mirror.Keys.{IsPlainBinding}
use regstair.Metadata.TagLaws.{HasNoColon}
use regstair.Database.Mirror.Calls.{
  Call, Answer, creates_user, updates_user, finds_username, lists_users, records_event,
  queries_events, counts_events, finds_event, summarizes_events, records_tag, finds_tag, sql_call,
  memory_call, answers, AllAgree, new_database, records_bindings, lists_bindings,
}
use regstair.Database.Mirror.Answers.{answers_same}

abbrev ada : User
ada = record {
  id = codes "u1";
  username = codes "ada";
  password_hash = codes "hash";
  display_name = [];
  email = [];
  access = access_user;
  enabled = true;
  created_at = 0;
  updated_at = 0;
}

abbrev pull : RequestEvent
pull = record {
  id = 0;
  timestamp = 0;
  operation = codes "pull";
  client_identity = codes "ada";
  credential_source = [];
  logical_reference = codes "team/app:1";
  matched_route = codes "r";
  source_or_destination = codes "hub";
  status = codes "success";
  cache_result = codes "miss";
  duration = 4;
  bytes_transferred = pos 7;
  error_classification = [];
  explanation = [];
}

abbrev release : TagMapping
release = record {
  logical_repository = codes "team/app";
  tag = codes "1";
  digest = codes "sha256:a";
  media_type = codes "m";
  size = pos 3;
  blob_digests = [];
  source = codes "hub";
  route = codes "r";
  resolved_at = 0;
  last_validated_at = 0;
  fresh_until = 0;
}

abbrev proxied : CacheBinding
proxied = record {
  logical_repository = codes "app";
  route = codes "r";
  source = codes "c";
  physical_repository = codes "p";
  manifest_digest = codes "m";
  object_digest = codes "o";
  object_kind = codes "blob";
  access = codes "proxy";
  user_id = [];
  created_at = 0;
  updated_at = 0;
}

-- A user is made, made again, changed, changed once more on the old version, and found; events are
-- recorded and asked for in pages; a tag is recorded twice; bindings are recorded and listed; one context is done.
abbrev script : List (Context × Call)
script =
    (none, creates_user 5 ada)
    ∷ (none, creates_user 6 (record ada { id = codes "u2" }))
    ∷ (none, updates_user 7 (record ada { username = codes "eve" }) 5)
    ∷ (none, updates_user 8 ada 5)
    ∷ (none, finds_username (codes "ada"))
    ∷ (none, lists_users)
    ∷ (none, records_event 9 pull)
    ∷ (none, records_event 10 (record pull { operation = codes "push" }))
    ∷ (
      none,
      queries_events
          (record { filter = no_filter; limit = pos 1; cursor = none; oldest_first = false }),
    )
    ∷ (none, finds_event (pos 1))
    ∷ (none, summarizes_events 0)
    ∷ (none, records_tag 11 release)
    ∷ (none, records_tag 12 (record release { digest = codes "sha256:b" }))
    ∷ (none, finds_tag (codes "team/app") (codes "1"))
    ∷ (none, records_bindings 13 (proxied ∷ record proxied { source = codes "b" } ∷ proxied ∷ []))
    ∷ (none, lists_bindings (codes "app") (codes "r") (codes "o"))
    ∷ (some (plain_error (lit "context canceled" ∷ [])), counts_events no_filter)
    ∷ []

abbrev is_answered : List (Result Answer) → List Bool
is_answered [] = []
is_answered (ok a ∷ rs) = true ∷ is_answered rs
is_answered (err e ∷ rs) = false ∷ is_answered rs

-- Which calls of the script succeed.
script_answered :
    is_answered (answers memory_call script new_repository)
    ≡ true ∷ false ∷ true ∷ false ∷ true ∷ true ∷ true ∷ true ∷ true ∷ true ∷ true ∷ true ∷ true
      ∷ true ∷ true ∷ true ∷ false ∷ []
unfolding answers memory_call answered text_beq trim trim_space trim_left trim_right is_space put
    get delete values next_updated_at validate_user store_user create_user replace_user update_found
    update_user find_user_by_username list_users record_request_event validate_request_event
    query_request_events find_request_event_by_id summarize_request_events record_tag_mapping
    validate_tag_mapping find_tag_mapping count_request_events summary_of record_cache_bindings
    validate_cache_bindings validate_cache_binding list_cache_bindings
script_answered = refl

answers_same_example :
    AllAgree (answers sql_call script new_database) (answers memory_call script new_repository)
answers_same_example = answers_same script (
  tt,
  (
    tt,
    (
      tt,
      (
        tt,
        (
          tt,
          (
            tt,
            (
              tt,
              (
                tt,
                (
                  tt,
                  (
                    tt,
                    (
                      tt,
                      (plain, (plain, (plain, ((bound, (other, (bound, tt))), (tt, (tt, tt)))))),
                    ),
                  ),
                ),
              ),
            ),
          ),
        ),
      ),
    ),
  ),
)
  where
    plain : HasNoColon (codes "team/app")
    plain = (refl, (refl, (refl, (refl, (refl, (refl, (refl, (refl, tt))))))))

    bound : IsPlainBinding proxied
    bound = (
      (refl, (refl, (refl, tt))),
      (refl, tt),
      (refl, tt),
      (refl, tt),
      (refl, tt),
      (refl, (refl, (refl, (refl, (refl, tt))))),
    )

    other : IsPlainBinding (record proxied { source = codes "b" })
    other = (
      (refl, (refl, (refl, tt))),
      (refl, tt),
      (refl, tt),
      (refl, tt),
      (refl, tt),
      (refl, (refl, (refl, (refl, (refl, tt))))),
    )
