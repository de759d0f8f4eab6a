-- ===== src/Resolution/Tests.antt =====
-- Pulls and pushes through the assembled services, and the theorems of the resolvers at these runs.
use regstair.Base.{
  ◌+◌, pos, ◌≡◌, refl, ◌⊎◌, In, true, false, none, some, [], ◌∷◌, ◌++◌, length, filter, int_eq,
  nat_eq,
}
use regstair.Strings.{
  Text, codes, text_beq, text_ltb, trim, trim_space, trim_suffix, trim_prefix, trim_left,
  trim_right, contains as text_contains, has_prefix, has_suffix, is_space,
}
use regstair.Sorting.{sort, insert}
use regstair.Errors.{ok, err, bare, credential_required, errors_is, lit}
use regstair.Effects.{pure, fail, lift, attempt, ◌>>=◌}
use regstair.Maps.{Map, get, put, values}
use regstair.Identity.{Principal, kind_local_user, anonymous, event_identity}
use regstair.Registry.Types.{Bytes, Manifest}
use regstair.Registry.Parse.{parse_manifest, raw_digests, layer_digests}
use regstair.Registry.FakeConnector as F
use regstair.Registry.FakeConnector.{FakeConnector, new_fake_connector, add_blob, add_manifest}
use regstair.Content.FileStore as C
use regstair.Metadata.Types.{operation_pull, operation_push, access_challenge}
use regstair.Metadata.Users.{find_user_by_id}
use regstair.Metadata.Memory.{new_repository, next_updated_at}
use regstair.Metadata.Events.{record_request_event, validate_request_event, numbered}
use regstair.Metadata.Tags as T
use regstair.Metadata.Bindings as B
use regstair.Policy.Types as P
use regstair.Policy.Types.{Route, Engine, PullDecision, PushDecision}
use regstair.Policy.Normalize.{
  Unicode, normalize_repository, check_runes, is_digit, is_lower, is_supported,
}
use regstair.Policy.Patterns.{match_repository, apply}
use regstair.Policy.Validate.{contains}
use regstair.Policy.Engine.{
  pull_decision, push_decision, match_route, resolve_pull, resolve_push, first_match, decide_push,
  is_blocking, truncate_after,
}
use regstair.Resolution.Services.{Services, Resolver}
use regstair.Resolution.Assembly.{World, assembled, on_repository}
use regstair.Resolution.Records.{
  PullRequest, PullResult, PushRequest, PushResult, is_digest_reference, mapping_is_fresh,
  reference_string, pull_provenance, pull_tag_mapping, pull_success_event, cache_hit_event,
  push_provenance, push_success_event,
}
use regstair.Resolution.Recording.{record_cache_hit, record_successful_pull, record_successful_push}
use regstair.Resolution.Cache.{
  source_cache, anonymous_credential, binding_access, cache_bindings, cache_blobs, cache_manifest,
  ask_grant, consider_binding, authorize_bindings, authorize_cached_object, described,
  cached_manifest_by_digest, serve_cached, try_digest, serve_mapping, try_mapping, try_tag,
  try_cache,
}
use regstair.Resolution.Pull.{
  BlobRequest, BlobResult, authorized, connector_of, ask_source, accept_manifest, ask_sources,
  ask_upstream, serve_pull, pull, pull_result, refused_manifest, listed_size, open_pulled_blob,
}
use regstair.Resolution.Push.{
  push_result, verify_and_store_manifest, publish_blob, publish_blobs, publish_manifest, publish,
  serve_push, push,
}
use regstair.Resolution.Asking.{IsAnswered}
use regstair.Resolution.PullSources.{ComesFrom, pull-ComesFrom}
use regstair.Resolution.PushSafety.{IsPublished, push-IsPublished}
use regstair.Resolution.CacheResults.{FromCache}
use regstair.Auth.Selector.{
  SourceConfig, Accounts, authorize, authorize_user, authorize_bound, authorize_cache,
  connector_for, local_connector, user_connector,
}
use regstair.Auth.Entitlement.{IsEntitled, selector, pull-IsEntitled}
use regstair.Resolution.BlobAccess.{IsOpened, open_pulled_blob-IsOpened}

-- Tables that know no letter beyond Latin-1.
instance abbrev pub latin : Unicode
latin = record { lower = λ c. false; digit = λ c. false }

-- A digest that tells contents of different lengths below 10 apart.
abbrev pub toy_digest : Bytes → Text
toy_digest body =
    codes "sha256:000000000000000000000000000000000000000000000000000000000000000"
    ++ (48 + length body) ∷ []

abbrev pub layer : Bytes
layer = 1 ∷ 2 ∷ []

abbrev manifest_body : Bytes
manifest_body = 3 ∷ 4 ∷ 5 ∷ []

abbrev media : Text
media = codes "m"

abbrev pub s : Services
s =
    assembled
      (λ body.
        some (record { media_type = media; config_digest = []; layers = toy_digest layer ∷ [] }))
      toy_digest

abbrev app_manifest : Manifest
app_manifest = record {
  descriptor = record { media_type = media; digest = toy_digest manifest_body; size = pos 3 };
  content = manifest_body;
  blob_digests = toy_digest layer ∷ [];
}

abbrev all_routes : Route
all_routes = record {
  name = codes "all";
  match = codes "**";
  precedence = pos 1;
  pull_sources = codes "hub" ∷ [];
  authoritative = [];
  external_fallback = true;
  push_destination = codes "hub";
  push_denied = false;
  rewrite = record { strip_prefix = []; add_prefix = [] };
}

abbrev pub r : Resolver s
r = record {
  policy = record { routes = all_routes ∷ [] };
  connectors = (codes "hub", codes "hub") ∷ [];
  provider = none;
  authorizer = none;
}

-- The hub has the manifest and its layer.
abbrev full_hub : FakeConnector
full_hub = record (new_fake_connector (codes "hub")) {
  manifests = (codes "app@1", app_manifest) ∷ [];
  blobs = (toy_digest layer, layer) ∷ [];
}

abbrev world_with : FakeConnector → World
world_with hub = record {
  clock = 5;
  repository = new_repository;
  files = [];
  registries = (codes "hub", hub) ∷ [];
}

abbrev pull_request : PullRequest
pull_request = record { repository = codes "app"; reference = codes "1"; principal = anonymous }

abbrev decision : PullDecision
decision = pull_decision (codes "app") (codes "1") all_routes

-- A proof by running a resolver names this: it opens all that the resolvers call.
unfoldable pub resolver_runs : Unit {0}
unfolding text_beq contains normalize_repository trim trim_space trim_suffix text_contains
    check_runes is_digit is_lower is_supported insert sort has_prefix has_suffix is_space trim_left
    trim_right match_route first_match match_repository resolve_pull pull_decision resolve_push
    push_decision decide_push is_blocking truncate_after apply trim_prefix filter text_ltb errors_is
    pure fail lift attempt ◌>>=◌ get put values anonymous event_identity parse_manifest raw_digests
    layer_digests F.check_available F.resolve_manifest F.open_blob F.put_blob F.put_manifest
    F.check_blobs F.add_manifest F.manifest_key C.put_blob C.open_blob C.list_blobs C.finish_blob
    C.write_temp C.parse_digest C.parse_encoded C.cut_colon C.listed_blobs next_updated_at
    record_request_event validate_request_event numbered T.record_provenance
    T.validate_provenance_record T.retrieved T.record_tag_mapping T.validate_tag_mapping T.tag_key
    T.validated T.find_tag_mapping B.validate_cache_binding B.cache_binding_key
    B.validate_cache_bindings B.dated B.put_binding B.put_bindings B.record_cache_bindings
    B.list_cache_bindings is_digest_reference mapping_is_fresh reference_string record_cache_hit
    record_successful_pull record_successful_push pull_provenance pull_tag_mapping
    pull_success_event cache_hit_event push_provenance push_success_event binding_access
    cache_bindings cache_blobs cache_manifest ask_grant consider_binding authorize_bindings
    authorize_cached_object described cached_manifest_by_digest serve_cached try_digest
    serve_mapping try_mapping try_tag try_cache authorized connector_of ask_source accept_manifest
    ask_sources ask_upstream serve_pull pull pull_result refused_manifest listed_size
    open_pulled_blob push_result verify_and_store_manifest publish_blob publish_blobs
    publish_manifest publish serve_push push
resolver_runs = tt

abbrev first_result : PullResult
first_result = pull_result decision false (codes "hub") anonymous_credential app_manifest

first_pull : (pull s r pull_request (world_with full_hub)).0 ≡ ok first_result
unfolding resolver_runs
first_pull = refl

-- Behind the first pull, the hub is not asked again.
abbrev pub cached_world : World
cached_world = (pull s r pull_request (world_with full_hub)).1

abbrev cached_result : PullResult
cached_result = record {
  manifest = app_manifest;
  source = source_cache;
  route = codes "all";
  fallback_used = false;
  explanation =
      decision.explanation ++ (lit "served tag reference from fresh local cache mapping" ∷ []) ∷ [];
  credential_source = anonymous_credential;
}

second_pull : (pull s r pull_request cached_world).0 ≡ ok cached_result
unfolding resolver_runs
second_pull = refl

both_pulls_recorded : length cached_world.repository.events ≡ 1
unfolding resolver_runs
both_pulls_recorded = refl

abbrev blob_request : BlobRequest
blob_request = record { repository = codes "app"; digest = toy_digest layer; principal = anonymous }

abbrev blob_result : BlobResult
blob_result = record {
  content = record { body = layer; read_error = none; close_error = none };
  size = pos 2;
  credential_source = anonymous_credential;
}

blob_opened : (open_pulled_blob s r blob_request cached_world).0 ≡ ok blob_result
unfolding resolver_runs
blob_opened = refl

-- A hub that has nothing, and a store with the layer that the client has uploaded.
abbrev staged_world : World
staged_world = record (world_with (new_fake_connector (codes "hub"))) {
  files = ((codes "0000000000000000000000000000000000000000000000000000000000000002"), layer) ∷ [];
}

abbrev push_request : PushRequest
push_request = record {
  repository = codes "app";
  reference = codes "1";
  manifest = app_manifest;
  principal = anonymous;
}

abbrev pushed : PushResult
pushed =
    push_result (push_decision (codes "app") (codes "1") all_routes) anonymous_credential
      app_manifest.descriptor

push_succeeds : (push s r push_request staged_world).0 ≡ ok pushed
unfolding resolver_runs
push_succeeds = refl

-- What was pushed can be pulled.
pushed_can_be_pulled :
    (pull s r pull_request (push s r push_request staged_world).1).0 ≡ ok first_result
unfolding resolver_runs
pushed_can_be_pulled = refl

pull-ComesFrom_example :
    (d : PullDecision) × (resolve_pull r.policy
        (let p : P.PullRequest = record { repository = codes "app"; reference = codes "1" } in p)
      ≡ ok d)
    × (authorized s r anonymous operation_pull d.route_name ≡ true)
    × ComesFrom s r pull_request d cached_result
pull-ComesFrom_example = pull-ComesFrom s r pull_request cached_world cached_result second_pull

push-IsPublished_example :
    (d : PushDecision) × (resolve_push r.policy
        (let p : P.PushRequest = record { repository = codes "app"; reference = codes "1" } in p)
      ≡ ok d)
    × (authorized s r anonymous operation_push d.route_name ≡ true)
    × IsPublished s r push_request d pushed
push-IsPublished_example = push-IsPublished s r push_request staged_world pushed push_succeeds

open_pulled_blob-IsOpened_example :
    (d : PullDecision) × (resolve_pull r.policy (
        let p : P.PullRequest = record { repository = codes "app"; reference = toy_digest layer } in
        p)
      ≡ ok d)
    × (authorized s r anonymous operation_pull d.route_name ≡ true)
    × IsOpened s r blob_request d blob_result
open_pulled_blob-IsOpened_example =
    open_pulled_blob-IsOpened s r blob_request cached_world blob_result blob_opened

-- The same hub behind the selector, which uses the proxy's account for an active local user.
abbrev proxied_hub : Map Text SourceConfig
proxied_hub =
    (codes "hub", record { id = codes "hub"; enabled = true; strategy = codes "proxy" }) ∷ []

abbrev accounts : Accounts World Text
accounts = record {
  find_user_by_id = λ id. on_repository (λ now. find_user_by_id none id);
  find_registry_credential = λ user_id source_id. pure none;
  decrypt = λ id user_id source_id secret. none;
  factory = λ source username secret. none;
}

abbrev selecting : Resolver s
selecting = record r {
  provider = some (selector s accounts proxied_hub ((codes "hub", codes "hub") ∷ []));
  authorizer = some authorize;
}

abbrev ada : Principal
ada = record { kind = kind_local_user; id = codes "u1"; username = codes "ada" }

abbrev ada_world : World
ada_world = record (world_with full_hub) {
  repository = record new_repository {
    users =
        (
          codes "u1",
          record {
            id = codes "u1";
            username = codes "ada";
            password_hash = codes "hash";
            display_name = [];
            email = [];
            access = codes "user";
            enabled = true;
            created_at = 1;
            updated_at = 1;
          },
        )
        ∷ [];
  };
}

abbrev ada_request : PullRequest
ada_request = record pull_request { principal = ada }

abbrev ada_result : PullResult
ada_result = record cached_result { credential_source = codes "proxy" }

selector_runs : Unit {0}
unfolding resolver_runs authorize authorize_user authorize_bound authorize_cache connector_for
    local_connector user_connector find_user_by_id
selector_runs = tt

second_ada_pull :
    (pull s selecting ada_request (pull s selecting ada_request ada_world).1).0 ≡ ok ada_result
unfolding selector_runs
second_ada_pull = refl

-- Without an account, the object that was cached for the proxy is not served.
anonymous_is_refused :
    (pull s selecting pull_request (pull s selecting ada_request ada_world).1).0
    ≡ err (bare credential_required)
unfolding selector_runs
anonymous_is_refused = refl

pull-IsEntitled_example :
    (d : PullDecision) × (resolve_pull r.policy
        (let p : P.PullRequest = record { repository = codes "app"; reference = codes "1" } in p)
      ≡ ok d)
    × (((from : FromCache s selecting ada_request d ada_result) × ((from.binding.access
              ≡ access_challenge)
            ⊎ IsEntitled accounts proxied_hub ((codes "hub", codes "hub") ∷ []) ada from.binding))
        ⊎ (In ada_result.source d.candidate_sources
            × IsAnswered s selecting ada_request d ada_result.source ada_result.credential_source
                ada_result.manifest))
pull-IsEntitled_example =
    pull-IsEntitled s accounts proxied_hub ((codes "hub", codes "hub") ∷ []) selecting refl
      ada_request (pull s selecting ada_request ada_world).1 ada_result second_ada_pull
