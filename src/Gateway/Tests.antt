-- ===== src/Gateway/Tests.antt =====
-- Requests to the gateway, and its theorems at these requests.
use Prim.Native.String.{String}
use regstair.Base.{
  ◌≡◌, refl, sym, inl, inr, pos, Bool-cases, true, false, none, some, List, [], ◌∷◌, ◌++◌, ◌==◌,
  if◌then◌else◌, arith,
}
use regstair.Strings.{Text, codes, text_eq, text_beq, text_beq_iff, has_prefix, contains}
use regstair.Strings.Search.{Casing, split_at, digits, decimal}
use regstair.Errors.{Part, ok, bare, invalid_access_token, unauthorized}
use regstair.Effects.{fail}
use regstair.Maps.{get, delete}
use regstair.Identity.{anonymous}
use regstair.Registry.Types.{reader, Bytes}
use regstair.Resolution.Tests.{latin, s, r, toy_digest, layer, cached_world, resolver_runs}
use regstair.Resolution.Assembly.{World}
use regstair.Gateway.Types.{Backend, Authenticator, Request, Instants, State, request_principal}
use regstair.Gateway.Paths.{
  blobs, checked_route, marked_route, parse_v2_path, request_scope, first_action, blobs_marker,
}
use regstair.Gateway.Answers.{
  write_oci_error, write_pull_error, write_push_error, write_auth_challenge,
}
use regstair.Gateway.Access.{authenticate, judge_authentication}
use regstair.Gateway.Uploads.{
  following_id, handle_start_upload, append_upload, store_upload, complete_upload, serve_session,
  handle_upload,
}
use regstair.Gateway.Server.{
  handle_blob, write_blob, serve_route, serve_admitted, serve_http, set_size,
}
use regstair.Gateway.Serving.{gateway_over, IsServed, serve_http-IsServed}
use regstair.Gateway.Denial.{IsRefusal, verdict, serve_http_denied}
use regstair.Gateway.Routes.{parse_v2_path-blobs}
use regstair.Gateway.Failures.{IsFailure, is_about_rights, write_errors_agree}
use regstair.Gateway.Sessions.{IsNumbered, IsStep}
use regstair.Gateway.Reach.{target, serve_http-IsStep}
use regstair.Gateway.Chunks.{IsLast, Follows, chunks_of, sent_digest, stored}
use regstair.Gateway.Refinement.{given_id, run_upload, upload_refines}

-- Casing that leaves the runes beyond ASCII alone.
instance abbrev no_casing : Casing
no_casing = record { lower_rune = λ c. c }

-- An authenticator that knows one token.
abbrev one_token : Authenticator World
one_token = record {
  issue = λ username secret repository actions. fail (bare invalid_access_token);
  authenticate = λ token repository action w.
      if token == codes "good"
      then ((anonymous, none), w)
      else ((anonymous, some (bare invalid_access_token)), w);
}

abbrev no_message : Bytes → List Part
no_message body = []

abbrev b : Backend
b = gateway_over s r no_message (some one_token)

abbrev at : Instants
at = record { allowed_at = 5; failed_at = 5; until_at = 5; issued_at = 5 }

abbrev st : State World
st = record { uploads = []; next_id = 0; limiter = none; world = cached_world }

abbrev request_to : String → Text → Text → Request
request_to method path authorization = record {
  method = codes method;
  path = path;
  query = [];
  authorization = authorization;
  forwarded_proto = [];
  tls = false;
  host = codes "h";
  remote_address = codes "10.0.0.1:5";
  basic_username = [];
  basic_secret = [];
  body = reader [];
}

abbrev blob_path : Text
blob_path = codes "/v2/app/blobs/" ++ toy_digest layer

abbrev blob_get : Request
blob_get = request_to "GET" blob_path (codes "Bearer good")

-- A proof by running the gateway names this.
gateway_runs : Unit {0}
unfolding resolver_runs split_at digits decimal delete checked_route marked_route parse_v2_path
    request_scope first_action write_oci_error write_pull_error write_auth_challenge authenticate
    judge_authentication following_id handle_start_upload append_upload store_upload complete_upload
    serve_session handle_upload handle_blob write_blob serve_route serve_admitted serve_http
    set_size request_principal
gateway_runs = tt

blob_is_served : (serve_http b at blob_get st).0.status ≡ 200
unfolding gateway_runs
blob_is_served = refl

-- What the path and the path's parts are.
blob_path_lem :
    (blob_path == codes "/v2/") ≡ false
    × ((toy_digest layer == codes "uploads/") ≡ false)
    × (has_prefix (toy_digest layer) (codes "uploads/") ≡ false)
unfolding gateway_runs
blob_path_lem = (refl, refl, refl)

blob_path_parsed :
    parse_v2_path blob_path
    ≡ some (record { repository = codes "app"; action = blobs; rest = toy_digest layer })
unfolding gateway_runs
blob_path_parsed = refl

serve_http-IsServed_example :
    (has_prefix blob_get.authorization (codes "Bearer ") ≡ true)
    × ((verdict one_token blob_get st).0.1 ≡ none)
    × IsServed s r no_message (codes "app") (toy_digest layer) (verdict one_token blob_get st).0.0
serve_http-IsServed_example =
    serve_http-IsServed s r no_message at one_token blob_get (codes "app") (toy_digest layer) st
      blob_path_lem.0 blob_path_parsed blob_path_lem.1 blob_path_lem.2 blob_is_served

-- A token that is not known.
abbrev bad_get : Request
bad_get = request_to "GET" blob_path (codes "Bearer bad")

bad_verdict :
    (has_prefix bad_get.authorization (codes "Bearer ") ≡ true)
    × ((verdict one_token bad_get st).0.1 ≡ some (bare invalid_access_token))
unfolding gateway_runs
bad_verdict = (refl, refl)

serve_http_denied_example :
    IsRefusal (serve_http b at bad_get st).0
    × ((serve_http b at bad_get st).1.uploads ≡ [])
    × ((serve_http b at bad_get st).1.next_id ≡ 0)
    × ((serve_http b at bad_get st).1.world ≡ (verdict one_token bad_get st).1)
serve_http_denied_example =
    serve_http_denied b at one_token bad_get st (bare invalid_access_token) refl bad_verdict.0
      bad_verdict.1

no_markers :
    (contains (codes "a/b" ++ blobs_marker ++ codes "uploads/1") (codes "/manifests/") ≡ false)
    × (contains (codes "a/b" ++ codes "/blobs") blobs_marker ≡ false)
unfolding contains has_prefix
no_markers = (refl, refl)

parse_v2_path-blobs_example :
    parse_v2_path (codes "/v2/" ++ codes "a/b" ++ blobs_marker ++ codes "uploads/1")
    ≡ some (record { repository = codes "a/b"; action = blobs; rest = codes "uploads/1" })
parse_v2_path-blobs_example =
    parse_v2_path-blobs (codes "a/b") (codes "uploads/1") (λ e. absurd (cc)) (λ e. absurd (cc))
      no_markers.0 no_markers.1

-- An upload by three requests.
abbrev start : Request
start = request_to "POST" (codes "/v2/app/blobs/uploads/") (codes "Bearer good")

abbrev chunk : Bytes → Request
chunk body = record (request_to "PATCH" (codes "/v2/app/blobs/uploads/1") (codes "Bearer good")) {
  body = reader body;
}

abbrev last : Request
last = record (request_to "PUT" (codes "/v2/app/blobs/uploads/1") (codes "Bearer good")) {
  query = (codes "digest", toy_digest (7 ∷ 8 ∷ 9 ∷ [])) ∷ [];
  body = reader (9 ∷ []);
}

abbrev chunks : List Request
chunks = chunk (7 ∷ []) ∷ chunk (8 ∷ []) ∷ []

upload_succeeds :
    ((run_upload b [] (codes "app") start chunks last st).0.status ≡ 201)
    × ((stored b (sent_digest last) (chunks_of (chunks ++ last ∷ [])) st.world).0
        ≡ ok (record { digest = toy_digest (7 ∷ 8 ∷ 9 ∷ []); size = pos 3 }))
unfolding gateway_runs
upload_succeeds = (refl, refl)

last-IsLast : IsLast last
unfolding gateway_runs
last-IsLast = record { is_put = refl; is_read = refl; has_digest = refl }

upload_refines_example :
    Follows b
      (given_id b [] (codes "app") st)
      (record { repository = codes "app"; body = 7 ∷ 8 ∷ 9 ∷ [] })
      (stored b (sent_digest last) (chunks_of (chunks ++ last ∷ [])) st.world).0
      (run_upload b [] (codes "app") start chunks last st)
    × ((run_upload b [] (codes "app") start chunks last st).1.world
        ≡ (stored b (sent_digest last) (chunks_of (chunks ++ last ∷ [])) st.world).1)
upload_refines_example =
    upload_refines b [] (codes "app") start chunks last st refl
      (record { is_patch = refl; is_read = refl }, (record { is_patch = refl; is_read = refl }, tt))
      last-IsLast

-- A session of another repository, which a start for this one leaves alone.
abbrev busy : State World
busy = record st {
  uploads = (decimal 1, record { repository = codes "other"; body = 1 ∷ [] }) ∷ [];
  next_id = 1;
}

busy_IsNumbered : IsNumbered busy.next_id busy.uploads
unfolding get
busy_IsNumbered = record {
  numbered = λ id session h. elim (Bool-cases (text_beq (decimal 1) id)) [
    | inl e ↦ (1, omega arith, sym ((text_beq_iff (decimal 1) id).0 e))
    | inr e ↦ absurd (ground (arith, h, e))
  ];
}

serve_http-IsStep_example : IsStep (target start) busy (serve_http b at start busy).1
serve_http-IsStep_example = serve_http-IsStep b at start busy busy_IsNumbered (omega arith)

write_errors_agree_example :
    IsFailure (write_pull_error [] (bare unauthorized))
    × IsFailure (write_push_error [] (bare unauthorized))
    × (is_about_rights [] (bare unauthorized) ≡ true
        → write_pull_error [] (bare unauthorized) ≡ write_push_error [] (bare unauthorized))
write_errors_agree_example = write_errors_agree [] (bare unauthorized)
