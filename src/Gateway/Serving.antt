-- ===== src/Gateway/Serving.antt =====
-- The gateway over the resolvers, as the application of internal/app/app.go puts it together: which
-- blobs it serves to whom.
use regstair.Base.{
  ◌≡◌, refl, subst, inl, inr, true, false, Option, none, some, [], ◌==◌, Bool-cases, arith,
}
use regstair.Strings.{Text, text_eq, codes, has_prefix}
use regstair.Strings.Search.{Casing}
use regstair.Errors.{Message, ok, Result-cases, errors_is, blob_not_found}
use regstair.Identity.{Principal}
use regstair.Registry.Types.{Bytes}
use regstair.Metadata.Types.{operation_pull}
use regstair.Policy.Types.{PullDecision}
use regstair.Policy.Normalize.{Unicode}
use regstair.Policy.Engine.{resolve_pull}
use regstair.Resolution.Services.{Services, Resolver}
use regstair.Resolution.Pull.{BlobRequest, BlobResult, authorized, pull, open_pulled_blob}
use regstair.Resolution.Push.{push}
use regstair.Resolution.BlobAccess.{IsOpened, blob_policy_request, open_pulled_blob-IsOpened}
use regstair.Gateway.Types.{
  Backend, Authenticator, Request, Headers, State, Instants, request_principal,
}
use regstair.Gateway.Paths.{blobs, reads, parse_v2_path}
use regstair.Gateway.Answers.{write_oci_error}
use regstair.Gateway.Access.{Admission, refused, admitted, authenticate}
use regstair.Gateway.Server.{handle_blob, serve_route, serve_admitted, serve_http, api_version}
use regstair.Gateway.Failures.{write_pull_error-IsFailure}
use regstair.Gateway.Sound.{IsSound, authenticate-IsSound, authenticate_bearer}
use regstair.Gateway.Denial.{IsRefusal, verdict}

module _ ⦃u : Unicode⦄ (s : Services) (resolver : Resolver s)
    (unmarshal_error : Bytes → Message) where
  -- gateway.NewServer with the store, the resolvers and the authenticator
  abbrev pub gateway_over : Option (Authenticator s.World) → Backend
  gateway_over authenticator = record {
    World = s.World;
    puller = some (pull s resolver);
    blob_puller = some (open_pulled_blob s resolver);
    pusher = some (push s resolver);
    put_blob = s.put_blob;
    list_blobs = s.list_blobs;
    authenticator = authenticator;
    unmarshal = s.unmarshal;
    unmarshal_error = unmarshal_error;
    digest_bytes = s.digest_bytes;
  }

  -- A blob was opened for a principal.
  pub record IsServed (repository digest : Text) (principal : Principal) : Type 0 where
    pub request : BlobRequest
    pub is_asked :
        request ≡ record { repository = repository; digest = digest; principal = principal }
    pub decision : PullDecision
    pub decided :
        resolve_pull resolver.policy (blob_policy_request s resolver request) ≡ ok decision
    pub allowed : authorized s resolver principal operation_pull decision.route_name ≡ true
    pub result : BlobResult
    pub opened : IsOpened s resolver request decision result

  module _ (authenticator : Option (Authenticator s.World)) (w : Headers) (r : Request)
      (principal : Principal) where
    handle_blob-IsServed :
        (repository digest : Text) (st : State s.World)
        → (handle_blob (gateway_over authenticator) w r repository digest principal st).0.status
          ≡ 200
        → IsServed repository digest principal
    unfolding handle_blob write_oci_error
    handle_blob-IsServed repository digest st h = elim (Bool-cases (digest == [])) [
      | inl e ↦ absurd (omega (arith, rw (handle_blob, e) at h))
      | inr e ↦ elim (Bool-cases (reads r.method)) [
        | inr p ↦ absurd (omega (arith, rw (handle_blob, e, p) at h))
        | inl p ↦
            let request : BlobRequest = record {
              repository = repository;
              digest = digest;
              principal = principal;
            } in
            elim (Result-cases (open_pulled_blob s resolver request st.world).0) [
              | inl (result, q) ↦
                  let (decision, decided, allowed, opened) =
                    open_pulled_blob-IsOpened s resolver request st.world result q in
                  record {
                    request = request;
                    is_asked = refl;
                    decision = decision;
                    decided = decided;
                    allowed = allowed;
                    result = result;
                    opened = opened;
                  }
              | inr (failed, q) ↦ elim (Bool-cases (errors_is failed blob_not_found)) [
                | inl c ↦ absurd (omega (arith, rw (handle_blob, e, p, q, c) at h))
                | inr c ↦
                    let (least, most) = write_pull_error-IsFailure w failed in
                    absurd (omega (arith, least, rw (handle_blob, e, p, q, c) at h))
              ]
            ]
      ]
    ]

    serve_admitted-IsServed :
        (repository digest : Text) (st : State s.World)
        → (r.path == codes "/v2/") ≡ false
        → parse_v2_path r.path
          ≡ some (record { repository = repository; action = blobs; rest = digest })
        → (digest == codes "uploads/") ≡ false
        → has_prefix digest (codes "uploads/") ≡ false
        → (serve_admitted (gateway_over authenticator) w r principal st).0.status ≡ 200
        → IsServed repository digest principal
    unfolding serve_admitted serve_route
    serve_admitted-IsServed repository digest st other parsed no_start no_upload h =
        handle_blob-IsServed repository digest st
          (rw (serve_admitted, other, parsed, serve_route, no_start, no_upload) at h)

  -- A blob path that is answered with 200 was asked for with a bearer token that the authenticator
  -- accepted for the repository and the action of the request; the policy has a route for that
  -- repository, the principal of the token is authorized to pull by it, and a cache binding of the
  -- blob lets the principal have it.
  pub serve_http-IsServed :
      ⦃k : Casing⦄ (at : Instants) (a : Authenticator s.World) (r : Request)
      (repository digest : Text) (st : State s.World)
      → (r.path == codes "/v2/") ≡ false
      → parse_v2_path r.path
        ≡ some (record { repository = repository; action = blobs; rest = digest })
      → (digest == codes "uploads/") ≡ false
      → has_prefix digest (codes "uploads/") ≡ false
      → (serve_http (gateway_over (some a)) at r st).0.status ≡ 200
      → (has_prefix r.authorization (codes "Bearer ") ≡ true)
        × ((verdict a r st).0.1 ≡ none)
        × IsServed repository digest (verdict a r st).0.0
  unfolding serve_http request_principal
  serve_http-IsServed at a r repository digest st other parsed no_start no_upload h =
      go (authenticate at (some a) api_version r st).0 refl
    where
      mid : State s.World
      mid = (authenticate at (some a) api_version r st).1

      go :
          (admission : Admission)
          → (authenticate at (some a) api_version r st).0 ≡ admission
          → (has_prefix r.authorization (codes "Bearer ") ≡ true)
            × ((verdict a r st).0.1 ≡ none)
            × IsServed repository digest (verdict a r st).0.0
      go (refused response) e =
          let status : response.status ≡ 200 = rw (serve_http, e) at h in
          let refusal : IsRefusal response =
            subst (IsSound (verdict a r st).0) e (authenticate-IsSound at api_version r a st) in
          absurd (ground (arith, status, refusal))
      go (admitted principal) e =
          let (named, accepted) =
            subst (IsSound (verdict a r st).0) e (authenticate-IsSound at api_version r a st) in
          let served : IsServed repository digest (request_principal principal) =
            serve_admitted-IsServed (some a) api_version r (request_principal principal) repository
              digest mid other parsed no_start no_upload (rw (serve_http, e) at h) in
          (
            authenticate_bearer at api_version r a st principal e,
            accepted,
            subst (λ p. IsServed repository digest (request_principal p)) named served,
          )
