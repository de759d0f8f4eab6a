-- ===== src/Gateway/Denial.antt =====
-- What a request does that is not admitted.
use regstair.Base.{◌≡◌, refl, ap, ◌∙◌, ◌⊎◌, inl, inr, true, false, Option, some, Bool-cases}
use regstair.Strings.{codes, has_prefix, trim_prefix, trim_space}
use regstair.Strings.Search.{Casing}
use regstair.Errors.{Error}
use regstair.Identity.{Principal}
use regstair.Security.FailureLimiter.{allow}
use regstair.Gateway.Types.{Backend, Authenticator, Request, Headers, Response, State, Instants}
use regstair.Gateway.Paths.{request_scope, first_action, gateway_authentication_rate_keys}
use regstair.Gateway.Answers.{write_oci_error, write_auth_challenge}
use regstair.Gateway.Access.{
  Admission, refused, authenticate, judge_authentication, limit_authentication,
  settle_authentication, write_rate_limited,
}
use regstair.Gateway.Server.{serve_http, api_version}

-- The statuses of a refused request: 401 and 429.
abbrev pub IsRefusal : Response → Type 0
IsRefusal response = (response.status ≡ 401) ⊎ (response.status ≡ 429)

module _ {W : Type 0} where
  -- What the authenticator says to the bearer token for what the request is for.
  abbrev pub verdict : Authenticator W → Request → State W → (Principal × Option Error) × W
  verdict a r st =
      a.authenticate (trim_space (trim_prefix r.authorization (codes "Bearer ")))
        (request_scope r).0 (first_action (request_scope r).1) st.world

module _ ⦃k : Casing⦄ {W : Type 0} (at : Instants) where
  -- The request was refused, and of the state only the limiter may have changed.
  record Refused (st : State W) (outcome : Admission × State W) : Type 0 where
    response : Response
    final : State W
    is_refused : outcome ≡ (refused response, final)
    status : IsRefusal response
    uploads : final.uploads ≡ st.uploads
    next_id : final.next_id ≡ st.next_id
    world : final.world ≡ st.world

  limit_Refused :
      (w : Headers) (r : Request) (principal : Principal) (e : Error) (st : State W)
      → Refused st (limit_authentication at w r principal (some e) st)
  unfolding limit_authentication settle_authentication write_rate_limited write_auth_challenge
      write_oci_error
  limit_Refused w r principal e st =
      elim (Bool-cases
        (allow at.allowed_at (gateway_authentication_rate_keys r.remote_address principal.username)
          st.limiter).0.0) [
            | inl h ↦ rw h (record {
              response = _;
              final = _;
              is_refused = refl;
              status = inl refl;
              uploads = refl;
              next_id = refl;
              world = refl;
            })
            | inr h ↦ rw h (record {
              response = _;
              final = _;
              is_refused = refl;
              status = inr refl;
              uploads = refl;
              next_id = refl;
              world = refl;
            })
          ]

  authenticate_Refused :
      (a : Authenticator W) (w : Headers) (r : Request) (st : State W) (e : Error)
      → has_prefix r.authorization (codes "Bearer ") ≡ true
      → (verdict a r st).0.1 ≡ some e
      → Refused (record st { world = (verdict a r st).1 }) (authenticate at (some a) w r st)
  unfolding authenticate judge_authentication
  authenticate_Refused a w r st e carried rejected =
      rw (authenticate, carried, judge_authentication, rejected)
        (limit_Refused w r (verdict a r st).0.0 e (record st { world = (verdict a r st).1 }))

  authenticate-challenge :
      (a : Authenticator W) (w : Headers) (r : Request) (st : State W)
      → has_prefix r.authorization (codes "Bearer ") ≡ false
      → authenticate at (some a) w r st
        ≡ (refused (write_auth_challenge w r (request_scope r).0 (request_scope r).1), st)
  unfolding authenticate
  authenticate-challenge a w r st missing = rw missing refl

module _ ⦃k : Casing⦄ (b : Backend) (at : Instants) where
  serve_refused :
      (r : Request) (st : State b.World) (response : Response) (st' : State b.World)
      → authenticate at b.authenticator api_version r st ≡ (refused response, st')
      → serve_http b at r st ≡ (response, st')
  unfolding serve_http
  serve_refused r st response st' h = rw (serve_http, h) (ap (λ outcome. (response, outcome.1)) h)

module _ ⦃k : Casing⦄ (b : Backend) (at : Instants) (a : Authenticator b.World) where
  -- A request whose bearer token the authenticator does not accept for its repository and its
  -- action is answered with 401 or 429; no resolver and no store is called, and no upload changes.
  pub serve_http_denied :
      (r : Request) (st : State b.World) (e : Error)
      → b.authenticator ≡ some a
      → has_prefix r.authorization (codes "Bearer ") ≡ true
      → (verdict a r st).0.1 ≡ some e
      → IsRefusal (serve_http b at r st).0
        × ((serve_http b at r st).1.uploads ≡ st.uploads)
        × ((serve_http b at r st).1.next_id ≡ st.next_id)
        × ((serve_http b at r st).1.world ≡ (verdict a r st).1)
  serve_http_denied r st e configured carried rejected =
      let refusal = authenticate_Refused at a api_version r st e carried rejected in
      let answer : serve_http b at r st ≡ (refusal.response, refusal.final) =
        serve_refused b at r st refusal.response refusal.final
          (ap (λ o. authenticate at o api_version r st) configured ∙ refusal.is_refused) in
      rw answer (refusal.status, refusal.uploads, refusal.next_id, refusal.world)

  -- A request without a bearer token is answered with a challenge and changes nothing.
  pub serve_http-challenge :
      (r : Request) (st : State b.World)
      → b.authenticator ≡ some a
      → has_prefix r.authorization (codes "Bearer ") ≡ false
      → ((serve_http b at r st).0.status ≡ 401) × ((serve_http b at r st).1 ≡ st)
  unfolding write_auth_challenge write_oci_error
  serve_http-challenge r st configured missing =
      let answer = serve_refused b at r st _ st (
        ap (λ o. authenticate at o api_version r st) configured
        ∙ authenticate-challenge at a api_version r st missing) in
      rw answer (refl, refl)
