-- ===== src/Gateway/Access.antt =====
-- Who may call the gateway: authenticate and ServeTokenHTTP of internal/gateway/server.go.
use regstair.Base.{
  ℕ, ◌+◌, ◌-◌, ◌/◌, Bool, true, ◌&&◌, not, Option, none, some, List, [], ◌∷◌, ◌==◌, leb,
  if◌then◌else◌,
}
use regstair.Strings.{Text, text_eq, codes, has_prefix, trim_prefix, trim_space}
use regstair.Strings.Search.{Casing, decimal}
use regstair.Errors.{Error, ok, err, lit}
use regstair.Identity.{Principal, kind_anonymous}
use regstair.Security.FailureLimiter.{allow, failure, success}
use regstair.Gateway.Types.{
  Authenticator, Request, query_get, Headers, token, Response, State, call, Instants, method_get,
}
use regstair.Gateway.Paths.{
  request_scope, first_action, parse_token_scope, gateway_authentication_rate_keys,
}
use regstair.Gateway.Answers.{set, write_oci_error, write_auth_challenge, not_allowed}

-- max(int64(retry.Round(time.Second)/time.Second), 1), for a wait in nanoseconds
unfoldable pub retry_seconds : ℕ → ℕ
retry_seconds retry =
    let seconds = (retry + 500_000_000) / 1_000_000_000 in if leb 1 seconds then seconds else 1

-- max(int64(time.Until(expiresAt).Seconds()), 1)
unfoldable pub seconds_left : ℕ → ℕ → ℕ
seconds_left until now =
    let seconds = (until - now) / 1_000_000_000 in if leb 1 seconds then seconds else 1

unfoldable pub write_rate_limited : Headers → ℕ → Response
write_rate_limited w retry =
    write_oci_error (set (codes "Retry-After") (decimal (retry_seconds retry)) w) 429
      (codes "TOOMANYREQUESTS") (lit "authentication temporarily unavailable" ∷ [])

-- What authenticate gives: an answer that was written, or the request with the principal of its
-- context.
pub data Admission : Type 0 where
  refused : Response → Admission
  admitted : Option Principal → Admission

abbrev bearer : Text
bearer = codes "Bearer "

module _ ⦃k : Casing⦄ {W : Type 0} (at : Instants) where
  -- Behind the limiter: what the authenticator said counts.
  unfoldable pub settle_authentication :
      Headers → Request → List Text → Principal → Option Error → State W → Admission × State W
  settle_authentication w r keys principal (some e) st =
      let (repository, actions) = request_scope r in
      (
        refused (write_auth_challenge w r repository actions),
        record st { limiter = failure at.failed_at keys st.limiter },
      )
  settle_authentication w r keys principal none st =
      (admitted (some principal), record st { limiter = success keys st.limiter })

  -- A principal that is not anonymous, or an error.
  unfoldable pub limit_authentication :
      Headers → Request → Principal → Option Error → State W → Admission × State W
  limit_authentication w r principal failed st =
      let keys = gateway_authentication_rate_keys r.remote_address principal.username in
      let ((allowed, retry), limiter) = allow at.allowed_at keys st.limiter in
      let st = record st { limiter = limiter } in
      if not allowed
      then (refused (write_rate_limited w retry), st)
      else settle_authentication w r keys principal failed st

  unfoldable pub judge_authentication :
      Headers → Request → Principal → Option Error → State W → Admission × State W
  judge_authentication w r principal (some e) st = limit_authentication w r principal (some e) st
  judge_authentication w r principal none st =
      if principal.kind == kind_anonymous
      then (admitted (some principal), st)
      else limit_authentication w r principal none st

  unfoldable pub authenticate :
      Option (Authenticator W) → Headers → Request → State W → Admission × State W
  authenticate none w r st = (admitted none, st)
  authenticate (some a) w r st =
      let (repository, actions) = request_scope r in
      if not (has_prefix r.authorization bearer)
      then (refused (write_auth_challenge w r repository actions), st)
      else let ((principal, failed), world) =
          a.authenticate (trim_space (trim_prefix r.authorization bearer)) repository
            (first_action actions) st.world in
        judge_authentication w r principal failed (record st { world = world })

  -- The limiter is only asked about a user.
  unfoldable pub limit_user : Text → List Text → State W → (Bool × ℕ) × State W
  limit_user username keys st =
      if username == []
      then ((true, 0), st)
      else let (answer, limiter) = allow at.allowed_at keys st.limiter in
        (answer, record st { limiter = limiter })

  -- A token is asked for, and what comes of it is counted for a user.
  unfoldable pub issue_token :
      Authenticator W
      → Headers
      → Request
      → List Text
      → Text
      → List Text
      → State W
      → Response × State W
  issue_token a w r keys repository actions st =
      let (issued, st) = call (a.issue r.basic_username r.basic_secret repository actions) st in
      elim issued [
        | err e ↦ (
          write_auth_challenge w r repository actions,
          if r.basic_username == []
              then st
              else record st { limiter = failure at.failed_at keys st.limiter },
        )
        | ok (text, expires_at) ↦ (
          record {
            status = 200;
            headers = set (codes "Content-Type") (codes "application/json") w;
            body = token text (seconds_left expires_at at.until_at) at.issued_at;
          },
          if r.basic_username == [] then st else record st { limiter = success keys st.limiter },
        )
      ]

  unfoldable pub serve_token_http : Authenticator W → Request → State W → Response × State W
  serve_token_http a r st =
      let w =
        set (codes "Pragma") (codes "no-cache")
          (set (codes "Cache-Control") (codes "no-store") []) in
      let service = query_get r (codes "service") in
      if not (r.method == method_get)
      then (not_allowed w, st)
      else if not (service == []) && not (service == codes "regstair")
      then (write_oci_error w 400 (codes "DENIED") (lit "invalid token service" ∷ []), st)
      else elim (parse_token_scope (query_get r (codes "scope"))) [
        | none ↦ (write_oci_error w 400 (codes "DENIED") (lit "invalid repository scope" ∷ []), st)
        | some (repository, actions) ↦
            let keys = gateway_authentication_rate_keys r.remote_address r.basic_username in
            let ((allowed, retry), st) = limit_user r.basic_username keys st in
            if not allowed
            then (write_rate_limited w retry, st)
            else issue_token a w r keys repository actions st
      ]
