-- ===== src/Gateway/Sound.antt =====
-- What comes out of the gateway with status 200.
use regstair.Base.{◌≡◌, refl, inl, inr, true, Option, none, some, ◌==◌, Bool-cases}
use regstair.Strings.{text_eq, codes, has_prefix}
use regstair.Strings.Search.{Casing}
use regstair.Errors.{Error}
use regstair.Identity.{Principal, kind_anonymous}
use regstair.Security.FailureLimiter.{allow}
use regstair.Gateway.Types.{Authenticator, Request, Headers, State, Instants}
use regstair.Gateway.Paths.{gateway_authentication_rate_keys}
use regstair.Gateway.Answers.{write_oci_error, write_auth_challenge}
use regstair.Gateway.Access.{
  Admission, refused, admitted, authenticate, judge_authentication, limit_authentication,
  settle_authentication, write_rate_limited,
}
use regstair.Gateway.Denial.{IsRefusal, verdict}

-- A refusal has status 401 or 429; who is admitted is whom the authenticator named without error.
abbrev pub IsSound : (Principal × Option Error) → Admission → Type 0
IsSound said (refused response) = IsRefusal response
IsSound said (admitted principal) = (principal ≡ some said.0) × (said.1 ≡ none)

module _ ⦃k : Casing⦄ {W : Type 0} (at : Instants) (w : Headers) (r : Request) where
  limit-IsSound :
      (principal : Principal) (failed : Option Error) (st : State W)
      → IsSound (principal, failed) (limit_authentication at w r principal failed st).0
  unfolding limit_authentication settle_authentication write_rate_limited write_auth_challenge
      write_oci_error
  limit-IsSound principal failed st =
      elim (Bool-cases
        (allow at.allowed_at (gateway_authentication_rate_keys r.remote_address principal.username)
          st.limiter).0.0) [ inr e ↦ rw e (inr refl) | inl e ↦ rw e (settled failed) ]
    where
      settled :
          (failed : Option Error)
          → IsSound
              (principal, failed)
              (settle_authentication at w r
                (gateway_authentication_rate_keys r.remote_address principal.username)
                principal
                failed
                (record st {
                  limiter =
                      (allow at.allowed_at
                        (gateway_authentication_rate_keys r.remote_address principal.username)
                        st.limiter).1;
                })).0
      settled none = (refl, refl)
      settled (some e) = inl refl

  judge-IsSound :
      (principal : Principal) (failed : Option Error) (st : State W)
      → IsSound (principal, failed) (judge_authentication at w r principal failed st).0
  unfolding judge_authentication
  judge-IsSound principal (some e) st = limit-IsSound principal (some e) st
  judge-IsSound principal none st = elim (Bool-cases (principal.kind == kind_anonymous)) [
    | inl e ↦ rw e (refl, refl)
    | inr e ↦ rw e (limit-IsSound principal none st)
  ]

  pub authenticate-IsSound :
      (a : Authenticator W) (st : State W)
      → IsSound (verdict a r st).0 (authenticate at (some a) w r st).0
  unfolding authenticate write_auth_challenge write_oci_error
  authenticate-IsSound a st = elim (Bool-cases (has_prefix r.authorization (codes "Bearer "))) [
    | inr e ↦ rw e (inl refl)
    | inl e ↦ rw e (judge-IsSound _ _ _)
  ]

  -- Who is admitted sent a bearer token.
  pub authenticate_bearer :
      (a : Authenticator W) (st : State W) (principal : Option Principal)
      → (authenticate at (some a) w r st).0 ≡ admitted principal
      → has_prefix r.authorization (codes "Bearer ") ≡ true
  unfolding authenticate
  authenticate_bearer a st principal h =
      elim (Bool-cases (has_prefix r.authorization (codes "Bearer "))) [
        | inl e ↦ e
        | inr e ↦
            let refusal : refused _ ≡ admitted principal = rw (authenticate, e) at h in absurd (cc)
      ]
