-- ===== src/Gateway/Failures.antt =====
-- The answers to failures of the resolvers.
use regstair.Base.{◌≤◌, ◌≡◌, Bool, true, arith, [], ◌∷◌}
use regstair.Errors.{
  Error, errors_is_any, credential_required, credential_unavailable, authentication, authorization,
  unauthorized,
}
use regstair.Gateway.Types.{Headers, Response}
use regstair.Gateway.Answers.{write_oci_error, write_pull_error, write_push_error}

-- An error of HTTP.
abbrev pub IsFailure : Response → Type 0
IsFailure response = (400 ≤ response.status) × (response.status ≤ 599)

module _ (w : Headers) (e : Error) where
  pub write_pull_error-IsFailure : IsFailure (write_pull_error w e)
  unfolding write_pull_error write_oci_error
  write_pull_error-IsFailure = ground arith

  pub write_push_error-IsFailure : IsFailure (write_push_error w e)
  unfolding write_push_error write_oci_error
  write_push_error-IsFailure = ground arith

  -- Whether the error is about the credentials or the rights at a registry, or the route's.
  abbrev pub is_about_rights : Bool
  is_about_rights = errors_is_any e (
      credential_required ∷ credential_unavailable ∷ authentication ∷ authorization ∷ unauthorized
      ∷ [])

  -- A failure of a pull and of a push is always answered with an error status, and what concerns
  -- credentials or rights is answered alike on both ways.
  pub write_errors_agree :
      IsFailure (write_pull_error w e)
      × IsFailure (write_push_error w e)
      × (is_about_rights ≡ true → write_pull_error w e ≡ write_push_error w e)
  unfolding write_pull_error write_push_error
  write_errors_agree = (write_pull_error-IsFailure, write_push_error-IsFailure, λ h. ground arith)
