-- ===== src/Auth/Accepted.antt =====
-- What a token that OCITokenService of internal/auth/oci_tokens.go accepts says.
use regstair.Base.{
  ◌*◌, ◌&&◌, ◌||◌, ◌≡◌, ◌⊎◌, ap, subst, refl, true, false, not, Option, none, some, List, [], ◌∷◌,
  ◌==◌, nat_eq, arith, ltb, inl, inr, Bool-cases, Option-cases,
}
use regstair.Strings.{Text, text_eq, text_beq, text_beq_iff, codes}
use regstair.Strings.Search.{split_rune}
use regstair.Errors.{Error, ok, err, bare, invalid_access_token, Result-cases}
use regstair.Effects.{Exec, pure, fail, lift, attempt, ◌>>=◌}
use regstair.Effects.Rules.{>>=_ok}
use regstair.Identity.{Principal, anonymous, kind_local_user}
use regstair.Registry.Types.{Bytes}
use regstair.Metadata.Types.{Time, User}
use regstair.Auth.Repository.{SecurityRepository}
use regstair.Auth.DockerTokens.{Digests, validate_hash}
use regstair.Auth.OciTokens.{
  OciClaims, TokenCodec, contains_action, accept_claims, open_parts, principal_of, authenticate_oci,
  second,
}

abbrev pub principal_for : User → Principal
principal_for user = record { kind = kind_local_user; id = user.id; username = user.username }

-- A token whose signature is the one of its payload.
pub record IsSigned (c : TokenCodec) (raw : Text) (payload : Bytes) : Type 0 where
  pub encoded : Text
  pub signature : Text
  pub parts : split_rune b'.' raw ≡ encoded ∷ signature ∷ []
  pub sealed : c.decode_url signature ≡ some (c.mac encoded)
  pub opened : c.decode_url encoded ≡ some payload

-- Claims that are for a request and have not run out.
pub record IsForRequest (now : Time) (repository action : Text) (claims : OciClaims) : Type 0 where
  pub fresh : ltb now (claims.expires_at * second) ≡ true
  pub same_repository : claims.repository ≡ repository
  pub allowed : (action ≡ []) ⊎ (contains_action claims.actions action ≡ true)

module _ (d : Digests) (c : TokenCodec) {W : Type 0} (repo : SecurityRepository W)
    (now : Time) where
  -- Who the principal of claims is: nobody, for a pull, or the user whose token is still good.
  abbrev pub IsHolder : OciClaims → Text → W → Principal → Type 0
  IsHolder claims action w p =
      ((claims.user_id ≡ []) × ((action ≡ []) ⊎ (action ≡ codes "pull")) × (p ≡ anonymous))
      ⊎ ((hash : Bytes) × (user : User) × (c.decode_url claims.token_hash ≡ some hash)
          × ((validate_hash d repo now claims.user_id hash w).0 ≡ ok user)
          × (p ≡ principal_for user))

  opened_IsSigned :
      (raw encoded signature : Text) (payload : Bytes)
      → split_rune b'.' raw ≡ encoded ∷ signature ∷ []
      → open_parts d c repo now (encoded ∷ signature ∷ []) ≡ ok payload
      → IsSigned c raw payload
  unfolding open_parts
  opened_IsSigned raw encoded signature payload parts h =
      elim (Option-cases (c.decode_url signature)) [
        | inl e ↦
            let k : err (bare invalid_access_token) ≡ ok payload = rw (open_parts, e) at h in
            absurd (cc)
        | inr (mac, e) ↦ elim (Bool-cases (text_beq mac (c.mac encoded))) [
          | inr n ↦
              let k : err (bare invalid_access_token) ≡ ok payload = rw (open_parts, e, n) at h in
              absurd (cc)
          | inl y ↦ elim (Option-cases (c.decode_url encoded)) [
            | inl z ↦
                let k : err (bare invalid_access_token) ≡ ok payload =
                  rw (open_parts, e, y, z) at h in
                absurd (cc)
            | inr (decoded, z) ↦
                let k : ok decoded ≡ ok payload = rw (open_parts, e, y, z) at h in
                record {
                  encoded = encoded;
                  signature = signature;
                  parts = parts;
                  sealed = rw e (ap some ((text_beq_iff mac (c.mac encoded)).0 y));
                  opened = rw z (ap some (cc));
                }
          ]
        ]
      ]

  open_parts-IsSigned :
      (raw : Text) (payload : Bytes) (parts : List Text)
      → split_rune b'.' raw ≡ parts
      → open_parts d c repo now parts ≡ ok payload
      → IsSigned c raw payload
  unfolding open_parts
  open_parts-IsSigned raw payload [] e h = absurd (cc)
  open_parts-IsSigned raw payload (encoded ∷ []) e h = absurd (cc)
  open_parts-IsSigned raw payload (encoded ∷ signature ∷ []) e h =
      opened_IsSigned raw encoded signature payload e h
  open_parts-IsSigned raw payload (encoded ∷ signature ∷ more ∷ parts) e h = absurd (cc)

  accept_claims-IsForRequest :
      (repository action : Text) (read : Option OciClaims) (claims : OciClaims)
      → accept_claims now repository action read ≡ ok claims
      → (read ≡ some claims) × IsForRequest now repository action claims
  unfolding accept_claims
  accept_claims-IsForRequest repository action none claims h = absurd (cc)
  accept_claims-IsForRequest repository action (some found) claims h =
      elim (Bool-cases (
        not (ltb now (found.expires_at * second))
        || not (found.repository == repository)
        || (not (action == []) && not (contains_action found.actions action)))) [
          | inl bad ↦
              let k : err (bare invalid_access_token) ≡ ok claims = rw (accept_claims, bad) at h in
              absurd (cc)
          | inr good ↦
              let k : ok found ≡ ok claims = rw (accept_claims, good) at h in
              let same : found ≡ claims = cc in
              (
                ap some same,
                subst (IsForRequest now repository action) same (record {
                  fresh = ground (arith, good);
                  same_repository =
                      (text_beq_iff found.repository repository).0 (ground (arith, good));
                  allowed = elim (Bool-cases (text_beq action [])) [
                    | inl y ↦ inl ((text_beq_iff action []).0 y)
                    | inr n ↦ inr (ground (arith, good, n))
                  ];
                }),
              )
        ]

  pull_only :
      (action : Text)
      → (not (action == []) && not (action == codes "pull")) ≡ false
      → (action ≡ []) ⊎ (action ≡ codes "pull")
  pull_only action only = elim (Bool-cases (text_beq action [])) [
    | inl y ↦ inl ((text_beq_iff action []).0 y)
    | inr n ↦ inr ((text_beq_iff action (codes "pull")).0 (ground (arith, only, n)))
  ]

  -- A user whose validation is tried, and is to succeed.
  tried_value :
      (e : Error) (m : Exec W User) (w : W) (p : Principal)
      → ((attempt m >>= λ validated. elim validated [
        | err failed ↦ fail e
        | ok user ↦ pure (principal_for user)
      ])
          w).0
        ≡ ok p
      → (user : User) × ((m w).0 ≡ ok user) × (p ≡ principal_for user)
  unfolding attempt ◌>>=◌ pure fail
  tried_value e m w p h = elim (Result-cases (m w).0) [
    | inl (user, k) ↦
        let same : ok (principal_for user) ≡ ok p = rw (◌>>=◌, attempt, k) at h in (user, k, cc)
    | inr (failed, k) ↦ let refused : err e ≡ ok p = rw (◌>>=◌, attempt, k) at h in absurd (cc)
  ]

  principal_of-IsHolder :
      (action : Text) (claims : OciClaims) (w : W) (p : Principal)
      → (principal_of d c repo now action claims w).0 ≡ ok p
      → IsHolder claims action w p
  unfolding principal_of pure fail
  principal_of-IsHolder action claims w p h = elim (Bool-cases (text_beq claims.user_id [])) [
    | inl nobody ↦ elim (Bool-cases (not (action == []) && not (action == codes "pull"))) [
      | inl more ↦
          let k : err (bare invalid_access_token) ≡ ok p = rw (principal_of, nobody, more) at h in
          absurd (cc)
      | inr only ↦
          let k : ok anonymous ≡ ok p = rw (principal_of, nobody, only) at h in
          inl ((text_beq_iff claims.user_id []).0 nobody, pull_only action only, cc)
    ]
    | inr somebody ↦ elim (Option-cases (c.decode_url claims.token_hash)) [
      | inl broken ↦
          let k : err (bare invalid_access_token) ≡ ok p =
            rw (principal_of, somebody, broken) at h in
          absurd (cc)
      | inr (hash, decoded) ↦
          let (user, valid, same) =
            tried_value (bare invalid_access_token) (validate_hash d repo now claims.user_id hash) w
              p (rw (principal_of, somebody, decoded) at h) in
          inr (hash, user, decoded, valid, same)
    ]
  ]

  -- What a token that is accepted is: it has the signature of its payload, which are claims for
  -- the repository and the action of the request that have not run out, and the principal is who
  -- holds them.
  pub authenticate_oci-IsSound :
      (raw repository action : Text) (w : W) (p : Principal)
      → (authenticate_oci d c repo now raw repository action w).0 ≡ ok p
      → (payload : Bytes) × (claims : OciClaims) × IsSigned c raw payload
        × (c.unmarshal payload ≡ some claims)
        × IsForRequest now repository action claims
        × IsHolder claims action w p
  unfolding authenticate_oci lift
  authenticate_oci-IsSound raw repository action w p h =
      let (payload, opened, h1) = >>=_ok _ _ w p h in
      let (claims, accepted, h2) = >>=_ok _ _ w p h1 in
      let (read, for_request) = accept_claims-IsForRequest repository action _ claims accepted in
      (
        payload,
        claims,
        open_parts-IsSigned raw payload _ refl opened,
        read,
        for_request,
        principal_of-IsHolder action claims w p h2,
      )
