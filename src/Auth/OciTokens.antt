-- ===== src/Auth/OciTokens.antt =====
-- OCITokenService of internal/auth/oci_tokens.go. The JSON and base64 codecs and the HMAC under the
-- key of the service are arguments; `now` is what s.now() gives.
use regstair.Base.{
  ℕ, ◌+◌, ◌/◌, ◌*◌, ◌&&◌, ◌||◌, Bool, not, Option, none, some, List, [], ◌∷◌, ◌++◌, ◌==◌, nat_eq,
  any, ltb, if◌then◌else◌,
}
use regstair.Strings.{Text, text_eq, codes}
use regstair.Strings.Search.{split_rune}
use regstair.Errors.{Result, ok, err, bare, invalid_credentials, invalid_access_token}
use regstair.Effects.{Exec, pure, fail, lift, attempt, ◌>>=◌}
use regstair.Identity.{Principal, anonymous, kind_local_user}
use regstair.Registry.Types.{Bytes}
use regstair.Metadata.Types.{Time}
use regstair.Auth.Repository.{SecurityRepository}
use regstair.Auth.DockerTokens.{Digests, authenticate_with_token, validate_hash}

pub record OciClaims : Type 0 where
  pub user_id : Text
  pub username : Text
  pub token_hash : Text
  pub repository : Text
  pub actions : List Text
  -- in seconds
  pub expires_at : ℕ

pub record TokenCodec : Type 0 where
  -- json.Marshal and json.Unmarshal of claims
  pub marshal : OciClaims → Bytes
  pub unmarshal : Bytes → Option OciClaims
  -- base64.RawURLEncoding.DecodeString
  pub decode_url : Text → Option Bytes
  -- the HMAC of a text
  pub mac : Text → Bytes

unfoldable pub contains_action : List Text → Text → Bool
contains_action actions wanted = any (λ action. action == wanted) actions

-- The loop over the actions, with the result so far.
unfoldable pub collect_actions : List Text → List Text → List Text
collect_actions result [] = result
collect_actions result (action ∷ actions) =
    collect_actions
      (if (action == codes "pull" || action == codes "push") && not (contains_action result action)
        then result ++ action ∷ []
        else result)
      actions

unfoldable pub normalized_actions : List Text → List Text
normalized_actions actions = collect_actions [] actions

abbrev pub second : ℕ
second = 1_000_000_000

-- s.now().Add(5 * time.Minute).Unix()
abbrev pub expiry : Time → ℕ
expiry now = (now + 300 * second) / second

abbrev no_claims : OciClaims
no_claims = record {
  user_id = [];
  username = [];
  token_hash = [];
  repository = [];
  actions = [];
  expires_at = 0;
}

-- What a payload says about a request: its claims, if they are for it and have not run out.
unfoldable pub accept_claims : Time → Text → Text → Option OciClaims → Result OciClaims
accept_claims now repository action none = err (bare invalid_access_token)
accept_claims now repository action (some claims) =
    if not (ltb now (claims.expires_at * second))
      || not (claims.repository == repository)
      || (not (action == []) && not (contains_action claims.actions action))
    then err (bare invalid_access_token)
    else ok claims

module _ (d : Digests) (c : TokenCodec) {W : Type 0} (repo : SecurityRepository W)
    (now : Time) where
  -- The token of a payload: the payload, a dot and the signature.
  unfoldable pub signed : OciClaims → Text
  signed claims =
      let encoded = d.encode_url (c.marshal claims) in
      encoded ++ b'.' ∷ d.encode_url (c.mac encoded)

  -- The claims of who asks.
  unfoldable pub claims_for : Text → Text → Text → List Text → Exec W OciClaims
  claims_for username secret repository actions =
      let claims : OciClaims = record no_claims {
        repository = repository;
        actions = normalized_actions actions;
        expires_at = expiry now;
      } in
      if not (username == []) || not (secret == [])
      then (do
        (user, token) ← authenticate_with_token d repo now username secret
        pure (record claims {
          user_id = user.id;
          username = user.username;
          token_hash = d.encode_url token.token_hash;
        }))
      else if contains_action claims.actions (codes "push")
      then fail (bare invalid_credentials)
      else pure claims

  -- A time of whole seconds.
  unfoldable pub issue_oci_token : Text → Text → Text → List Text → Exec W (Text × Time)
  issue_oci_token username secret repository actions = do
    claims ← claims_for username secret repository actions
    pure (signed claims, claims.expires_at * second)

  -- The payload of a token whose signature is right.
  unfoldable pub open_parts : List Text → Result Bytes
  open_parts (encoded ∷ signature ∷ []) = elim (c.decode_url signature) [
    | none ↦ err (bare invalid_access_token)
    | some signature ↦
        if not (signature == c.mac encoded)
        then err (bare invalid_access_token)
        else elim (c.decode_url encoded) [
          | none ↦ err (bare invalid_access_token)
          | some payload ↦ ok payload
        ]
  ]
  open_parts _ = err (bare invalid_access_token)

  -- The principal of claims that are accepted.
  unfoldable pub principal_of : Text → OciClaims → Exec W Principal
  principal_of action claims =
      if claims.user_id == []
      then (if not (action == []) && not (action == codes "pull")
          then fail (bare invalid_access_token)
          else pure anonymous)
      else elim (c.decode_url claims.token_hash) [
        | none ↦ fail (bare invalid_access_token)
        | some hash ↦ (do
          validated ← attempt (validate_hash d repo now claims.user_id hash)
          elim validated [
            | err e ↦ fail (bare invalid_access_token)
            | ok user ↦
                pure (record { kind = kind_local_user; id = user.id; username = user.username })
          ])
      ]

  unfoldable pub authenticate_oci : Text → Text → Text → Exec W Principal
  authenticate_oci raw repository action = do
    payload ← lift (open_parts (split_rune b'.' raw))
    claims ← lift (accept_claims now repository action (c.unmarshal payload))
    principal_of action claims
