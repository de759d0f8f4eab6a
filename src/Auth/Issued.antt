-- ===== src/Auth/Issued.antt =====
-- Tokens of OCITokenService of internal/auth/oci_tokens.go from their issue to their use.
use regstair.Base.{
  ℕ, ◌*◌, ◌&&◌, ◌||◌, ◌≡◌, ap, ◌∙◌, refl, true, false, not, some, List, [], ◌∷◌, ◌++◌, ◌==◌, nat_eq,
  nat_beq, any, arith, ltb,
}
use regstair.Strings.{Text, text_eq, text_beq_refl}
use regstair.Strings.Search.{split_rune}
use regstair.Errors.{ok}
use regstair.Effects.{pure, lift, attempt, ◌>>=◌}
use regstair.Registry.Types.{Bytes}
use regstair.Metadata.Types.{Time, User}
use regstair.Database.Records.{DockerToken}
use regstair.Auth.Repository.{SecurityRepository}
use regstair.Auth.DockerTokens.{Digests, authenticate_with_token, validate_hash}
use regstair.Auth.OciTokens.{
  OciClaims, TokenCodec, contains_action, normalized_actions, accept_claims, open_parts,
  principal_of, authenticate_oci, second, signed, claims_for, issue_oci_token, expiry,
}
use regstair.Auth.Accepted.{principal_for}

split_rune-one : (sep : ℕ) (s : Text) → any (λ c. c == sep) s ≡ false → split_rune sep s ≡ s ∷ []
unfolding split_rune
split_rune-one sep [] h = refl
split_rune-one sep (c ∷ s) h =
    let other : nat_beq c sep ≡ false = ground (arith, h) in
    rw (other, split_rune-one sep s (ground (arith, h))) refl

split_rune-two :
    (sep : ℕ) (s t : Text)
    → any (λ c. c == sep) s ≡ false
    → any (λ c. c == sep) t ≡ false
    → split_rune sep (s ++ sep ∷ t) ≡ s ∷ t ∷ []
unfolding split_rune
split_rune-two sep [] t h k =
    let here : nat_beq sep sep ≡ true = ground arith in rw (here, split_rune-one sep t k) refl
split_rune-two sep (c ∷ s) t h k =
    let other : nat_beq c sep ≡ false = ground (arith, h) in
    rw (other, split_rune-two sep s t (ground (arith, h)) k) refl

-- What codecs do: decoding gives back what was encoded, and no encoding has a dot.
pub record TokenLaws (d : Digests) (c : TokenCodec) : Type 0 where
  pub decode-encode : (bytes : Bytes) → c.decode_url (d.encode_url bytes) ≡ some bytes
  pub no_dot : (bytes : Bytes) → any (λ rune. rune == b'.') (d.encode_url bytes) ≡ false
  pub unmarshal-marshal : (claims : OciClaims) → c.unmarshal (c.marshal claims) ≡ some claims

module _ (d : Digests) (c : TokenCodec) (laws : TokenLaws d c) {W : Type 0}
    (repo : SecurityRepository W) where
  open_parts-signed :
      (now now' : Time) (claims : OciClaims)
      → open_parts d c repo now' (split_rune b'.' (signed d c repo now claims))
        ≡ ok (c.marshal claims)
  unfolding open_parts signed
  open_parts-signed now now' claims =
      let two =
        split_rune-two b'.' (d.encode_url (c.marshal claims))
          (d.encode_url (c.mac (d.encode_url (c.marshal claims)))) (laws.no_dot (c.marshal claims))
          (laws.no_dot (c.mac (d.encode_url (c.marshal claims)))) in
      ap (open_parts d c repo now') two
      ∙ rw
          (
            open_parts,
            laws.decode-encode (c.mac (d.encode_url (c.marshal claims))),
            text_beq_refl (c.mac (d.encode_url (c.marshal claims))),
            laws.decode-encode (c.marshal claims),
          )
          refl

  accept_fresh :
      (now : Time) (claims : OciClaims) (action : Text)
      → ltb now (claims.expires_at * second) ≡ true
      → contains_action claims.actions action ≡ true
      → accept_claims now claims.repository action (c.unmarshal (c.marshal claims)) ≡ ok claims
  unfolding accept_claims
  accept_fresh now claims action fresh allowed =
      let good : (not (ltb now (claims.expires_at * second))
            || not (claims.repository == claims.repository)
            || (not (action == []) && not (contains_action claims.actions action)))
          ≡ false =
        ground (arith, fresh, text_beq_refl claims.repository, allowed) in
      rw (laws.unmarshal-marshal claims, accept_claims, good) refl

  -- A signed payload is opened and read again.
  authenticate-signed :
      (now now' : Time) (claims : OciClaims) (action : Text) (w : W)
      → ltb now' (claims.expires_at * second) ≡ true
      → contains_action claims.actions action ≡ true
      → authenticate_oci d c repo now' (signed d c repo now claims) claims.repository action w
        ≡ principal_of d c repo now' action claims w
  unfolding authenticate_oci lift ◌>>=◌
  authenticate-signed now now' claims action w fresh allowed =
      rw
        (
          authenticate_oci,
          open_parts-signed now now' claims,
          accept_fresh now' claims action fresh allowed,
        )
        refl

  -- With codecs that decode what they encode, a token that is issued to a user is accepted for each
  -- action that was asked for, until it runs out, where the docker token of the account is still
  -- good then.
  pub issue_oci_token-authenticates :
      (now now' : Time) (username secret repository action : Text) (actions : List Text)
      (user current : User) (token : DockerToken) (w w' : W)
      → (not (username == []) || not (secret == [])) ≡ true
      → (authenticate_with_token d repo now username secret w).0 ≡ ok (user, token)
      → contains_action (normalized_actions actions) action ≡ true
      → (user.id == []) ≡ false
      → ltb now' (expiry now * second) ≡ true
      → (validate_hash d repo now' user.id token.token_hash w').0 ≡ ok current
      → (raw : Text) × ((issue_oci_token d c repo now username secret repository actions w).0
          ≡ ok (raw, expiry now * second))
        × ((authenticate_oci d c repo now' raw repository action w').0 ≡ ok (principal_for current))
  unfolding issue_oci_token claims_for ◌>>=◌ pure principal_of attempt
  issue_oci_token-authenticates now now' username secret repository action actions user current
        token w w' given known asked named fresh valid =
      let claims : OciClaims = record {
        user_id = user.id;
        username = user.username;
        token_hash = d.encode_url token.token_hash;
        repository = repository;
        actions = normalized_actions actions;
        expires_at = expiry now;
      } in
      (
        signed d c repo now claims,
        rw (issue_oci_token, given, known) refl,
        ap (λ o. o.0) (authenticate-signed now now' claims action w' fresh asked)
            ∙ rw (principal_of, named, laws.decode-encode token.token_hash, valid) refl,
      )
