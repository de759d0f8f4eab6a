-- ===== src/Auth/Tests/Codec.antt =====
-- Codecs for the claims of a token that meet the laws of the ones in use.
use regstair.Base.{
  ℕ, zero, suc, ◌+◌, ◌-◌, ◌≡◌, refl, ap, false, Option, none, some, List, [], ◌∷◌, ◌==◌, nat_eq,
  any, arith,
}
use regstair.Strings.{Text, text_eq}
use regstair.Registry.Types.{Bytes}
use regstair.Auth.DockerTokens.{Digests}
use regstair.Auth.OciTokens.{OciClaims, TokenCodec}
use regstair.Auth.Issued.{TokenLaws}

-- A text is its own hash, and an encoding moves each byte away from the dot.
unfoldable pub encode : Bytes → Text
encode [] = []
encode (x ∷ s) = (x + 100) ∷ encode s

unfoldable pub decode : Text → Bytes
decode [] = []
decode (x ∷ s) = (x - 100) ∷ decode s

decode-encode : (bytes : Bytes) → decode (encode bytes) ≡ bytes
unfolding decode encode
decode-encode [] = refl
decode-encode (x ∷ s) = ground (arith, decode-encode s)

encode_no_dot : (bytes : Bytes) → any (λ rune. rune == b'.') (encode bytes) ≡ false
unfolding encode
encode_no_dot [] = refl
encode_no_dot (x ∷ s) = ground (arith, encode_no_dot s)

-- Texts one after the other: each rune behind a 1, and a 0 at the end of each text.
unfoldable pub write_text : Text → Bytes → Bytes
write_text [] rest = 0 ∷ rest
write_text (x ∷ s) rest = 1 ∷ x ∷ write_text s rest

unfoldable pub write_texts : List Text → Bytes
write_texts [] = []
write_texts (s ∷ texts) = write_text s (write_texts texts)

abbrev onto : ℕ → List Text → List Text
onto x [] = []
onto x (s ∷ texts) = (x ∷ s) ∷ texts

unfoldable pub read_texts : Bytes → List Text
read_texts (zero ∷ rest) = [] ∷ read_texts rest
read_texts (suc _ ∷ x ∷ rest) = onto x (read_texts rest)
read_texts _ = []

read_texts-write_text :
    (s : Text) (rest : Bytes) → read_texts (write_text s rest) ≡ s ∷ read_texts rest
unfolding read_texts write_text
read_texts-write_text [] rest = refl
read_texts-write_text (x ∷ s) rest = ap (onto x) (read_texts-write_text s rest)

read_texts-write_texts : (texts : List Text) → read_texts (write_texts texts) ≡ texts
unfolding read_texts write_texts
read_texts-write_texts [] = refl
read_texts-write_texts (s ∷ texts) =
    rw (read_texts-write_text s (write_texts texts), read_texts-write_texts texts) refl

abbrev to_texts : OciClaims → List Text
to_texts claims =
    claims.user_id
    ∷ claims.username
    ∷ claims.token_hash
    ∷ claims.repository
    ∷ (claims.expires_at ∷ [])
    ∷ claims.actions

abbrev from_texts : List Text → Option OciClaims
from_texts (user_id ∷ username ∷ token_hash ∷ repository ∷ (expires_at ∷ []) ∷ actions) =
    some (record {
      user_id = user_id;
      username = username;
      token_hash = token_hash;
      repository = repository;
      actions = actions;
      expires_at = expires_at;
    })
from_texts _ = none

abbrev pub plain : Digests
plain = record { sha256 = λ s. s; encode_url = encode; encode_hex = encode }

abbrev pub codec : TokenCodec
codec = record {
  marshal = λ claims. write_texts (to_texts claims);
  unmarshal = λ bytes. from_texts (read_texts bytes);
  decode_url = λ s. some (decode s);
  mac = λ s. s;
}

pub codec_laws : TokenLaws plain codec
codec_laws = record {
  decode-encode = λ bytes. ap some (decode-encode bytes);
  no_dot = encode_no_dot;
  unmarshal-marshal = λ claims. ap from_texts (read_texts-write_texts (to_texts claims));
}
