-- ===== src/Registry/Parse.antt =====
-- ParseManifest of internal/registry/manifest.go, behind encoding/json and crypto/sha256, which are
-- arguments.
use regstair.Base.{pos, Option, none, some, List, [], ◌∷◌, ◌++◌, ◌==◌, length, if◌then◌else◌}
use regstair.Strings.{Text, text_eq, codes}
use regstair.Registry.Types.{Bytes, Manifest}

-- The fields of the JSON text that ParseManifest reads; `layers` has the digest of each layer.
pub record RawManifest : Type 0 where
  pub media_type : Text
  pub config_digest : Text
  pub layers : List Text

-- The loop over the layers.
unfoldable pub layer_digests : List Text → List Text
layer_digests [] = []
layer_digests (digest ∷ layers) =
    let rest = layer_digests layers in if digest == [] then rest else digest ∷ rest

unfoldable pub raw_digests : RawManifest → List Text
unfolding layer_digests
raw_digests raw =
    (if raw.config_digest == [] then [] else raw.config_digest ∷ []) ++ layer_digests raw.layers

module _ (unmarshal : Bytes → Option RawManifest) (digest_bytes : Bytes → Text) where
  -- `none` where the text is no JSON of this shape.
  unfoldable pub parse_manifest : Bytes → Option Manifest
  unfolding raw_digests
  parse_manifest body = elim (unmarshal body) [
    | none ↦ none
    | some raw ↦ some (record {
      descriptor = record {
        media_type =
            if raw.media_type == []
            then codes "application/vnd.oci.image.manifest.v1+json"
            else raw.media_type;
        digest = digest_bytes body;
        size = pos (length body);
      };
      content = body;
      blob_digests = raw_digests raw;
    })
  ]
