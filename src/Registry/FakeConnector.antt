-- ===== src/Registry/FakeConnector.antt =====
-- FakeConnector of internal/registry/connector.go: a registry in memory. SHA-256 is an argument.
use regstair.Base.{
  pos, not, Bool, true, Option, none, some, List, [], ◌∷◌, ◌++◌, ◌==◌, length, if◌then◌else◌,
}
use regstair.Strings.{Text, text_eq, codes}
use regstair.Errors.{
  Error, Result, ok, err, ◌>>◌, refuse_if, bare, wrap, prefixed, lit, plain, unavailable, not_found,
  digest_mismatch,
}
use regstair.Effects.{Exec}
use regstair.Maps
use regstair.Maps.{Map}
use regstair.Registry.Types.{Bytes, Stream, reader, Descriptor, Manifest}

pub record FakeConnector : Type 0 where
  pub name : Text
  pub available : Bool
  pub manifests : Map Text Manifest
  pub blobs : Map Text Bytes
  -- the digests that were put into each repository
  pub repository : Map Text (Map Text (Unit {0}))

abbrev pub new_fake_connector : Text → FakeConnector
new_fake_connector name = record {
  name = name;
  available = true;
  manifests = [];
  blobs = [];
  repository = [];
}

unfoldable pub set_available : Bool → FakeConnector → FakeConnector
set_available available c = record c { available = available }

unfoldable pub add_blob : Text → Bytes → FakeConnector → FakeConnector
add_blob digest body c = record c { blobs = Maps.put c.blobs digest body }

unfoldable pub manifest_key : Text → Text → Text
manifest_key repository reference = repository ++ codes "@" ++ reference

-- Under its reference, and under its digest if it has one.
unfoldable pub add_manifest : Text → Text → Manifest → FakeConnector → FakeConnector
add_manifest repository reference manifest c =
    let named = Maps.put c.manifests (manifest_key repository reference) manifest in
    record c {
      manifests =
          if not (manifest.digest == [])
          then Maps.put named (manifest_key repository manifest.digest) manifest
          else named;
    }

unfoldable pub check_available : Option Error → FakeConnector → Result (Unit {0})
check_available (some e) c = err e
check_available none c = refuse_if (not c.available) (bare unavailable)

unfoldable pub health : Option Error → Exec FakeConnector (Unit {0})
health ctx c = (check_available ctx c, c)

unfoldable pub resolve_manifest : Option Error → Text → Text → Exec FakeConnector Manifest
resolve_manifest ctx repository reference c = elim (check_available ctx c) [
  | err e ↦ (err e, c)
  | ok _ ↦ elim (Maps.get c.manifests (manifest_key repository reference)) [
    | none ↦ (
      err (wrap not_found (lit "manifest " ∷ plain repository ∷ lit ":" ∷ plain reference ∷ [])),
      c,
    )
    | some manifest ↦ (ok manifest, c)
  ]
]

abbrev missing_blob : Text → Error
missing_blob digest = wrap not_found (lit "blob " ∷ plain digest ∷ [])

-- The descriptor has no media type.
abbrev pub blob_descriptor : Text → Bytes → Descriptor
blob_descriptor digest body = record { media_type = []; digest = digest; size = pos (length body) }

unfoldable pub open_blob : Option Error → Text → Text → Exec FakeConnector (Stream × Descriptor)
open_blob ctx repository digest c = elim (check_available ctx c) [
  | err e ↦ (err e, c)
  | ok _ ↦ elim (Maps.get c.blobs digest) [
    | none ↦ (err (missing_blob digest), c)
    | some body ↦ (ok (reader body, blob_descriptor digest body), c)
  ]
]

-- The digests of a repository, empty where it has none.
abbrev members : FakeConnector → Text → Map Text (Unit {0})
members c repository = elim (Maps.get c.repository repository) [ none ↦ [] | some m ↦ m ]

unfoldable pub put_blob :
    (Bytes → Text) → Option Error → Text → Text → Stream → Exec FakeConnector Descriptor
put_blob digest_bytes ctx repository digest body c = elim (check_available ctx c) [
  | err e ↦ (err e, c)
  | ok _ ↦ elim body.read_error [
    | some e ↦ (err (prefixed (lit "read blob" ∷ []) e), c)
    | none ↦
        if not (digest_bytes body.body == digest)
        then (
          err (
              wrap digest_mismatch
                (lit "got " ∷ plain (digest_bytes body.body) ∷ lit " want " ∷ plain digest ∷ [])),
          c,
        )
        else (
          ok (blob_descriptor digest body.body),
          record c {
            blobs = Maps.put c.blobs digest body.body;
            repository =
                Maps.put c.repository repository (Maps.put (members c repository) digest tt);
          },
        )
  ]
]

-- The loop that looks for a blob that is not there.
unfoldable pub check_blobs : Map Text Bytes → List Text → Result (Unit {0})
check_blobs blobs [] = ok tt
check_blobs blobs (digest ∷ digests) =
    let rest = check_blobs blobs digests in
    elim (Maps.get blobs digest) [ none ↦ err (missing_blob digest) | some _ ↦ rest ]

unfoldable pub put_manifest : Option Error → Text → Text → Manifest → Exec FakeConnector Descriptor
put_manifest ctx repository reference manifest c =
    elim (check_available ctx c >> check_blobs c.blobs manifest.blob_digests) [
      | err e ↦ (err e, c)
      | ok _ ↦ (ok manifest.descriptor, add_manifest repository reference manifest c)
    ]
