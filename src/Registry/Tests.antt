-- ===== src/Registry/Tests.antt =====
-- A run of the connector in memory, and its theorem at that run.
use regstair.Base.{◌⊎◌, pos, ◌≡◌, ◌≢◌, refl, none, [], ◌∷◌, All}
use regstair.Strings.{codes, text_beq, text_eq}
use regstair.Errors.{ok}
use regstair.Maps
use regstair.Maps.{get, put}
use regstair.Registry.Types.{Manifest}
use regstair.Registry.FakeConnector.{
  FakeConnector, new_fake_connector, check_available, check_blobs, put_manifest, resolve_manifest,
}
use regstair.Registry.FakeLaws.{resolve_manifest-put_manifest}

abbrev hub : FakeConnector
hub = record (new_fake_connector (codes "hub")) { blobs = (codes "layer", 1 ∷ []) ∷ [] }

abbrev app : Manifest
app = record {
  descriptor = record { media_type = codes "m"; digest = codes "d"; size = pos 1 };
  content = 2 ∷ [];
  blob_digests = codes "layer" ∷ [];
}

resolve_manifest-put_manifest_example :
    ((resolve_manifest none
        (codes "app")
        (codes "1")
        (put_manifest none (codes "app") (codes "1") app hub).1).0
      ≡ ok app)
    × ((app.digest ≡ [])
        ⊎ ((resolve_manifest none
              (codes "app")
              app.digest
              (put_manifest none (codes "app") (codes "1") app hub).1).0
            ≡ ok app))
    × All (λ digest. Maps.get hub.blobs digest ≢ none) app.blob_digests
resolve_manifest-put_manifest_example =
    resolve_manifest-put_manifest (codes "app") (codes "1") app hub app.descriptor taken
  where
    taken : (put_manifest none (codes "app") (codes "1") app hub).0 ≡ ok app.descriptor
    taken = unfold put_manifest check_available check_blobs get text_beq in refl
