-- ===== src/Registry/FakeLaws.antt =====
-- What a FakeConnector has taken, it gives.
use regstair.Base.{
  ◌≡◌, ◌≢◌, ◌⊎◌, refl, inl, inr, none, some, List, [], ◌∷◌, arith, All, Option-cases,
}
use regstair.Strings.{Text, text_eq, text_beq_iff}
use regstair.Errors.{ok, ◌>>◌, Result-cases, >>-eq-ok}
use regstair.Maps
use regstair.Maps.{Map, get-put}
use regstair.Registry.Types.{Bytes, Descriptor, Manifest}
use regstair.Registry.FakeConnector.{
  FakeConnector, manifest_key, add_manifest, check_available, check_blobs, resolve_manifest,
  put_manifest,
}

check_blobs-All :
    (blobs : Map Text Bytes) (digests : List Text)
    → check_blobs blobs digests ≡ ok tt
    → All (λ digest. Maps.get blobs digest ≢ none) digests
unfolding check_blobs
check_blobs-All blobs [] h = tt
check_blobs-All blobs (digest ∷ digests) h = elim (Option-cases (Maps.get blobs digest)) [
  | inl missing ↦ absurd (ground (arith, h, missing))
  | inr (body, there) ↦ (
    (λ e. absurd (ground (arith, e, there))),
    check_blobs-All blobs digests (ground (arith, h, there)),
  )
]

named :
    (repository reference : Text) (m : Manifest) (c : FakeConnector)
    → Maps.get (add_manifest repository reference m c).manifests (manifest_key repository reference)
      ≡ some m
unfolding add_manifest
named repository reference m c =
    let key = manifest_key repository reference in
    let other = manifest_key repository m.digest in
    ground (
      arith,
      get-put c.manifests key key m,
      get-put (Maps.put c.manifests key m) other key m,
      text_beq_iff key key,
    )

resolved :
    (repository reference : Text) (m : Manifest) (c : FakeConnector)
    → check_available none c ≡ ok tt
    → Maps.get c.manifests (manifest_key repository reference) ≡ some m
    → (resolve_manifest none repository reference c).0 ≡ ok m
unfolding resolve_manifest
resolved repository reference m c up there = rw (up, there, resolve_manifest) refl

still_available :
    (repository reference : Text) (m : Manifest) (c : FakeConnector)
    → check_available none c ≡ ok tt
    → check_available none (add_manifest repository reference m c) ≡ ok tt
unfolding check_available add_manifest
still_available repository reference m c up = up

put_taken :
    (repository reference : Text) (m : Manifest) (c : FakeConnector)
    → (check_available none c >> check_blobs c.blobs m.blob_digests) ≡ ok tt
    → (put_manifest none repository reference m c).1 ≡ add_manifest repository reference m c
unfolding put_manifest
put_taken repository reference m c passed = rw (passed, put_manifest) refl

-- Under its digest too, if it has one.
digested :
    (repository reference : Text) (m : Manifest) (c : FakeConnector)
    → m.digest ≢ []
    → Maps.get (add_manifest repository reference m c).manifests (manifest_key repository m.digest)
      ≡ some m
unfolding add_manifest
digested repository reference m c known =
    let key = manifest_key repository reference in
    let other = manifest_key repository m.digest in
    ground (
      arith,
      known,
      text_beq_iff m.digest [],
      get-put (Maps.put c.manifests key m) other other m,
      text_beq_iff other other,
    )

has_digest : (m : Manifest) → (m.digest ≡ []) ⊎ (m.digest ≢ [])
has_digest m = by_text m.digest
  where
    by_text : (t : Text) → (t ≡ []) ⊎ (t ≢ [])
    by_text [] = inl refl
    by_text (c ∷ t) = inr (λ e. cc)

module _ (repository reference : Text) (m : Manifest) (c : FakeConnector) (d : Descriptor)
    (taken : (put_manifest none repository reference m c).0 ≡ ok d) where
  -- Right behind a put that the connector takes, it resolves the reference to the manifest, and the
  -- manifest's digest too if there is one, for contexts that are not done; all blobs of the manifest
  -- were there.
  pub resolve_manifest-put_manifest :
      ((resolve_manifest none repository reference (put_manifest none repository reference m c).1).0
        ≡ ok m)
      × ((m.digest ≡ [])
          ⊎ ((resolve_manifest none repository m.digest
                (put_manifest none repository reference m c).1).0
              ≡ ok m))
      × All (λ digest. Maps.get c.blobs digest ≢ none) m.blob_digests
  unfolding put_manifest
  resolve_manifest-put_manifest =
      elim (Result-cases (check_available none c >> check_blobs c.blobs m.blob_digests)) [
        | inr (e, refused) ↦ absurd (ground (arith, refused, taken))
        | inl (_, passed) ↦
            let (up, complete) =
              >>-eq-ok (check_available none c) (check_blobs c.blobs m.blob_digests) passed in
            let after = add_manifest repository reference m c in
            let still = still_available repository reference m c up in
            rw (put_taken repository reference m c passed) (
              resolved repository reference m after still (named repository reference m c),
              elim (has_digest m) [
                | inl e ↦ inl e
                | inr known ↦ inr (
                    resolved repository m.digest m after still
                      (digested repository reference m c known))
              ],
              check_blobs-All c.blobs m.blob_digests complete,
            )
      ]
