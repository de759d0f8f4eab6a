-- ===== src/Gateway/Routes.antt =====
-- The paths that the gateway writes and those that it reads.
use regstair.Base.{◌≡◌, ◌≢◌, refl, ◌∙◌, false, some, [], ◌∷◌, ◌++◌}
use regstair.Strings.{Text, text_beq, codes, contains, trim_prefix-append, has_prefix-append}
use regstair.Strings.Search.{split_at-append, split_at-none}
use regstair.Gateway.Paths.{
  manifests, blobs, manifests_marker, blobs_marker, parse_v2_path, marked_route, checked_route,
}

-- A text that can stand in a path: it is not empty.
checked_route-some :
    (repository rest : Text)
    → repository ≢ []
    → rest ≢ []
    → (checked_route manifests repository rest
        ≡ some (record { repository = repository; action = manifests; rest = rest }))
      × (checked_route blobs repository rest
          ≡ some (record { repository = repository; action = blobs; rest = rest }))
unfolding checked_route text_beq
checked_route-some [] rest h k = absurd (h refl)
checked_route-some (c ∷ repository) [] h k = absurd (k refl)
checked_route-some (c ∷ repository) (d ∷ rest) h k = (refl, refl)

version_prefix : (trimmed : Text) → parse_v2_path (codes "/v2/" ++ trimmed) ≡ marked_route trimmed
unfolding parse_v2_path
version_prefix trimmed =
    rw (has_prefix-append (codes "/v2/") trimmed, trim_prefix-append (codes "/v2/") trimmed) refl

-- The path of a manifest is read as its repository and its reference, and the path of a blob or of
-- an upload as its repository and what follows: if neither part is empty and no marker begins
-- further in front.
module _ (repository rest : Text) (named : repository ≢ []) (followed : rest ≢ []) where
  pub parse_v2_path-manifests :
      contains (repository ++ codes "/manifests") manifests_marker ≡ false
      → parse_v2_path (codes "/v2/" ++ repository ++ manifests_marker ++ rest)
        ≡ some (record { repository = repository; action = manifests; rest = rest })
  unfolding marked_route
  parse_v2_path-manifests h =
      version_prefix _
      ∙ rw (marked_route, split_at-append (codes "/manifests") b'/' repository rest h)
          (checked_route-some repository rest named followed).0

  pub parse_v2_path-blobs :
      contains (repository ++ blobs_marker ++ rest) manifests_marker ≡ false
      → contains (repository ++ codes "/blobs") blobs_marker ≡ false
      → parse_v2_path (codes "/v2/" ++ repository ++ blobs_marker ++ rest)
        ≡ some (record { repository = repository; action = blobs; rest = rest })
  unfolding marked_route
  parse_v2_path-blobs h k =
      version_prefix _
      ∙ rw
          (
            marked_route,
            split_at-none manifests_marker _ h,
            split_at-append (codes "/blobs") b'/' repository rest k,
          )
          (checked_route-some repository rest named followed).1
