-- ===== src/Resolution/PushSafety.antt =====
-- What a push has done when it succeeds.
use regstair.Base.{◌≡◌, inl, inr, ◌∙◌, true, none, some, List, [], ◌∷◌, All}
use regstair.Strings.{Text}
use regstair.Errors.{
  Error, Result-cases, ok, err, errors_is, blob_not_found, staged_blob_missing,
  blob_digest_mismatch, wrap, lit, plain, manifest_digest_mismatch,
}
use regstair.Effects.{pure, fail, lift, ◌>>◌}
use regstair.Effects.Rules.{
  Ensures, Ensures-pure, Ensures-fail, Ensures-if, Ensures-bind_const, Ensures-weaken,
  Ensures-attempt, >>=_ok, attempt_ok, pure_ok,
}
use regstair.Registry.Types.{Stream, reader, Descriptor}
use regstair.Content.Types.{BlobDescriptor}
use regstair.Metadata.Types.{Time, operation_push}
use regstair.Policy.Types as P
use regstair.Policy.Types.{PushDecision}
use regstair.Policy.Normalize.{Unicode}
use regstair.Policy.Engine.{resolve_push}
use regstair.Resolution.Services.{Services, Resolver}
use regstair.Resolution.Records.{PushRequest, PushResult}
use regstair.Resolution.Recording.{record_unauthorized_push}
use regstair.Resolution.Pull.{authorized, connector_of}
use regstair.Resolution.Push.{
  verify_and_store_manifest, publish_blob, publish_blobs, publish_manifest, publish, push_result,
  manifest_class, fail_push, serve_push, push, destination_error, publish_class, denied_push,
}

module _ (s : Services) (request : PushRequest) (d : PushDecision) where
  fail_push-Ensures :
      {A : Type 0} {P : A → Type 0} (started : Time) (e : Error) (error_class : Text)
      → Ensures P (fail_push s started request d e error_class)
  unfolding fail_push
  fail_push-Ensures started e error_class = Ensures-bind_const _ _ λ _. Ensures-fail e

  module _ (destination : s.Connector) where
    -- The staged blob was read from the store and taken by the destination under its digest.
    abbrev pub IsSent : Text → Type 0
    IsSent digest =
        (w w' : s.World) × (rc : Stream) × (descriptor : Descriptor) × ((s.open_blob digest w).0
          ≡ ok rc)
        × ((s.put_source_blob destination d.physical_repository digest rc w').0 ≡ ok descriptor)

    publish_blob-IsSent :
        (digest : Text)
        → Ensures (λ _. IsSent digest) (publish_blob s destination d.physical_repository digest)
    unfolding publish_blob
    publish_blob-IsSent digest = Ensures-attempt _ _ λ w. elim [
      | err e ↦ λ _.
          Ensures-if (errors_is e blob_not_found)
            (fail (wrap staged_blob_missing (plain digest ∷ []))) (fail e) (λ _. Ensures-fail _)
            (λ _. Ensures-fail e)
      | ok rc ↦ λ opened. Ensures-attempt _ _ λ w'. elim [
        | ok descriptor ↦ λ put. Ensures-pure tt (w, w', rc, descriptor, opened, put)
        | err e ↦ λ _. Ensures-fail _
      ]
    ]

    publish_blobs-IsSent :
        (started : Time) (digests : List Text)
        → Ensures (λ _. All IsSent digests) (publish_blobs s started request d destination digests)
    unfolding publish_blobs
    publish_blobs-IsSent started [] = Ensures-pure tt tt
    publish_blobs-IsSent started (digest ∷ digests) = Ensures-attempt _ _ λ w. elim [
      | ok done ↦ λ h.
          Ensures-weaken _ (λ _ rest. ((publish_blob-IsSent digest).at w done h, rest))
            (publish_blobs-IsSent started digests)
      | err e ↦ λ _. fail_push-Ensures started e (publish_class e)
    ]

    publish_manifest_put :
        (started : Time) (w : s.World) (descriptor : Descriptor)
        → (publish_manifest s started request d destination w).0 ≡ ok descriptor
        → (s.put_manifest destination d.physical_repository d.reference request.manifest w).0
          ≡ ok descriptor
    unfolding publish_manifest pure
    publish_manifest_put started w descriptor h =
        let put = s.put_manifest destination d.physical_repository d.reference request.manifest in
        let tried = attempt_ok put _ w descriptor h in
        elim (Result-cases (put w).0) [
          | inl (x, e) ↦ let same : ok x ≡ ok descriptor = rw e at tried in e ∙ same
          | inr (x, e) ↦ absurd (
              (fail_push-Ensures {P = λ _. ⊥} started (destination_error d.destination x)
                  (manifest_class x)).at
                (put w).1 descriptor (rw e at tried))
        ]

    -- What a push to a connector has done when it succeeds: the manifest's bytes were taken by the
    -- store under the manifest's digest, each blob was sent, and the destination took the manifest in
    -- the state that all of that left.
    pub record Published (credential_source : Text) (result : PushResult) : Type 0 where
      pub staged :
          (w : s.World) × (stored : BlobDescriptor) × ((s.put_blob request.manifest.digest
              (reader request.manifest.content)
              w).0
            ≡ ok stored)
      pub sent : All IsSent request.manifest.blob_digests
      pub started : Time
      pub descriptor : Descriptor
      pub manifest_last :
          (w : s.World) × ((publish_blobs s started request d destination
              request.manifest.blob_digests w).0
            ≡ ok tt)
          × ((s.put_manifest destination d.physical_repository d.reference request.manifest
                (publish_blobs s started request d destination request.manifest.blob_digests w).1).0
              ≡ ok descriptor)
      pub answer : result ≡ push_result d credential_source descriptor

    verified :
        Ensures
          (λ _.
            (w : s.World) × (stored : BlobDescriptor) × ((s.put_blob request.manifest.digest
                (reader request.manifest.content)
                w).0
              ≡ ok stored))
          (verify_and_store_manifest s request.manifest)
    unfolding verify_and_store_manifest
    verified = Ensures-attempt _ _ λ w. elim [
      | ok stored ↦ λ h. Ensures-pure tt (w, stored, h)
      | err e ↦ λ _.
          Ensures-if (errors_is e blob_digest_mismatch)
            (fail (record {
              wraps = manifest_digest_mismatch ∷ [];
              message = lit "manifest digest mismatch: " ∷ e.message;
            }))
            (fail e) (λ _. Ensures-fail _) (λ _. Ensures-fail e)
    ]

    publish-Published :
        (started : Time) (credential_source : Text)
        → Ensures
            (Published credential_source)
            (publish s started request d destination credential_source)
    unfolding publish
    publish-Published started credential_source = Ensures-attempt _ _ λ w. elim [
      | err e ↦ λ _. fail_push-Ensures started e _
      | ok done ↦ λ h. record {
        at = λ w1 result g.
            let (sent, sent_ok, g1) = >>=_ok _ _ w1 result g in
            let (descriptor, put_ok, g2) = >>=_ok _ _ _ result g1 in
            let (recorded, recorded_ok, g3) = >>=_ok _ _ _ result g2 in
            record {
              staged = verified.at w done h;
              sent =
                  (publish_blobs-IsSent started request.manifest.blob_digests).at w1 sent sent_ok;
              started = started;
              descriptor = descriptor;
              manifest_last = (w1, sent_ok, publish_manifest_put started _ descriptor put_ok);
              answer = pure_ok _ _ result g3;
            };
      }
    ]

module _ (s : Services) (r : Resolver s) (request : PushRequest) where
  -- The push went to the connector that serves the principal for the decision's destination.
  abbrev pub IsPublished : PushDecision → PushResult → Type 0
  IsPublished d result =
      (destination : s.Connector) × (credential_source : Text) × ((w : s.World) × ((connector_of s r
            request.principal d.destination operation_push w).0
          ≡ ok (some destination, credential_source)))
      × Published s request d destination credential_source result

  serve_push-IsPublished :
      (started : Time) (d : PushDecision)
      → Ensures (IsPublished d) (serve_push s r started request d)
  unfolding serve_push
  serve_push-IsPublished started d = Ensures-attempt _ _ λ w. elim [
    | err e ↦ λ _. fail_push-Ensures s request d started e _
    | ok (none, credential_source) ↦ λ _. fail_push-Ensures s request d started _ _
    | ok (some destination, credential_source) ↦ λ h.
        Ensures-weaken _ (λ result published. (destination, credential_source, (w, h), published))
          (publish-Published s request d destination started credential_source)
  ]

  module _ ⦃u : Unicode⦄ where
    abbrev pub push_request : P.PushRequest
    push_request = record { repository = request.repository; reference = request.reference }

    -- A push that succeeds was decided by the policy and authorized for the decision's route, and
    -- went to the connector of the decision's destination: the manifest's bytes were verified by the
    -- store, every blob of the manifest was sent, and only then the manifest was published, whose
    -- digest the destination gave is that of the result.
    pub push-IsPublished :
        (w : s.World) (result : PushResult)
        → (push s r request w).0 ≡ ok result
        → (d : PushDecision) × (resolve_push r.policy push_request ≡ ok d)
          × (authorized s r request.principal operation_push d.route_name ≡ true)
          × IsPublished d result
    unfolding push lift
    push-IsPublished w result h = all_results.at w result h
      where
        Decided : PushResult → Type 0
        Decided result =
            (d : PushDecision) × (resolve_push r.policy push_request ≡ ok d)
            × (authorized s r request.principal operation_push d.route_name ≡ true)
            × IsPublished d result

        all_results : Ensures Decided (push s r request)
        all_results = Ensures-bind_const _ _ λ started. Ensures-attempt _ _ λ w. elim [
          | err e ↦ λ _. Ensures-bind_const _ _ λ _. Ensures-fail e
          | ok d ↦ λ decided.
              Ensures-if (authorized s r request.principal operation_push d.route_name)
                (serve_push s r started request d)
                (record_unauthorized_push s started request d >> fail (denied_push request d))
                (λ allowed.
                  Ensures-weaken _ (λ result published. (d, decided, allowed, published))
                    (serve_push-IsPublished started d))
                (λ denied. Ensures-bind_const _ _ λ _. Ensures-fail _)
        ]
