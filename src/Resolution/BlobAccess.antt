-- ===== src/Resolution/BlobAccess.antt =====
-- Who may open a blob.
use regstair.Base.{pos, inl, inr, ◌≡◌, true, none, some, Bool-cases}
use regstair.Errors.{ok, err, bare, blob_not_found}
use regstair.Effects.{pure, fail, lift, attempt, ◌>>=◌}
use regstair.Effects.Rules.{
  Ensures, Ensures-pure, Ensures-fail, Ensures-bind, Ensures-bind_const, Ensures-weaken,
}
use regstair.Metadata.Types.{operation_pull, CacheBinding}
use regstair.Policy.Types as P
use regstair.Policy.Types.{PullDecision}
use regstair.Policy.Normalize.{Unicode}
use regstair.Policy.Engine.{resolve_pull}
use regstair.Resolution.Services.{Services, Resolver}
use regstair.Resolution.Cache.{Grant}
use regstair.Resolution.CacheSafety.{IsGranted, GrantedFor, authorize_cached_object-GrantedFor}
use regstair.Resolution.Pull.{BlobRequest, BlobResult, authorized, listed_size, open_pulled_blob}

module _ ⦃u : Unicode⦄ (s : Services) (r : Resolver s) (request : BlobRequest) where
  abbrev pub blob_policy_request : P.PullRequest
  blob_policy_request = record { repository = request.repository; reference = request.digest }

  -- The blob that the store has under the digest, for a principal with a granted binding of it.
  pub record IsOpened (d : PullDecision) (result : BlobResult) : Type 0 where
    pub binding : CacheBinding
    pub granted : IsGranted s r request.principal d request.digest binding result.credential_source
    pub content : (w : s.World) × ((s.open_blob request.digest w).0 ≡ ok result.content)

  settle :
      (d : PullDecision) (g : Grant)
      → GrantedFor s r request.principal d request.digest g
      → Ensures {W = s.World} (IsOpened d) (elim g [
        | none ↦ fail (bare blob_not_found)
        | some (_, credential_source) ↦ do
          rc ← s.open_blob request.digest
          listed ← attempt s.list_blobs
          pure (record {
            content = rc;
            size = elim listed [ err e ↦ pos 0 | ok blobs ↦ listed_size request.digest blobs ];
            credential_source = credential_source;
          })
      ])
  settle d none h = Ensures-fail _
  settle d (some (binding, credential)) h = Ensures-bind _ _ λ w rc opened.
      Ensures-bind_const _ _
        λ listed. Ensures-pure _ (record { binding = binding; granted = h; content = (w, opened) })

  -- A blob is opened only where the policy finds a route for the repository, the principal is
  -- authorized for that route, and a cache binding of the blob lets the principal have it; what is
  -- opened is the store's blob of that digest.
  pub open_pulled_blob-IsOpened :
      (w : s.World) (result : BlobResult)
      → (open_pulled_blob s r request w).0 ≡ ok result
      → (d : PullDecision) × (resolve_pull r.policy blob_policy_request ≡ ok d)
        × (authorized s r request.principal operation_pull d.route_name ≡ true)
        × IsOpened d result
  unfolding open_pulled_blob lift
  open_pulled_blob-IsOpened w result h = all_results.at w result h
    where
      Decided : BlobResult → Type 0
      Decided result =
          (d : PullDecision) × (resolve_pull r.policy blob_policy_request ≡ ok d)
          × (authorized s r request.principal operation_pull d.route_name ≡ true)
          × IsOpened d result

      all_results : Ensures Decided (open_pulled_blob s r request)
      all_results = Ensures-bind _ _ λ w d decided.
          elim (Bool-cases (authorized s r request.principal operation_pull d.route_name)) [
            | inr denied ↦ rw denied (Ensures-fail _)
            | inl allowed ↦ rw allowed (
                Ensures-bind _ _ λ w g h.
                  Ensures-weaken _ (λ result opened. (d, decided, allowed, opened))
                    (settle d g (
                      (authorize_cached_object-GrantedFor s r request.principal d request.digest).at
                        w g h)))
          ]
