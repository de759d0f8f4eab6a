-- ===== src/Gateway/Unchanged.antt =====
-- The handlers of internal/gateway/server.go that have no upload session to change.
use regstair.Base.{◌≡◌, refl, inl, inr, Option, none, some, [], ◌==◌, Bool-cases, Option-cases}
use regstair.Strings.{Text, text_eq, codes, has_prefix}
use regstair.Strings.Search.{Casing}
use regstair.Errors.{Error, Result-cases, errors_is, blob_not_found}
use regstair.Effects.{Exec}
use regstair.Identity.{Principal, kind_anonymous}
use regstair.Registry.Parse.{parse_manifest}
use regstair.Registry.Types.{Manifest}
use regstair.Security.FailureLimiter.{allow}
use regstair.Resolution.Records.{PullRequest, PushRequest, PushResult}
use regstair.Resolution.Pull.{BlobRequest}
use regstair.Gateway.Types.{
  Backend, Authenticator, Request, Headers, State, call, Instants, method_put,
}
use regstair.Gateway.Paths.{reads, gateway_authentication_rate_keys}
use regstair.Gateway.Access.{
  authenticate, judge_authentication, limit_authentication, settle_authentication,
}
use regstair.Gateway.Server.{
  get_manifest, put_manifest, push_manifest, handle_manifest, handle_blob,
}

module _ {W : Type 0} where
  -- The sessions and the last number are as they were.
  abbrev pub IsSame : State W → State W → Type 0
  IsSame st st' = (st'.uploads ≡ st.uploads) × (st'.next_id ≡ st.next_id)

module _ (b : Backend) (w : Headers) (r : Request) (repository : Text) (principal : Principal) where
  get_manifest-IsSame :
      (reference : Text) (st : State b.World)
      → IsSame st (get_manifest b w r repository reference principal st).1
  unfolding get_manifest
  get_manifest-IsSame reference st = elim (Option-cases b.puller) [
    | inl e ↦ rw (get_manifest, e) (refl, refl)
    | inr (pull, e) ↦
        let request : PullRequest = record {
          repository = repository;
          reference = reference;
          principal = principal;
        } in
        elim (Result-cases (pull request st.world).0) [
          | inl (result, k) ↦ rw (get_manifest, e, k) (refl, refl)
          | inr (failed, k) ↦ rw (get_manifest, e, k) (refl, refl)
        ]
  ]

  push_manifest-IsSame :
      (push : PushRequest → Exec b.World PushResult) (reference : Text) (manifest : Manifest)
      (st : State b.World)
      → IsSame st
          (push_manifest b
            (λ request. call (push request))
            w
            repository
            reference
            principal
            manifest
            st).1
  unfolding push_manifest
  push_manifest-IsSame push reference manifest st =
      let request : PushRequest = record {
        repository = repository;
        reference = reference;
        manifest = manifest;
        principal = principal;
      } in
      elim (Result-cases (push request st.world).0) [
        | inl (result, k) ↦ rw (push_manifest, k) (refl, refl)
        | inr (failed, k) ↦ rw (push_manifest, k) (refl, refl)
      ]

  put_manifest-IsSame :
      (reference : Text) (st : State b.World)
      → IsSame st (put_manifest b w r repository reference principal st).1
  unfolding put_manifest
  put_manifest-IsSame reference st = elim (Option-cases b.pusher) [
    | inl e ↦ rw (put_manifest, e) (refl, refl)
    | inr (push, e) ↦ elim (Option-cases r.body.read_error) [
      | inr (failed, k) ↦ rw (put_manifest, e, k) (refl, refl)
      | inl k ↦ elim (Option-cases (parse_manifest b.unmarshal b.digest_bytes r.body.body)) [
        | inl p ↦ rw (put_manifest, e, k, p) (refl, refl)
        | inr (manifest, p) ↦
            rw (put_manifest, e, k, p) (push_manifest-IsSame push reference manifest st)
      ]
    ]
  ]

  pub handle_manifest-IsSame :
      (reference : Text) (st : State b.World)
      → IsSame st (handle_manifest b w r repository reference principal st).1
  unfolding handle_manifest
  handle_manifest-IsSame reference st = elim (Bool-cases (reference == [])) [
    | inl e ↦ rw (handle_manifest, e) (refl, refl)
    | inr e ↦ elim (Bool-cases (reads r.method)) [
      | inl k ↦ rw (handle_manifest, e, k) (get_manifest-IsSame reference st)
      | inr k ↦ elim (Bool-cases (r.method == method_put)) [
        | inl p ↦ rw (handle_manifest, e, k, p) (put_manifest-IsSame reference st)
        | inr p ↦ rw (handle_manifest, e, k, p) (refl, refl)
      ]
    ]
  ]

  pub handle_blob-IsSame :
      (digest : Text) (st : State b.World)
      → IsSame st (handle_blob b w r repository digest principal st).1
  unfolding handle_blob
  handle_blob-IsSame digest st = elim (Bool-cases (digest == [])) [
    | inl e ↦ rw (handle_blob, e) (refl, refl)
    | inr e ↦ elim (Bool-cases (reads r.method)) [
      | inr k ↦ rw (handle_blob, e, k) (refl, refl)
      | inl k ↦ elim (Option-cases b.blob_puller) [
        | inl p ↦ rw (handle_blob, e, k, p) (refl, refl)
        | inr (open_blob, p) ↦
            let request : BlobRequest = record {
              repository = repository;
              digest = digest;
              principal = principal;
            } in
            elim (Result-cases (open_blob request st.world).0) [
              | inl (result, q) ↦ rw (handle_blob, e, k, p, q) (refl, refl)
              | inr (failed, q) ↦ elim (Bool-cases (errors_is failed blob_not_found)) [
                | inl c ↦ rw (handle_blob, e, k, p, q, c) (refl, refl)
                | inr c ↦ rw (handle_blob, e, k, p, q, c) (refl, refl)
              ]
            ]
      ]
    ]
  ]

module _ ⦃k : Casing⦄ {W : Type 0} (at : Instants) (w : Headers) (r : Request) where
  limit-IsSame :
      (principal : Principal) (failed : Option Error) (st : State W)
      → IsSame st (limit_authentication at w r principal failed st).1
  unfolding limit_authentication settle_authentication
  limit-IsSame principal failed st =
      elim (Bool-cases
        (allow at.allowed_at (gateway_authentication_rate_keys r.remote_address principal.username)
          st.limiter).0.0) [
            | inr e ↦ rw e (refl, refl)
            | inl e ↦ elim (Option-cases failed) [
              | inl c ↦ rw (e, c) (refl, refl)
              | inr (failure, c) ↦ rw (e, c) (refl, refl)
            ]
          ]

  judge-IsSame :
      (principal : Principal) (failed : Option Error) (st : State W)
      → IsSame st (judge_authentication at w r principal failed st).1
  unfolding judge_authentication
  judge-IsSame principal (some e) st = limit-IsSame principal (some e) st
  judge-IsSame principal none st = elim (Bool-cases (principal.kind == kind_anonymous)) [
    | inl e ↦ rw e (refl, refl)
    | inr e ↦ rw e (limit-IsSame principal none st)
  ]

  pub authenticate-IsSame :
      (a : Option (Authenticator W)) (st : State W) → IsSame st (authenticate at a w r st).1
  unfolding authenticate
  authenticate-IsSame none st = (refl, refl)
  authenticate-IsSame (some a) st =
      elim (Bool-cases (has_prefix r.authorization (codes "Bearer "))) [
        | inr e ↦ rw e (refl, refl)
        | inl e ↦ rw e (judge-IsSame _ _ _)
      ]
