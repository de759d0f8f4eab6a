-- ===== src/Resolution/CacheResults.antt =====
-- What a pull may be answered with from the local cache.
use regstair.Base.{
  pos, ◌≡◌, refl, sym, subst, ◌⊎◌, inl, inr, true, false, Option, none, some, [], ◌∷◌, arith,
  if◌then◌else◌,
}
use regstair.Strings.{Text, text_eq}
use regstair.Errors.{lit, Error, ok, err, Message, errors_is, blob_not_found}
use regstair.Effects.{Exec, pure, fail, ◌>>=◌}
use regstair.Effects.Rules.{
  Ensures, Ensures-pure, Ensures-fail, Ensures-if, Ensures-bind, Ensures-bind_const,
  Ensures-attempt, >>=_ok, pure_ok,
}
use regstair.Registry.Types.{Bytes, Stream, Descriptor, Manifest}
use regstair.Metadata.Types.{Time, CacheBinding, TagMapping}
use regstair.Policy.Types.{PullDecision}
use regstair.Resolution.Services.{Services, Resolver}
use regstair.Resolution.Records.{PullRequest, PullResult, mapping_is_fresh, is_digest_reference}
use regstair.Resolution.Cache.{
  source_cache, Grant, described, cached_manifest_by_digest, is_bound_to, serve_cached,
  serve_mapping, try_digest, try_mapping, try_tag, try_cache,
}
use regstair.Resolution.CacheSafety.{IsGranted, GrantedFor, authorize_cached_object-GrantedFor}

module _ (s : Services) where
  -- The manifest of a blob of the store: its bytes under its digest.
  abbrev pub IsStored : Text → Manifest → Type 0
  IsStored digest manifest =
      (manifest.digest ≡ digest)
      × ((w : s.World) × (rc : Stream) × ((s.open_blob digest w).0 ≡ ok rc)
          × (rc.read_error ≡ none)
          × (manifest.content ≡ rc.body))

  abbrev StoredFor : Text → Option Manifest → Type 0
  StoredFor digest none = Unit
  StoredFor digest (some manifest) = IsStored digest manifest

  described_content :
      (descriptor : Descriptor) (body : Bytes)
      → ((described s descriptor body).digest ≡ descriptor.digest)
        × ((described s descriptor body).content ≡ body)
  unfolding described
  described_content descriptor body = ground arith

  read_manifest :
      (descriptor : Descriptor) (w : s.World) (rc : Stream)
      → (s.open_blob descriptor.digest w).0 ≡ ok rc
      → Ensures {W = s.World} (StoredFor descriptor.digest) (elim rc.read_error [
        | some e ↦ fail {W = s.World} e
        | none ↦ pure (some (described s descriptor rc.body))
      ])
  read_manifest descriptor w rc opened = settle rc.read_error refl
    where
      settle :
          (o : Option Error)
          → rc.read_error ≡ o
          → Ensures {W = s.World} (StoredFor descriptor.digest) (elim o [
            | some e ↦ fail {W = s.World} e
            | none ↦ pure (some (described s descriptor rc.body))
          ])
      settle (some e) h = Ensures-fail e
      settle none h =
          let (same_digest, same_content) = described_content descriptor rc.body in
          Ensures-pure (some (described s descriptor rc.body))
            (same_digest, (w, rc, opened, h, same_content))

  cached_manifest_by_digest-StoredFor :
      (descriptor : Descriptor)
      → Ensures
          (StoredFor descriptor.digest)
          (cached_manifest_by_digest s descriptor.digest descriptor)
  unfolding cached_manifest_by_digest
  cached_manifest_by_digest-StoredFor descriptor = Ensures-attempt _ _ λ w. elim [
    | err e ↦ λ h.
        Ensures-if (errors_is e blob_not_found) (pure none) (fail e) (λ _. Ensures-pure none tt)
          (λ _. Ensures-fail e)
    | ok rc ↦ λ h. read_manifest descriptor w rc h
  ]

module _ (s : Services) (r : Resolver s) (request : PullRequest) (d : PullDecision) where
  -- The tag's mapping, which was fresh by the clock that was read behind the search for it.
  pub record IsFresh (mapping : TagMapping) : Type 0 where
    pub searched : s.World
    pub time : Time
    pub found : (s.find_tag_mapping d.logical_repository d.reference searched).0 ≡ ok (some mapping)
    pub read : (s.now (s.find_tag_mapping d.logical_repository d.reference searched).1).0 ≡ ok time
    pub fresh : mapping_is_fresh mapping time ≡ true

  -- The digest that the reference stands for: itself, or that of the tag's fresh mapping, whose
  -- source and manifest the binding must share.
  abbrev pub Names : Text → CacheBinding → Type 0
  Names digest binding =
      ((is_digest_reference d.reference ≡ true) × (digest ≡ d.reference))
      ⊎ ((mapping : TagMapping) × IsFresh mapping
          × (digest ≡ mapping.digest)
          × (is_bound_to binding mapping ≡ true))

  -- A result from the cache: the stored bytes of the digest that the reference stands for, which a
  -- binding lets the principal have, under the credential that the result names.
  pub record FromCache (result : PullResult) : Type 0 where
    pub route : result.route ≡ d.route_name
    pub source : result.source ≡ source_cache
    pub fallback_used : result.fallback_used ≡ false
    pub digest : Text
    pub binding : CacheBinding
    pub names : Names digest binding
    pub granted : IsGranted s r request.principal d digest binding result.credential_source
    pub stored : IsStored s digest result.manifest

  abbrev pub CachedFrom : Option PullResult → Type 0
  CachedFrom none = Unit
  CachedFrom (some result) = FromCache result

  module _ (started : Time) where
    module _ (digest : Text) (binding : CacheBinding) (names : Names digest binding)
        (credential : Text)
        (granted : IsGranted s r request.principal d digest binding credential) where
      serve_cached-CachedFrom :
          (manifest : Manifest) (how : Message)
          → IsStored s digest manifest
          → Ensures CachedFrom (serve_cached s started request d manifest credential how)
      unfolding serve_cached
      serve_cached-CachedFrom manifest how stored = Ensures-bind_const _ _ λ _.
          Ensures-pure _ (record {
            route = refl;
            source = refl;
            fallback_used = refl;
            digest = digest;
            binding = binding;
            names = names;
            granted = granted;
            stored = stored;
          })

    try_digest-CachedFrom :
        is_digest_reference d.reference ≡ true
        → Ensures CachedFrom (try_digest s r started request d)
    unfolding try_digest
    try_digest-CachedFrom digested = Ensures-bind _ _ λ w g h.
        granted g
          ((authorize_cached_object-GrantedFor s r request.principal d d.reference).at w g h)
      where
        granted :
            (g : Grant)
            → GrantedFor s r request.principal d d.reference g
            → Ensures {W = s.World} CachedFrom (elim g [
              | none ↦ pure none
              | some (_, credential) ↦ do
                cached ←
                    cached_manifest_by_digest s d.reference
                      (record { media_type = []; digest = d.reference; size = pos 0 })
                elim cached [
                  | none ↦ pure none
                  | some manifest ↦
                      serve_cached s started request d manifest credential
                        (lit "served digest reference from local cache" ∷ [])
                ]
            ])
        granted none h = Ensures-pure none tt
        granted (some (binding, credential)) h = Ensures-bind _ _ λ w. elim [
          | none ↦ λ _. Ensures-pure none tt
          | some manifest ↦ λ e.
              serve_cached-CachedFrom d.reference binding (inl (digested, refl)) credential h
                manifest _
                ((cached_manifest_by_digest-StoredFor s
                    (record { media_type = []; digest = d.reference; size = pos 0 })).at
                  w (some manifest) e)
        ]

    module _ (mapping : TagMapping) (fresh : IsFresh mapping) where
      serve_mapping-CachedFrom :
          (binding : CacheBinding) (credential : Text)
          → IsGranted s r request.principal d mapping.digest binding credential
          → is_bound_to binding mapping ≡ true
          → Ensures CachedFrom (serve_mapping s started request d mapping credential)
      unfolding serve_mapping
      serve_mapping-CachedFrom binding credential granted bound = Ensures-bind _ _ λ w. elim [
        | none ↦ λ _. Ensures-pure none tt
        | some manifest ↦ λ e.
            serve_cached-CachedFrom mapping.digest binding (inr (mapping, fresh, refl, bound))
              credential granted (record manifest { blob_digests = mapping.blob_digests }) _
              ((cached_manifest_by_digest-StoredFor s (record {
                media_type = mapping.media_type;
                digest = mapping.digest;
                size = mapping.size;
              })).at
                w (some manifest) e)
      ]

      bound_mapping :
          (binding : CacheBinding) (credential : Text)
          → IsGranted s r request.principal d mapping.digest binding credential
          → Ensures CachedFrom (
              if is_bound_to binding mapping
              then serve_mapping s started request d mapping credential
              else pure none)
      bound_mapping binding credential granted =
          Ensures-if (is_bound_to binding mapping)
            (serve_mapping s started request d mapping credential) (pure none)
            (serve_mapping-CachedFrom binding credential granted) (λ _. Ensures-pure none tt)

      try_mapping-CachedFrom : Ensures CachedFrom (try_mapping s r started request d mapping)
      unfolding try_mapping
      try_mapping-CachedFrom = Ensures-bind _ _ λ w. elim [
        | none ↦ λ _. Ensures-pure none tt
        | some (binding, credential) ↦ λ h. bound_mapping binding credential (
            (authorize_cached_object-GrantedFor s r request.principal d mapping.digest).at w
              (some (binding, credential)) h)
      ]

    try_tag-CachedFrom : Ensures CachedFrom (try_tag s r started request d)
    unfolding try_tag
    try_tag-CachedFrom = record {
      at = λ w cached h.
          let (found, e, rest) =
            >>=_ok (s.find_tag_mapping d.logical_repository d.reference) _ w cached h in
          by_mapping w cached found e rest;
    }
      where
        by_mapping :
            (w : s.World) (cached : Option PullResult) (found : Option TagMapping)
            → (s.find_tag_mapping d.logical_repository d.reference w).0 ≡ ok found
            → ((elim found as (λ _. Exec s.World (Option PullResult)) [
              | none ↦ pure none
              | some mapping ↦ do
                time ← s.now
                if mapping_is_fresh mapping time
                    then try_mapping s r started request d mapping
                    else pure none
            ])
                (s.find_tag_mapping d.logical_repository d.reference w).1).0
              ≡ ok cached
            → CachedFrom cached
        by_mapping w cached none e h = subst CachedFrom (sym (pure_ok none _ cached h)) tt
        by_mapping w cached (some mapping) e h =
            let (time, read, rest) =
              >>=_ok s.now _ (s.find_tag_mapping d.logical_repository d.reference w).1 cached h in
            (Ensures-if {P = CachedFrom} (mapping_is_fresh mapping time)
                (try_mapping s r started request d mapping) (pure none)
                (λ fresh.
                  try_mapping-CachedFrom mapping
                    (record { searched = w; time = time; found = e; read = read; fresh = fresh }))
                (λ _. Ensures-pure none tt)).at
              _ cached rest

    pub try_cache-CachedFrom : Ensures CachedFrom (try_cache s r started request d)
    unfolding try_cache
    try_cache-CachedFrom =
        Ensures-if (is_digest_reference d.reference) (try_digest s r started request d)
          (try_tag s r started request d) try_digest-CachedFrom (λ _. try_tag-CachedFrom)
