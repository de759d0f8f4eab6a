-- ===== src/Resolution/CacheSafety.antt =====
-- What may be served from the local cache, and to whom.
use regstair.Base.{
  ◌≡◌, refl, ◌⊎◌, inl, inr, true, Option, none, some, List, [], ◌∷◌, In, Bool-cases,
}
use regstair.Strings.{Text, text_eq, text_beq, text_beq_iff}
use regstair.Errors.{Error, ok, err, bare, credential_required}
use regstair.Effects.{Exec, pure}
use regstair.Effects.Rules.{
  Ensures, Ensures-pure, Ensures-fail, Ensures-if, Ensures-bind, Ensures-weaken, Ensures-attempt,
}
use regstair.Identity.{Principal}
use regstair.Metadata.Types.{operation_pull, access_challenge, CacheBinding}
use regstair.Policy.Types.{PullDecision}
use regstair.Policy.Validate.{contains}
use regstair.Resolution.Services.{Services, Resolver, Provider}
use regstair.Resolution.Cache.{
  Grant, anonymous_credential, ask_grant, consider_binding, authorize_bindings,
  authorize_cached_object,
}

module _ (s : Services) (r : Resolver s) (principal : Principal) (d : PullDecision) where
  -- A binding of the object for the decision's repository and route, of a source that the decision
  -- allows, under which the principal may be served: a challenge binding serves everybody, any other
  -- one that the provider grants.
  pub record IsGranted (digest : Text) (binding : CacheBinding) (credential : Text) : Type 0 where
    pub listed :
        (w : s.World) × (bindings : List CacheBinding) × ((s.list_cache_bindings
            d.logical_repository d.route_name digest w).0
          ≡ ok bindings)
        × In binding bindings
    pub allowed_source : contains d.candidate_sources binding.source ≡ true
    pub permitted :
        ((binding.access ≡ access_challenge) × (credential ≡ anonymous_credential))
        ⊎ ((provider : Provider s) × (w : s.World) × (r.provider ≡ some provider)
            × ((provider.authorize_cache principal binding operation_pull w).0 ≡ ok credential))

  abbrev Permits : List CacheBinding → Grant → Type 0
  Permits bindings none = Unit
  Permits bindings (some (binding, credential)) =
      In binding bindings
      × (contains d.candidate_sources binding.source ≡ true)
      × (((binding.access ≡ access_challenge) × (credential ≡ anonymous_credential))
          ⊎ ((provider : Provider s) × (w : s.World) × (r.provider ≡ some provider)
              × ((provider.authorize_cache principal binding operation_pull w).0 ≡ ok credential)))

  Permits-cons :
      (b : CacheBinding) (bs : List CacheBinding) (g : Grant) → Permits bs g → Permits (b ∷ bs) g
  Permits-cons b bs none h = tt
  Permits-cons b bs (some (binding, credential)) (m, allowed, permitted) =
      (inr m, allowed, permitted)

  module _ (b : CacheBinding) (bs : List CacheBinding) (next : Option Error → Exec s.World Grant)
      (later : (denied : Option Error) → Ensures (Permits (b ∷ bs)) (next denied)) where
    ask_grant-Permits :
        (p : Option (Provider s))
        → r.provider ≡ p
        → contains d.candidate_sources b.source ≡ true
        → Ensures (Permits (b ∷ bs)) (ask_grant s p principal b next)
    unfolding ask_grant
    ask_grant-Permits none e allowed = later (some (bare credential_required))
    ask_grant-Permits (some provider) e allowed = Ensures-attempt _ _ λ w. elim [
      | ok credential ↦
          λ h. Ensures-pure (some (b, credential)) (inl refl, allowed, inr (provider, w, e, h))
      | err e ↦ λ h. later (some e)
    ]

    granted_openly :
        contains d.candidate_sources b.source ≡ true
        → text_beq b.access access_challenge ≡ true
        → Permits (b ∷ bs) (some (b, anonymous_credential))
    granted_openly allowed open_access =
        (inl refl, allowed, inl ((text_beq_iff b.access access_challenge).0 open_access, refl))

    consider_binding-Permits :
        (denied : Option Error)
        → Ensures (Permits (b ∷ bs)) (consider_binding s r principal d b denied next)
    unfolding consider_binding
    consider_binding-Permits denied = elim (Bool-cases (contains d.candidate_sources b.source)) [
      | inr foreign ↦ rw foreign (later denied)
      | inl allowed ↦ rw allowed (
          Ensures-if (text_beq b.access access_challenge) (pure (some (b, anonymous_credential)))
            (ask_grant s r.provider principal b next)
            (λ e. Ensures-pure _ (granted_openly allowed e))
            (λ _. ask_grant-Permits r.provider refl allowed))
    ]

  authorize_bindings-Permits :
      (bindings : List CacheBinding) (denied : Option Error)
      → Ensures (Permits bindings) (authorize_bindings s r principal d bindings denied)
  unfolding authorize_bindings
  authorize_bindings-Permits [] (some e) = Ensures-fail e
  authorize_bindings-Permits [] none = Ensures-pure none tt
  authorize_bindings-Permits (b ∷ bs) denied =
      consider_binding-Permits b bs (authorize_bindings s r principal d bs)
        (λ denied. Ensures-weaken _ (Permits-cons b bs) (authorize_bindings-Permits bs denied))
        denied

  abbrev pub GrantedFor : Text → Grant → Type 0
  GrantedFor digest none = Unit
  GrantedFor digest (some (binding, credential)) = IsGranted digest binding credential

  pub authorize_cached_object-GrantedFor :
      (digest : Text) → Ensures (GrantedFor digest) (authorize_cached_object s r principal d digest)
  unfolding authorize_cached_object
  authorize_cached_object-GrantedFor digest = Ensures-bind _ _ λ w bindings listed.
      Ensures-weaken _ (weaken w bindings listed) (authorize_bindings-Permits bindings none)
    where
      weaken :
          (w : s.World) (bindings : List CacheBinding)
          → (s.list_cache_bindings d.logical_repository d.route_name digest w).0 ≡ ok bindings
          → (g : Grant) → Permits bindings g
          → GrantedFor digest g
      weaken w bindings listed none h = tt
      weaken w bindings listed (some (binding, credential)) (m, allowed, permitted) = record {
        listed = (w, bindings, listed, m);
        allowed_source = allowed;
        permitted = permitted;
      }
