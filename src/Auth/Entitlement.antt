-- ===== src/Auth/Entitlement.antt =====
-- Whom the selector lets have a cached object, and what that means for a pull.
use regstair.Base.{
  ◌≡◌, refl, sym, subst, ◌∙◌, ◌⊎◌, inl, inr, true, false, not, ◌&&◌, none, some, List, [], ◌∷◌,
  ◌++◌, arith, if◌then◌else◌, In, Bool-cases, Option-cases,
}
use regstair.Strings.{Text, text_eq, text_beq, text_beq_iff, codes}
use regstair.Errors.{ok, err, bare, credential_required, authorization}
use regstair.Effects.{pure, fail}
use regstair.Effects.Rules.{
  Ensures, Ensures-pure, Ensures-fail, Ensures-if, Ensures-weaken, Ensures-attempt, Ensures-always,
}
use regstair.Maps
use regstair.Maps.{Map}
use regstair.Identity.{Principal, kind_local_user}
use regstair.Metadata.Types.{
  User, CacheBinding, operation_pull, access_challenge, access_current_user_required,
}
use regstair.Policy.Types.{PullDecision}
use regstair.Policy.Normalize.{Unicode}
use regstair.Policy.Engine.{resolve_pull}
use regstair.Resolution.Services.{Services, Resolver, Provider}
use regstair.Resolution.Records.{PullRequest, PullResult}
use regstair.Resolution.CacheResults.{FromCache}
use regstair.Resolution.Pull.{pull}
use regstair.Resolution.Asking.{IsAnswered}
use regstair.Resolution.PullSources.{pull-ComesFrom, policy_request}
use regstair.Auth.Selector.{
  connector_for, SourceConfig, Accounts, is_local_user, enabled_source, authorize_user,
  authorize_bound, authorize_cache,
}

module _ {W Connector : Type 0} (a : Accounts W Connector) (sources : Map Text SourceConfig)
    (connectors : Map Text Connector) where
  -- An active local user, and the one that the binding is bound to if it is bound to one.
  pub record IsActiveUser (principal : Principal) (binding : CacheBinding) : Type 0 where
    pub local : principal.kind ≡ kind_local_user
    pub named : text_beq principal.id [] ≡ false
    pub same_user : binding.access ≡ access_current_user_required → principal.id ≡ binding.user_id
    pub active :
        (w : W) × (user : User) × ((a.find_user_by_id principal.id w).0 ≡ ok (some user))
        × (user.enabled ≡ true)

  -- The binding's source is configured and enabled, and the binding is open to all, or the principal
  -- is an active user who may use it.
  abbrev pub IsEntitled : Principal → CacheBinding → Type 0
  IsEntitled principal binding =
      ((source : SourceConfig) × (Maps.get sources binding.source ≡ some source)
        × (source.enabled ≡ true))
      × ((binding.access ≡ access_challenge) ⊎ IsActiveUser principal binding)

  enabled_source-some :
      (id : Text) (source : SourceConfig)
      → enabled_source a sources connectors id ≡ some source
      → (Maps.get sources id ≡ some source) × (source.enabled ≡ true)
  enabled_source-some id source h = elim (Option-cases (Maps.get sources id)) [
    | inl missing ↦ absurd (ground (arith, h, missing))
    | inr (found, e) ↦
        let same : (if found.enabled then some found else none) ≡ some source =
          rw (e, enabled_source) at h in
        (ground (arith, e, same), ground (arith, same))
  ]

  module _ (principal : Principal) (binding : CacheBinding) where
    abbrev Active : Type 0
    Active =
        (w : W) × (user : User) × ((a.find_user_by_id principal.id w).0 ≡ ok (some user))
        × (user.enabled ≡ true)

    authorize_user-Active :
        Ensures (λ _. Active) (authorize_user a sources connectors principal binding)
    unfolding authorize_user
    authorize_user-Active = Ensures-attempt _ _ λ w. elim [
      | err e ↦ λ _. Ensures-fail _
      | ok none ↦ λ _. Ensures-fail _
      | ok (some user) ↦ λ found. elim (Bool-cases user.enabled) [
        | inr disabled ↦ rw disabled (Ensures-fail _)
        | inl enabled ↦ rw enabled (Ensures-always _ λ _. (w, user, found, enabled))
      ]
    ]

    authorize_bound-IsActiveUser :
        Ensures
          (λ _. IsActiveUser principal binding)
          (authorize_bound a sources connectors principal binding)
    unfolding authorize_bound
    authorize_bound-IsActiveUser =
        Ensures-if (not (is_local_user principal)) (fail (bare credential_required)) _
          (λ _. Ensures-fail _)
          λ yes.
            Ensures-if
              (text_beq binding.access access_current_user_required
                && not (text_beq principal.id binding.user_id))
              (fail (bare authorization)) (authorize_user a sources connectors principal binding)
              (λ _. Ensures-fail _)
              λ mine.
                Ensures-weaken _
                  (λ _ active. record {
                    local = ground (arith, yes, text_beq_iff principal.kind kind_local_user);
                    named = ground (arith, yes);
                    same_user = λ e. ground (
                      arith,
                      mine,
                      text_beq_iff principal.id binding.user_id,
                      (text_beq_iff binding.access access_current_user_required).1 e,
                    );
                    active = active;
                  })
                  authorize_user-Active

    -- AuthorizeCache lets a principal have a cached object only where the binding's source is
    -- enabled, and the binding is open to all, or the principal is an active local user, and the
    -- one that the binding is bound to if it requires its user.
    pub authorize_cache-IsEntitled :
        (operation : Text)
        → Ensures
            (λ _. IsEntitled principal binding)
            (authorize_cache a sources connectors principal binding operation)
    unfolding authorize_cache
    authorize_cache-IsEntitled operation =
        elim (Option-cases (enabled_source a sources connectors binding.source)) [
          | inl missing ↦ rw (missing, authorize_cache) (Ensures-fail _)
          | inr (source, there) ↦
              rw (there, authorize_cache)
                (let configured : (source : SourceConfig) × (Maps.get sources binding.source
                        ≡ some source)
                      × (source.enabled ≡ true) =
                    (
                      source,
                      (enabled_source-some binding.source source there).0,
                      (enabled_source-some binding.source source there).1,
                    ) in
                  Ensures-if
                    (text_beq binding.access access_challenge && text_beq operation operation_pull)
                    (pure (codes "anonymous"))
                    (authorize_bound a sources connectors principal binding)
                    (λ open_access. Ensures-pure _ (
                      configured,
                      inl (
                          ground
                            (arith, open_access, text_beq_iff binding.access access_challenge)),
                    ))
                    (λ _.
                      Ensures-weaken _ (λ _ user. (configured, inr user))
                        authorize_bound-IsActiveUser))
        ]

-- The resolvers' ConnectorProvider, which the selector is.
abbrev pub selector :
    (s : Services)
    → Accounts s.World s.Connector
    → Map Text SourceConfig
    → Map Text s.Connector
    → Provider s
selector s a sources connectors = record {
  connector_for = connector_for a sources connectors;
  authorize_cache = authorize_cache a sources connectors;
}

In-middle : (before after : List Text) (x : Text) → In x (before ++ x ∷ after)
In-middle [] after x = inl refl
In-middle (y ∷ before) after x = inr (In-middle before after x)

some_injective : {A : Type 0} {x y : A} → some x ≡ some y → x ≡ y
some_injective e = cc

module _ ⦃u : Unicode⦄ (s : Services) (a : Accounts s.World s.Connector)
    (sources : Map Text SourceConfig) (connectors : Map Text s.Connector) (r : Resolver s)
    (selected : r.provider ≡ some (selector s a sources connectors)) where
  permitted-IsEntitled :
      (request : PullRequest) (d : PullDecision) (result : PullResult)
      (from : FromCache s r request d result)
      → (from.binding.access ≡ access_challenge)
        ⊎ IsEntitled a sources connectors request.principal from.binding
  permitted-IsEntitled request d result from = elim from.granted.permitted [
    | inl (open_access, _) ↦ inl open_access
    | inr (provider, w, e, h) ↦
        let same : provider ≡ selector s a sources connectors = some_injective (sym e ∙ selected) in
        inr (
          (authorize_cache-IsEntitled a sources connectors request.principal from.binding
              operation_pull).at
            w result.credential_source
            (subst
              (λ p.
                (p.authorize_cache request.principal from.binding operation_pull w).0
                ≡ ok result.credential_source)
              same h))
  ]

  -- With the selector as its provider, a pull that is answered from the cache serves an object that
  -- is bound openly, or to an active local user, who is the one of the binding if it requires its
  -- user; any other pull that succeeds is answered with the manifest that the connector which the
  -- selector gives for a candidate source has for the decision's repository and reference.
  pub pull-IsEntitled :
      (request : PullRequest) (w : s.World) (result : PullResult)
      → (pull s r request w).0 ≡ ok result
      → (d : PullDecision) × (resolve_pull r.policy (policy_request s r request) ≡ ok d)
        × (((from : FromCache s r request d result) × ((from.binding.access ≡ access_challenge)
                ⊎ IsEntitled a sources connectors request.principal from.binding))
            ⊎ (In result.source d.candidate_sources
                × IsAnswered s r request d result.source result.credential_source result.manifest))
  pull-IsEntitled request w result h =
      let (d, decided, _, from) = pull-ComesFrom s r request w result h in
      (
        d,
        decided,
        elim from [
          | inl cached ↦ inl (cached, permitted-IsEntitled request d result cached)
          | inr (_, (before, after, e, _), given) ↦
              inr (rw e (In-middle before after result.source), given)
        ],
      )
