-- ===== src/Policy/Decisions.antt =====
-- What ResolvePull and ResolvePush decide.
use regstair.Base.{
  ◌≡◌, ◌≢◌, refl, sym, subst, ◌∙◌, ◌⊎◌, inl, inr, true, false, List, [], ◌∷◌, ◌++◌, map, arith,
  ◌==◌, In, All, Bool-cases,
}
use regstair.Strings.{Text, text_eq, text_beq_iff}
use regstair.Errors.{ok, >>=-eq-ok}
use regstair.Policy.Types.{
  Route, Config, Engine, PullRequest, PullDecision, PushRequest, PushDecision,
}
use regstair.Policy.Normalize.{Unicode, normalize_repository}
use regstair.Policy.Validate.{contains, validate_sources}
use regstair.Policy.Accepted.{
  Accepted-In, AreDeclared, ids-ne-nil, validate_routes-Accepted, validate_sources-In,
}
use regstair.Policy.Selection.{match_route-In, engine_accepts}
use regstair.Policy.Engine.{
  truncate_after, is_blocking, pull_decision, push_decision, decide_push, new_engine, match_route,
  resolve_pull, resolve_push,
}

-- Cutting the list keeps what stands before the first occurrence, and the occurrence.
truncate_after_lem :
    (values : List Text) (t : Text)
    → contains values t ≡ true
    → (before after : List Text) × (values ≡ before ++ t ∷ after)
      × (truncate_after values t ≡ before ++ t ∷ [])
      × (contains before t ≡ false)
unfolding contains truncate_after
truncate_after_lem [] t h = absurd (ground arith)
truncate_after_lem (v ∷ vs) t h = elim (Bool-cases (v == t)) [
  | inl here ↦
      let e : v ≡ t = (text_beq_iff v t).0 here in
      ([], vs, ground (arith, e), ground (arith, e, here), refl)
  | inr later ↦
      let (before, after, e, f, g) = truncate_after_lem vs t (ground (arith, later)) in
      (v ∷ before, after, ground (arith, e), ground (arith, later, f), ground (arith, later, g))
]

truncate_after-All :
    (P : Text → Type 0) (values : List Text) (t : Text)
    → All P values
    → All P (truncate_after values t)
unfolding truncate_after
truncate_after-All P [] t h = tt
truncate_after-All P (v ∷ vs) t h = elim (Bool-cases (v == t)) [
  | inl here ↦ rw here (h.0, tt)
  | inr later ↦ rw later (h.0, truncate_after-All P vs t h.1)
]

decision-declared :
    (ids : List Text) (s reference : Text) (r : Route)
    → AreDeclared ids r
    → All (λ x. contains ids x ≡ true) (pull_decision s reference r).candidate_sources
unfolding pull_decision
decision-declared ids s reference r a = elim (Bool-cases (is_blocking r)) [
  | inl e ↦
      rw e (truncate_after-All (λ x. contains ids x ≡ true) r.pull_sources r.authoritative a.pulls)
  | inr e ↦ rw e a.pulls
]

decide_push-ok :
    (reference s : Text) (r : Route) (d : PushDecision)
    → decide_push reference s r ≡ ok d
    → (r.push_denied ≡ false) × (r.push_destination ≢ []) × (r.push_destination ≡ d.destination)
unfolding decide_push push_decision
decide_push-ok reference s r d h = ground (arith, text_beq_iff r.push_destination [])

abbrev EndsAtAuthority : PullDecision → Type 0
EndsAtAuthority d =
    (before : List Text) × (d.candidate_sources ≡ before ++ d.authoritative_source ∷ [])
    × (contains before d.authoritative_source ≡ false)

truncate_after_none :
    (values : List Text) (t : Text) → contains values t ≡ false → truncate_after values t ≡ values
unfolding contains truncate_after
truncate_after_none [] t h = refl
truncate_after_none (v ∷ vs) t h = ground (arith, h, truncate_after_none vs t)

blocked_sources :
    (s reference : Text) (r : Route)
    → (pull_decision s reference r).authoritative_source ≢ []
    → (pull_decision s reference r).external_fallback_allowed ≡ false
    → (pull_decision s reference r).candidate_sources
      ≡ truncate_after r.pull_sources r.authoritative
unfolding pull_decision is_blocking
blocked_sources s reference r named closed = ground (arith, closed, text_beq_iff r.authoritative [])

-- The candidates end at the authoritative source, unless the route does not pull from it.
decision-blocked :
    (s reference : Text) (r : Route)
    → (pull_decision s reference r).authoritative_source ≢ []
    → (pull_decision s reference r).external_fallback_allowed ≡ false
    → EndsAtAuthority (pull_decision s reference r)
      ⊎ ((contains r.pull_sources r.authoritative ≡ false)
          × (contains
                (pull_decision s reference r).candidate_sources
                (pull_decision s reference r).authoritative_source
              ≡ false))
decision-blocked s reference r named closed =
    let cut = blocked_sources s reference r named closed in
    let same : (pull_decision s reference r).authoritative_source ≡ r.authoritative =
      unfold pull_decision in refl in
    elim (Bool-cases (contains r.pull_sources r.authoritative)) [
      | inl e ↦
          let (before, after, _, f, g) = truncate_after_lem r.pull_sources r.authoritative e in
          inl (before, rw same (cut ∙ f), rw same g)
      | inr e ↦ inr (e, rw (same, cut, truncate_after_none r.pull_sources r.authoritative e) e)
    ]

none_or_some : {A : Type 0} → (xs : List A) → (xs ≡ []) ⊎ (xs ≢ [])
none_or_some [] = inl refl
none_or_some (x ∷ xs) = inr (λ e. cc)

module _ ⦃u : Unicode⦄ where
  -- A decision to pull comes from the route of the normalized name.
  pub resolve_pull_route :
      (e : Engine) (request : PullRequest) (d : PullDecision)
      → resolve_pull e request ≡ ok d
      → (s : Text) × (r : Route) × (normalize_repository request.repository ≡ ok s)
        × (match_route e s ≡ ok r)
        × (d ≡ pull_decision s request.reference r)
  unfolding resolve_pull
  resolve_pull_route e request d h =
      let (s, f, g) = >>=-eq-ok (normalize_repository request.repository) _ h in
      let (r, k, l) = >>=-eq-ok (match_route e s) _ g in
      (s, r, f, k, let m : ok (pull_decision s request.reference r) ≡ ok d = l in cc)

  pub resolve_push_route :
      (e : Engine) (request : PushRequest) (d : PushDecision)
      → resolve_push e request ≡ ok d
      → (s : Text) × (r : Route) × (normalize_repository request.repository ≡ ok s)
        × (match_route e s ≡ ok r)
        × (decide_push request.reference s r ≡ ok d)
  unfolding resolve_push
  resolve_push_route e request d h =
      let (s, f, g) = >>=-eq-ok (normalize_repository request.repository) _ h in
      let (r, k, l) = >>=-eq-ok (match_route e s) _ g in (s, r, f, k, l)

  decision_of :
      (e : Engine) (repository s reference : Text) (r : Route)
      → normalize_repository repository ≡ ok s
      → match_route e s ≡ ok r
      → resolve_pull e (record { repository = repository; reference = reference })
        ≡ ok (pull_decision s reference r)
  unfolding resolve_pull
  decision_of e repository s reference r f k = rw (f, k)

module _ ⦃u : Unicode⦄ (c : Config) (e : Engine) (accepted : new_engine c ≡ ok e) where
  route_declared :
      (s : Text) (r : Route)
      → c.sources ≢ []
      → match_route e s ≡ ok r
      → (ids : List Text) × (validate_sources c.sources ≡ ok ids) × AreDeclared ids r
  route_declared s r some_source h =
      let (ids, f, valid) =
        validate_routes-Accepted c.sources c.routes (engine_accepts c e accepted) in
      (
        ids,
        f,
        (Accepted-In ids c.routes r valid (match_route-In c e accepted s r h)).declared
            (ids-ne-nil c.sources ids f some_source),
      )

  -- Where the route has an authoritative source and no external fallback, the candidates end with
  -- that source, which occurs once, so that no source behind it is asked; only where the
  -- configuration declares no sources, the authoritative source may be none of the candidates.
  pub resolve_pull-blocked :
      (request : PullRequest) (d : PullDecision)
      → resolve_pull e request ≡ ok d
      → d.authoritative_source ≢ []
      → d.external_fallback_allowed ≡ false
      → ((before : List Text) × (d.candidate_sources ≡ before ++ d.authoritative_source ∷ [])
          × (contains before d.authoritative_source ≡ false))
        ⊎ ((c.sources ≡ []) × (contains d.candidate_sources d.authoritative_source ≡ false))
  resolve_pull-blocked request d h named closed =
      let (s, r, _, k, l) = resolve_pull_route e request d h in
      subst
        (λ d.
          EndsAtAuthority d
          ⊎ ((c.sources ≡ []) × (contains d.candidate_sources d.authoritative_source ≡ false)))
        (sym l)
        (blocked s request.reference r k (subst (λ d. d.authoritative_source ≢ []) l named)
          (subst (λ d. d.external_fallback_allowed ≡ false) l closed))
    where
      authority_named :
          (s reference : Text) (r : Route)
          → (pull_decision s reference r).authoritative_source ≢ []
          → r.authoritative ≢ []
      authority_named s reference r = unfold pull_decision in λ named. named

      blocked :
          (s reference : Text) (r : Route)
          → match_route e s ≡ ok r
          → (pull_decision s reference r).authoritative_source ≢ []
          → (pull_decision s reference r).external_fallback_allowed ≡ false
          → EndsAtAuthority (pull_decision s reference r)
            ⊎ ((c.sources ≡ [])
                × (contains
                      (pull_decision s reference r).candidate_sources
                      (pull_decision s reference r).authoritative_source
                    ≡ false))
      blocked s reference r k named closed = elim (decision-blocked s reference r named closed) [
        | inl ends ↦ inl ends
        | inr (missing, none_is) ↦ elim (none_or_some c.sources) [
          | inl e ↦ inr (e, none_is)
          | inr some_source ↦
              let (ids, f, declared) = route_declared s r some_source k in
              let there : contains r.pull_sources r.authoritative ≡ true =
                (declared.authority (authority_named s reference r named)).1 in
              absurd (ground (arith, missing, there))
        ]
      ]

  -- A push goes to the destination of a route that is configured and allows pushes, and, where the
  -- configuration declares sources, to one of them.
  pub resolve_push-declared :
      (request : PushRequest) (d : PushDecision)
      → resolve_push e request ≡ ok d
      → (r : Route) × In r c.routes
        × (r.push_denied ≡ false)
        × (d.destination ≢ [])
        × (r.push_destination ≡ d.destination)
        × ((c.sources ≡ []) ⊎ In d.destination (map (λ s. s.id) c.sources))
  resolve_push-declared request d h =
      let (s, r, _, k, l) = resolve_push_route e request d h in
      let (allowed, named, same) = decide_push-ok request.reference s r d l in
      (
        r,
        match_route-In c e accepted s r k,
        allowed,
        subst (λ x. x ≢ []) same named,
        same,
        elim (none_or_some c.sources) [
          | inl none_there ↦ inl none_there
          | inr some_source ↦
              let (ids, f, declared) = route_declared s r some_source k in
              inr (
                subst (λ x. In x (map (λ s. s.id) c.sources)) same
                  (validate_sources-In c.sources ids r.push_destination f (declared.pushes named)))
        ],
      )
