-- ===== src/Resolution/PullSources.antt =====
-- Where the manifest of a pull comes from.
use regstair.Registry.Types.{Manifest}
use regstair.Base.{
  subst, ◌≡◌, refl, sym, ap, ◌⊎◌, inl, inr, Bool, true, false, ◌||◌, Option, none, some, List, [],
  ◌∷◌, ◌++◌, arith,
}
use regstair.Strings.{Text}
use regstair.Errors.{Error, ok}
use regstair.Effects.{pure, fail, lift, ◌>>◌}
use regstair.Effects.Rules.{
  Ensures, Ensures-pure, Ensures-fail, Ensures-if, Ensures-bind, Ensures-bind_const, Ensures-weaken,
}
use regstair.Metadata.Types.{Time, operation_pull}
use regstair.Policy.Types as P
use regstair.Policy.Types.{PullDecision}
use regstair.Policy.Normalize.{Unicode}
use regstair.Policy.Engine.{resolve_pull}
use regstair.Resolution.Services.{Services, Resolver}
use regstair.Resolution.Records.{PullRequest, PullResult}
use regstair.Resolution.Recording.{record_failed_pull}
use regstair.Resolution.CacheResults.{FromCache, CachedFrom, try_cache-CachedFrom}
use regstair.Resolution.Pull.{
  answered, next_source, stop, Outcome, resolved, exhausted, pull_result, authorized,
  accept_manifest, refuse_pull, ask_sources, ask_upstream, failed_pull_error, serve_pull, pull,
}
use regstair.Resolution.Asking.{IsAnswered, ask_source-AnswerOf}

abbrev is_filled : List Text → Bool
is_filled [] = false
is_filled (x ∷ xs) = true

module _ (s : Services) (r : Resolver s) (request : PullRequest) (d : PullDecision) where
  -- The result names the decision's route and one of the sources, which gave its manifest;
  -- `fallback_used` tells whether others stand before it, or `fallback` holds.
  abbrev FromSource : Bool → List Text → PullResult → Type 0
  FromSource fallback sources result =
      (result.route ≡ d.route_name)
      × ((before after : List Text) × (sources ≡ before ++ result.source ∷ after)
          × (result.fallback_used ≡ (fallback || is_filled before)))
      × IsAnswered s r request d result.source result.credential_source result.manifest

  abbrev OutcomeFrom : Bool → List Text → Outcome → Type 0
  OutcomeFrom fallback sources (resolved result) = FromSource fallback sources result
  OutcomeFrom fallback sources (exhausted e) = Unit

  -- From the cache, or from a candidate source.
  abbrev pub ComesFrom : PullResult → Type 0
  ComesFrom result =
      FromCache s r request d result
      ⊎ ((result.route ≡ d.route_name)
          × ((before after : List Text) × (d.candidate_sources ≡ before ++ result.source ∷ after)
              × (result.fallback_used ≡ is_filled before))
          × IsAnswered s r request d result.source result.credential_source result.manifest)

  module _ (started : Time) where
    FromSource-cons :
        (fallback : Bool) (x : Text) (xs : List Text) (result : PullResult)
        → FromSource true xs result
        → FromSource fallback (x ∷ xs) result
    FromSource-cons fallback x xs result (route, (before, after, e, f), given) =
        (route, (x ∷ before, after, ap (◌∷◌ x) e, ground (arith, f)), given)

    OutcomeFrom-cons :
        (fallback : Bool) (x : Text) (xs : List Text) (o : Outcome)
        → OutcomeFrom true xs o
        → OutcomeFrom fallback (x ∷ xs) o
    OutcomeFrom-cons fallback x xs (resolved result) h = FromSource-cons fallback x xs result h
    OutcomeFrom-cons fallback x xs (exhausted e) h = tt

    accept_manifest_result :
        (fallback : Bool) (x : Text) (connector : s.Connector) (credential_source : Text)
        (manifest : Manifest)
        → Ensures
            (λ result. result ≡ pull_result d fallback x credential_source manifest)
            (accept_manifest s started request d fallback x connector credential_source manifest)
    unfolding accept_manifest
    accept_manifest_result fallback x connector credential_source manifest =
        Ensures-bind_const _ _
          λ _. Ensures-bind_const _ _ λ _. Ensures-bind_const _ _ λ _. Ensures-pure _ refl

    pull_result-FromSource :
        (fallback : Bool) (x : Text) (xs : List Text) (credential_source : Text)
        (manifest : Manifest)
        → IsAnswered s r request d x credential_source manifest
        → FromSource fallback (x ∷ xs) (pull_result d fallback x credential_source manifest)
    unfolding pull_result
    pull_result-FromSource fallback x xs credential_source manifest given =
        (refl, ([], xs, refl, ground arith), given)

    ask_sources-OutcomeFrom :
        (fallback : Bool) (sources : List Text) (last : Option Error)
        → Ensures
            (OutcomeFrom fallback sources)
            (ask_sources s r started request d fallback sources last)
    unfolding ask_sources
    ask_sources-OutcomeFrom fallback [] last = Ensures-pure (exhausted last) tt
    ask_sources-OutcomeFrom fallback (x ∷ xs) last =
        let later : (e : Error)
            → Ensures (OutcomeFrom fallback (x ∷ xs))
                (ask_sources s r started request d true xs (some e)) =
          λ e. record {
            at = λ w o h.
                OutcomeFrom-cons fallback x xs o
                  ((ask_sources-OutcomeFrom true xs (some e)).at w o h);
          } in
        Ensures-bind _ _ λ w. elim [
          | answered connector credential_source manifest ↦ λ asked. Ensures-bind _ _ λ w' result h.
              Ensures-pure (resolved result) (
                subst (FromSource fallback (x ∷ xs))
                  (sym (
                    (accept_manifest_result fallback x connector credential_source manifest).at w'
                      result h))
                  (pull_result-FromSource fallback x xs credential_source manifest (
                    (ask_source-AnswerOf s r request d x).at w
                      (answered connector credential_source manifest) asked)))
          | next_source e ↦ λ _. later e
          | stop e ↦ λ _. Ensures-pure (exhausted (some e)) tt
        ]

    ask_upstream-ComesFrom : Ensures ComesFrom (ask_upstream s r started request d)
    unfolding ask_upstream
    ask_upstream-ComesFrom =
        Ensures-bind _ _
          λ w o h. settle o ((ask_sources-OutcomeFrom false d.candidate_sources none).at w o h)
      where
        settle :
            (o : Outcome)
            → OutcomeFrom false d.candidate_sources o
            → Ensures {W = s.World} ComesFrom (elim o [
              | resolved result ↦ pure result
              | exhausted last_error ↦ do
                record_failed_pull s started request d last_error
                fail (failed_pull_error d last_error)
            ])
        settle (resolved result) (route, found, given) =
            Ensures-pure result (inr (route, found, given))
        settle (exhausted e) h = Ensures-bind_const _ _ λ _. Ensures-fail _

    serve_pull-ComesFrom : Ensures ComesFrom (serve_pull s r started request d)
    unfolding serve_pull
    serve_pull-ComesFrom =
        Ensures-bind _ _
          λ w cached h. settle cached ((try_cache-CachedFrom s r request d started).at w cached h)
      where
        settle :
            (cached : Option PullResult)
            → CachedFrom s r request d cached
            → Ensures {W = s.World} ComesFrom (elim cached [
              | some result ↦ pure result
              | none ↦ ask_upstream s r started request d
            ])
        settle (some result) from = Ensures-pure result (inl from)
        settle none h = ask_upstream-ComesFrom

module _ ⦃u : Unicode⦄ (s : Services) (r : Resolver s) (request : PullRequest) where
  abbrev pub policy_request : P.PullRequest
  policy_request = record { repository = request.repository; reference = request.reference }

  refuse_pull-Ensures :
      {P : PullResult → Type 0} (started : Time) (d : PullDecision)
      → Ensures P (refuse_pull s started request d)
  unfolding refuse_pull
  refuse_pull-Ensures started d = Ensures-bind_const _ _ λ _. Ensures-fail _

  abbrev Sourced : PullResult → Type 0
  Sourced result =
      (d : PullDecision) × (resolve_pull r.policy policy_request ≡ ok d)
      × (authorized s r request.principal operation_pull d.route_name ≡ true)
      × ComesFrom s r request d result

  -- A pull that succeeds was decided by the policy and authorized for the decision's route. Its
  -- manifest is either the stored bytes of the digest that the reference stands for, which a cache
  -- binding lets the principal have, where the mapping of a tag was fresh by the clock read behind the
  -- search for it; or it is what the connector that the resolver has for a candidate source of the
  -- decision gave for the decision's repository and reference, and then `fallback_used` tells exactly
  -- whether that source is not the first.
  pub pull-ComesFrom :
      (w : s.World) (result : PullResult)
      → (pull s r request w).0 ≡ ok result
      → (d : PullDecision) × (resolve_pull r.policy policy_request ≡ ok d)
        × (authorized s r request.principal operation_pull d.route_name ≡ true)
        × ComesFrom s r request d result
  unfolding pull lift
  pull-ComesFrom w result h = all_results.at w result h
    where
      all_results : Ensures Sourced (pull s r request)
      all_results = Ensures-bind_const _ _ λ started. Ensures-bind _ _ λ w d h.
          Ensures-if (authorized s r request.principal operation_pull d.route_name)
            (serve_pull s r started request d) (refuse_pull s started request d)
            (λ allowed.
              Ensures-weaken _ (λ result from. (d, h, allowed, from))
                (serve_pull-ComesFrom s r request d started))
            (λ denied. refuse_pull-Ensures started d)
