-- ===== src/Policy/Validate.antt =====
-- validateRoutes, validateSources and validateRouteSources. A set of texts is the list of them.
use regstair.Base.{
  ℕ, zero, suc, Bool, true, false, ◌&&◌, not, List, [], ◌∷◌, ◌==◌, int_eq, if◌then◌else◌,
}
use regstair.Strings.{Text, text_eq, trim_suffix}
use regstair.Errors.{
  Result, ok, err, ◌>>=◌, ◌>>◌, refuse_if, plain_error, prefixed, lit, quoted, number, integer,
}
use regstair.Policy.Types.{Source, Route}
use regstair.Policy.Normalize.{Unicode, normalize_repository}
use regstair.Policy.Patterns.{any_path, below, patterns_overlap}

-- contains, and the lookup in a set
unfoldable pub contains : List Text → Text → Bool
contains [] needle = false
contains (value ∷ values) needle =
    let rest = contains values needle in if value == needle then true else rest

-- The loop of validateSources, from index `i` with the ids seen so far.
unfoldable pub validate_sources_from : ℕ → List Text → List Source → Result (List Text)
validate_sources_from i seen [] = ok seen
validate_sources_from i seen (source ∷ sources) =
    let rest = validate_sources_from (suc i) (source.id ∷ seen) sources in
    if source.id == []
    then err (plain_error (lit "source " ∷ number i ∷ lit " has no id" ∷ []))
    else if contains seen source.id
    then err (plain_error (lit "duplicate source id " ∷ quoted source.id ∷ []))
    else rest

unfoldable pub validate_sources : List Source → Result (List Text)
unfolding validate_sources_from
validate_sources sources = validate_sources_from zero [] sources

unfoldable pub validate_pull_sources : List Text → Text → List Text → Result (Unit {0})
validate_pull_sources ids name [] = ok tt
validate_pull_sources ids name (source ∷ sources) =
    let rest = validate_pull_sources ids name sources in
    if contains ids source
    then rest
    else err (
        plain_error (
          lit "route " ∷ quoted name ∷ lit " references unknown pull source " ∷ quoted source ∷ []))

unfoldable pub validate_authoritative : List Text → Route → Result (Unit {0})
validate_authoritative ids route =
    if route.authoritative == []
    then ok tt
    else if not (contains ids route.authoritative)
    then err (
        plain_error (
          lit "route "
          ∷ quoted route.name
          ∷ lit " references unknown authoritative source "
          ∷ quoted route.authoritative
          ∷ []))
    else if not (contains route.pull_sources route.authoritative)
    then err (
        plain_error (
          lit "route "
          ∷ quoted route.name
          ∷ lit " authoritative source "
          ∷ quoted route.authoritative
          ∷ lit " is not in pull source sequence"
          ∷ []))
    else ok tt

unfoldable pub validate_destination : List Text → Route → Result (Unit {0})
validate_destination ids route =
    if route.push_destination == []
    then ok tt
    else if contains ids route.push_destination
    then ok tt
    else err (
        plain_error (
          lit "route "
          ∷ quoted route.name
          ∷ lit " references unknown push destination "
          ∷ quoted route.push_destination
          ∷ []))

unfoldable pub validate_route_sources : List Text → Route → Result (Unit {0})
validate_route_sources [] route = ok tt
validate_route_sources (id ∷ ids) route = do
  validate_pull_sources (id ∷ ids) route.name route.pull_sources
  validate_authoritative (id ∷ ids) route
  validate_destination (id ∷ ids) route

-- The inner loop over the routes that follow.
unfoldable pub check_ambiguity : Route → List Route → Result (Unit {0})
check_ambiguity route [] = ok tt
check_ambiguity route (other ∷ others) =
    let rest = check_ambiguity route others in
    if route.precedence == other.precedence && patterns_overlap route.match other.match
    then err (
        plain_error (
          lit "ambiguous routes "
          ∷ quoted route.name
          ∷ lit " and "
          ∷ quoted other.name
          ∷ lit " share precedence "
          ∷ integer route.precedence
          ∷ []))
    else rest

module _ ⦃u : Unicode⦄ where
  -- "**" is accepted as it is; any other pattern has to be a repository, "/**" left off.
  unfoldable pub validate_match : Route → Result (Unit {0})
  validate_match route = elim (normalize_repository (trim_suffix route.match below)) [
    | ok _ ↦ ok tt
    | err e ↦
        if route.match == any_path
        then ok tt
        else err
            (prefixed (lit "route " ∷ quoted route.name ∷ lit " has invalid match pattern" ∷ []) e)
  ]

  -- The checks that the outer loop makes of one route.
  unfoldable pub validate_route : ℕ → List Text → List Text → Route → List Route → Result (Unit {0})
  validate_route i ids names route others = do
    refuse_if (route.name == []) (plain_error (lit "route " ∷ number i ∷ lit " has no name" ∷ []))
    refuse_if (contains names route.name)
        (plain_error (lit "duplicate route name " ∷ quoted route.name ∷ []))
    refuse_if (route.match == [])
        (plain_error (lit "route " ∷ quoted route.name ∷ lit " has no match pattern" ∷ []))
    validate_match route
    validate_route_sources ids route
    check_ambiguity route others

  -- The outer loop, from index `i` with the names seen so far.
  unfoldable pub validate_routes_from : ℕ → List Text → List Text → List Route → Result (Unit {0})
  validate_routes_from i ids names [] = ok tt
  validate_routes_from i ids names (route ∷ others) =
      let rest = validate_routes_from (suc i) ids (route.name ∷ names) others in
      validate_route i ids names route others >> rest

  unfoldable pub validate_routes : List Source → List Route → Result (Unit {0})
  validate_routes sources routes = do
    ids ← validate_sources sources
    validate_routes_from zero ids [] routes
