-- ===== src/Policy/Engine.antt =====
-- NewEngine, Engine.MatchRoute, Engine.ResolvePull and Engine.ResolvePush.
use mathlib.Core.Bool.{not}
use regstair.Base.{Bool, ◌&&◌, ◌||◌, List, [], ◌∷◌, ◌++◌, ◌==◌, int_ltb, if◌then◌else◌}
use regstair.Strings.{Text, text_eq, codes}
use regstair.Sorting.{sort}
use regstair.Errors.{
  Message, Result, ok, err, ◌>>=◌, ◌>>◌, bare, wrap, lit, plain, quoted, no_route, push_denied,
}
use regstair.Policy.Types.{
  Route, Config, Engine, PullRequest, PullDecision, PushRequest, PushDecision,
}
use regstair.Policy.Normalize.{Unicode, normalize_repository}
use regstair.Policy.Patterns.{match_repository, apply}
use regstair.Policy.Validate.{validate_routes}

-- The order of the routes.
unfoldable pub precedes : Route → Route → Bool
precedes a b = int_ltb a.precedence b.precedence

-- strings.Join(sources, ", ")
unfoldable pub join : List Text → Text
join [] = []
join (s ∷ []) = s
join (s ∷ t ∷ rest) = s ++ codes ", " ++ join (t ∷ rest)

-- The values up to the first that is `terminal`, that one included; all where none is.
unfoldable pub truncate_after : List Text → Text → List Text
truncate_after [] terminal = []
truncate_after (value ∷ values) terminal =
    let rest = value ∷ truncate_after values terminal in
    if value == terminal then value ∷ [] else rest

-- The loop of MatchRoute.
unfoldable pub first_match : Text → List Route → Result Route
first_match repository [] = err (bare no_route)
first_match repository (route ∷ routes) =
    let rest = first_match repository routes in
    if match_repository route.match repository then ok route else rest

abbrev pub matched : Route → Message
matched route = lit "matched route " ∷ quoted route.name ∷ []

abbrev pub rewrote : Text → Text → Message
rewrote logical physical = lit "rewrote " ∷ quoted logical ∷ lit " to " ∷ quoted physical ∷ []

-- Whether the sources behind the authoritative one are cut off.
unfoldable pub is_blocking : Route → Bool
is_blocking route = not (route.authoritative == []) && not route.external_fallback

unfoldable pub pull_decision : Text → Text → Route → PullDecision
pull_decision logical reference route =
    let sources =
      if is_blocking route
      then truncate_after route.pull_sources route.authoritative
      else route.pull_sources in
    let physical = apply route.rewrite logical in
    record {
      route_name = route.name;
      logical_repository = logical;
      physical_repository = physical;
      reference = reference;
      candidate_sources = sources;
      authoritative_source = route.authoritative;
      external_fallback_allowed = route.external_fallback;
      explanation =
          (matched route
            ∷ rewrote logical physical
            ∷ (lit "candidate pull sources: " ∷ plain (join sources) ∷ [])
            ∷ [])
          ++ (if is_blocking route
              then (lit "fallback beyond authoritative source "
                  ∷ quoted route.authoritative
                  ∷ lit " is blocked"
                  ∷ [])
                ∷ []
              else []);
    }

unfoldable pub push_decision : Text → Text → Route → PushDecision
push_decision logical reference route =
    let physical = apply route.rewrite logical in
    record {
      route_name = route.name;
      logical_repository = logical;
      physical_repository = physical;
      reference = reference;
      destination = route.push_destination;
      explanation =
          matched route
          ∷ rewrote logical physical
          ∷ (lit "selected push destination " ∷ quoted route.push_destination ∷ [])
          ∷ [];
    }

-- A push needs a destination and a route that does not deny pushes.
unfoldable pub decide_push : Text → Text → Route → Result PushDecision
decide_push reference logical route =
    if route.push_denied || route.push_destination == []
    then err (wrap push_denied (plain route.name ∷ []))
    else ok (push_decision logical reference route)

module _ ⦃u : Unicode⦄ where
  unfoldable pub new_engine : Config → Result Engine
  new_engine config = do
    validate_routes config.sources config.routes
    ok (record { routes = sort precedes config.routes })

  unfoldable pub match_route : Engine → Text → Result Route
  match_route e repository = do
    normalized ← normalize_repository repository
    first_match normalized e.routes

  unfoldable pub resolve_pull : Engine → PullRequest → Result PullDecision
  resolve_pull e request = do
    logical ← normalize_repository request.repository
    route ← match_route e logical
    ok (pull_decision logical request.reference route)

  unfoldable pub resolve_push : Engine → PushRequest → Result PushDecision
  resolve_push e request = do
    logical ← normalize_repository request.repository
    route ← match_route e logical
    decide_push request.reference logical route
