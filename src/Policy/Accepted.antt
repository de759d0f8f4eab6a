-- ===== src/Policy/Accepted.antt =====
-- What validateRoutes establishes of the configuration that it accepts.
use regstair.Base.{
  ℕ, zero, suc, ◌+◌, length, ◌≡◌, ◌≢◌, refl, ap, subst, ◌⊎◌, inl, inr, true, false, List, [], ◌∷◌,
  map, arith, int_eq, int_beq_iff, In, All,
}
use regstair.Strings.{Text, text_eq, text_beq_iff}
use regstair.Errors.{ok, ◌>>◌, >>=-eq-ok, >>-eq-ok}
use regstair.Policy.Types.{Source, Route}
use regstair.Policy.Normalize.{Unicode}
use regstair.Policy.Patterns.{patterns_overlap}
use regstair.Policy.Validate.{
  contains, validate_sources_from, validate_sources, validate_pull_sources, validate_authoritative,
  validate_destination, validate_route_sources, check_ambiguity, validate_match, validate_route,
  validate_routes_from, validate_routes,
}

pub contains-In : (xs : List Text) (x : Text) → contains xs x ≡ true → In x xs
unfolding contains
contains-In [] x h = absurd (ground arith)
contains-In (y ∷ ys) x h = ground (arith, text_beq_iff y x, contains-In ys x)

-- The sources that a route names are declared.
pub record AreDeclared (ids : List Text) (r : Route) : Type 0 where
  pub pulls : All (λ s. contains ids s ≡ true) r.pull_sources
  pub authority :
      r.authoritative ≢ []
      → (contains ids r.authoritative ≡ true) × (contains r.pull_sources r.authoritative ≡ true)
  pub pushes : r.push_destination ≢ [] → contains ids r.push_destination ≡ true

-- Two routes of one precedence are not reported as overlapping, the earlier named first.
abbrev pub Apart : Route → Route → Type 0
Apart r o = r.precedence ≡ o.precedence → patterns_overlap r.match o.match ≡ false

pub record RouteIsValid ⦃u : Unicode⦄ (ids : List Text) (r : Route) : Type 0 where
  pub named : r.name ≢ []
  pub patterned : r.match ≢ []
  pub matchable : validate_match r ≡ ok tt
  pub declared : ids ≢ [] → AreDeclared ids r

pulls_lem :
    (ids : List Text) (name : Text) (sources : List Text)
    → validate_pull_sources ids name sources ≡ ok tt
    → All (λ s. contains ids s ≡ true) sources
unfolding validate_pull_sources
pulls_lem ids name [] h = tt
pulls_lem ids name (s ∷ ss) h = ground (arith, pulls_lem ids name ss)

authority_lem :
    (ids : List Text) (r : Route)
    → validate_authoritative ids r ≡ ok tt
    → r.authoritative ≢ []
    → (contains ids r.authoritative ≡ true) × (contains r.pull_sources r.authoritative ≡ true)
unfolding validate_authoritative
authority_lem ids r h k = ground (arith, text_beq_iff r.authoritative [])

destination_lem :
    (ids : List Text) (r : Route)
    → validate_destination ids r ≡ ok tt
    → r.push_destination ≢ []
    → contains ids r.push_destination ≡ true
unfolding validate_destination
destination_lem ids r h k = ground (arith, text_beq_iff r.push_destination [])

declared_lem :
    (ids : List Text) (r : Route)
    → validate_route_sources ids r ≡ ok tt
    → ids ≢ []
    → AreDeclared ids r
unfolding validate_route_sources
declared_lem [] r h k = absurd (k refl)
declared_lem (i ∷ is) r h k =
    let ids = i ∷ is in
    let (pulls, rest) =
      >>-eq-ok (validate_pull_sources ids r.name r.pull_sources)
        (validate_authoritative ids r >> validate_destination ids r) h in
    let (authority, pushes) =
      >>-eq-ok (validate_authoritative ids r) (validate_destination ids r) rest in
    record {
      pulls = pulls_lem ids r.name r.pull_sources pulls;
      authority = authority_lem ids r authority;
      pushes = destination_lem ids r pushes;
    }

ambiguity_lem :
    (r : Route) (others : List Route) → check_ambiguity r others ≡ ok tt → All (Apart r) others
unfolding check_ambiguity
ambiguity_lem r [] h = tt
ambiguity_lem r (o ∷ others) h = (
  λ e. ground (arith, e, int_beq_iff r.precedence o.precedence),
  ambiguity_lem r others (ground arith),
)

sources-In :
    (i : ℕ) (seen : List Text) (sources : List Source) (ids : List Text) (x : Text)
    → validate_sources_from i seen sources ≡ ok ids
    → In x ids
    → In x seen ⊎ In x (map (λ s. s.id) sources)
unfolding validate_sources_from
sources-In i seen [] ids x h m = let e : ids ≡ seen = cc in inl (subst (In x) e m)
sources-In i seen (s ∷ ss) ids x h m = ground (arith, sources-In (suc i) (s.id ∷ seen) ss ids x)

-- The ids that validateSources returns are those of the sources.
pub validate_sources-In :
    (sources : List Source) (ids : List Text) (x : Text)
    → validate_sources sources ≡ ok ids
    → contains ids x ≡ true
    → In x (map (λ s. s.id) sources)
unfolding validate_sources
validate_sources-In sources ids x h k =
    elim (sources-In zero [] sources ids x h (contains-In ids x k)) [ inl m ↦ absurd m | inr m ↦ m ]

sources_length :
    (i : ℕ) (seen : List Text) (sources : List Source) (ids : List Text)
    → validate_sources_from i seen sources ≡ ok ids
    → length ids ≡ length seen + length sources
unfolding validate_sources_from
sources_length i seen [] ids h = let e : ids ≡ seen = cc in rw e (omega arith)
sources_length i seen (s ∷ ss) ids h = ground (arith, sources_length (suc i) (s.id ∷ seen) ss ids)

pub ids-ne-nil :
    (sources : List Source) (ids : List Text)
    → validate_sources sources ≡ ok ids
    → sources ≢ []
    → ids ≢ []
unfolding validate_sources
ids-ne-nil [] ids h k e = k refl
ids-ne-nil (s ∷ ss) ids h k e =
    absurd (omega (arith, sources_length zero [] (s ∷ ss) ids h, ap length e))

module _ ⦃u : Unicode⦄ where
  -- The routes are valid one by one, no name occurs twice, and no pair is reported.
  abbrev pub Accepted : List Text → List Route → Type 0
  Accepted ids [] = Unit
  Accepted ids (r ∷ others) =
      RouteIsValid ids r
      × All (λ o. r.name ≢ o.name) others
      × All (Apart r) others
      × Accepted ids others

  pub Accepted-In :
      (ids : List Text) (rs : List Route) (r : Route)
      → Accepted ids rs
      → In r rs
      → RouteIsValid ids r
  Accepted-In ids [] r a m = absurd m
  Accepted-In ids (o ∷ rs) r a (inl e) = rw e a.0
  Accepted-In ids (o ∷ rs) r (_, _, _, rest) (inr m) = Accepted-In ids rs r rest m

  route_parts :
      (i : ℕ) (ids names : List Text) (r : Route) (others : List Route)
      → validate_route i ids names r others ≡ ok tt
      → (text_eq.same r.name [] ≡ false)
        × (contains names r.name ≡ false)
        × (text_eq.same r.match [] ≡ false)
        × (validate_match r ≡ ok tt)
        × (validate_route_sources ids r ≡ ok tt)
        × (check_ambiguity r others ≡ ok tt)
  unfolding validate_route
  route_parts i ids names r others h = ground arith

  distinct_lem :
      (r : Route) (names : List Text) (others : List Route)
      → All (λ o. contains (r.name ∷ names) o.name ≡ false) others
      → All (λ o. r.name ≢ o.name) others × All (λ o. contains names o.name ≡ false) others
  unfolding contains
  distinct_lem r names [] h = (tt, tt)
  distinct_lem r names (o ∷ others) h =
      let (a, b) = distinct_lem r names others h.1 in
      ((λ e. ground (arith, e, text_beq_iff r.name o.name), a), (ground arith, b))

  routes_lem :
      (i : ℕ) (ids names : List Text) (rs : List Route)
      → validate_routes_from i ids names rs ≡ ok tt
      → Accepted ids rs × All (λ r. contains names r.name ≡ false) rs
  unfolding validate_routes_from
  routes_lem i ids names [] h = (tt, tt)
  routes_lem i ids names (r ∷ others) h =
      let (here, there) = >>-eq-ok (validate_route i ids names r others) _ h in
      let (named, fresh, patterned, matchable, declared, apart) =
        route_parts i ids names r others here in
      let (rest, names_apart) = routes_lem (suc i) ids (r.name ∷ names) others there in
      let (distinct, fresh_rest) = distinct_lem r names others names_apart in
      (
        (
          record {
            named = ground (arith, named, text_beq_iff r.name []);
            patterned = ground (arith, patterned, text_beq_iff r.match []);
            matchable = matchable;
            declared = declared_lem ids r declared;
          },
          distinct,
          ambiguity_lem r others apart,
          rest,
        ),
        (fresh, fresh_rest),
      )

  -- An accepted configuration names each route once, with a usable pattern and with sources that
  -- are declared if any are; of two routes of one precedence the pair is not reported.
  pub validate_routes-Accepted :
      (sources : List Source) (rs : List Route)
      → validate_routes sources rs ≡ ok tt
      → (ids : List Text) × (validate_sources sources ≡ ok ids) × Accepted ids rs
  unfolding validate_routes
  validate_routes-Accepted sources rs h =
      let (ids, e, k) = >>=-eq-ok (validate_sources sources) _ h in
      (ids, e, (routes_lem zero ids [] rs k).0)
