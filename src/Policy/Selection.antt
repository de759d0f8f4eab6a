-- ===== src/Policy/Selection.antt =====
-- Which route MatchRoute returns.
use mathlib.Core.Bool.{false≢true}
use regstair.Base.{
  ℤ, ◌≡◌, ◌≢◌, refl, ap, nat_eq, sym, subst, ◌∙◌, ◌↔◌, inl, inr, Bool, true, false, ◌&&◌, List, [],
  ◌∷◌, arith, ◌==◌, int_eq, int_beq_iff, int_beq_refl, int_ltb_asym, int_ltb_split, int_ltb_irrefl,
  In, All, All-In, filter, filter_hit, filter_miss, In-All, Bool-cases,
}
use regstair.Strings.{Text, text_eq, trim, trim_space, contains, codes}
use regstair.Sorting.{sort, sort-In, In-sort, sort-Sorted, filter-sort, Sorted, IsStrictWeak}
use regstair.Errors.{
  Error, Result, Result-cases, invalid_repository, ok, err, >>=-eq-ok, >>-eq-ok, bare, no_route,
}
use regstair.Policy.Types.{Route, Config, Engine}
use regstair.Policy.Normalize.{Unicode, normalize_repository, check_runes, is_supported}
use regstair.Policy.Patterns.{match_repository}
use regstair.Policy.Validate.{validate_routes}
use regstair.Policy.Engine.{precedes, first_match, new_engine, match_route}

precedes-IsStrictWeak : IsStrictWeak precedes
unfolding precedes
precedes-IsStrictWeak = record {
  asym = λ x y. int_ltb_asym x.precedence y.precedence;
  ties = λ x y z. int_ltb_split x.precedence y.precedence z.precedence;
}

precedes_irrefl : (r : Route) → precedes r r ≡ false
unfolding precedes
precedes_irrefl r = int_ltb_irrefl r.precedence

-- The routes of the precedence `k` that match.
abbrev pub competes : ℤ → Text → Route → Bool
competes k s o = o.precedence == k && match_repository o.match s

same_precedence :
    (k : ℤ) (x y : Route)
    → x.precedence == k ≡ true
    → y.precedence == k ≡ true
    → precedes y x ≡ false
unfolding precedes
same_precedence k x y h g =
    rw ((int_beq_iff x.precedence k).0 h, (int_beq_iff y.precedence k).0 g) (int_ltb_irrefl k)

both : (a b : Bool) → (a && b) ≡ true → (a ≡ true) × (b ≡ true)
both a b h = ground arith

competes-tied :
    (k : ℤ) (s : Text) (x y : Route)
    → competes k s x ≡ true
    → competes k s y ≡ true
    → precedes y x ≡ false
competes-tied k s x y h g =
    let (e, _) = both (x.precedence == k) (match_repository x.match s) h in
    let (f, _) = both (y.precedence == k) (match_repository y.match s) g in
    same_precedence k x y e f

module _ (s : Text) where
  first_match-In :
      (rs : List Route) (r : Route)
      → first_match s rs ≡ ok r
      → In r rs × (match_repository r.match s ≡ true)
  unfolding first_match
  first_match-In [] r h = absurd (cc)
  first_match-In (o ∷ rs) r h = elim (Bool-cases (match_repository o.match s)) [
    | inl hit ↦ (
      inl (let e : ok o ≡ ok r = rw hit at h in cc),
      let e : ok o ≡ ok r = rw hit at h in
          let f : o ≡ r = cc in subst (λ x. match_repository x.match s ≡ true) f hit,
    )
    | inr miss ↦ let (m, t) = first_match-In rs r (rw miss at h) in (inr m, t)
  ]

  first_least :
      (x : Route) (rs : List Route) (o : Route)
      → Sorted precedes (x ∷ rs)
      → In o (x ∷ rs)
      → precedes o x ≡ false
  first_least x rs o d (inl e) = rw e (precedes_irrefl x)
  first_least x rs o d (inr m) = All-In (λ y. precedes y x ≡ false) o rs d.0 m

  behind :
      (x : Route) (rs : List Route) (o : Route)
      → In o (x ∷ rs)
      → match_repository o.match s ≡ true
      → match_repository x.match s ≡ false
      → In o rs
  behind x rs o (inl e) n miss =
      absurd (false≢true (sym miss ∙ subst (λ y. match_repository y.match s ≡ true) e n))
  behind x rs o (inr m) n miss = m

  first_match-least :
      (rs : List Route) (r o : Route)
      → Sorted precedes rs
      → first_match s rs ≡ ok r
      → In o rs
      → match_repository o.match s ≡ true
      → precedes o r ≡ false
  unfolding first_match
  first_match-least [] r o d h m n = absurd m
  first_match-least (x ∷ rs) r o d h m n = elim (Bool-cases (match_repository x.match s)) [
    | inl hit ↦
        let e : ok x ≡ ok r = rw hit at h in
        let f : x ≡ r = cc in subst (λ y. precedes o y ≡ false) f (first_least x rs o d m)
    | inr miss ↦ first_match-least rs r o d.1 (rw miss at h) (behind x rs o m n miss) n
  ]

  first_match-filter :
      (rs : List Route) (r : Route)
      → first_match s rs ≡ ok r
      → (rest : List Route) × (filter (competes r.precedence s) rs ≡ r ∷ rest)
  unfolding first_match
  first_match-filter [] r h = absurd (cc)
  first_match-filter (o ∷ rs) r h = elim (Bool-cases (match_repository o.match s)) [
    | inl hit ↦
        let e : ok o ≡ ok r = rw hit at h in
        let f : r ≡ o = cc in
        (
          filter (competes r.precedence s) rs,
          rw f (filter_hit (competes o.precedence s) o rs (rw (int_beq_refl o.precedence) hit)),
        )
    | inr miss ↦
        let (rest, e) = first_match-filter rs r (rw miss at h) in
        (rest, filter_miss (competes r.precedence s) o rs (ground (arith, miss)) ∙ e)
  ]

  first_match-none :
      (rs : List Route)
      → (first_match s rs ≡ err (bare no_route)) ↔ All (λ o. match_repository o.match s ≡ false) rs
  unfolding first_match
  first_match-none [] = ground arith
  first_match-none (o ∷ rs) = ground (arith, first_match-none rs)

-- An error that says that the name is invalid.
abbrev IsInvalid : {A : Type 0} → Result A → Type 0
IsInvalid (ok a) = Unit {0}
IsInvalid (err f) = f.wraps ≡ invalid_repository ∷ []

module _ ⦃u : Unicode⦄ where
  check_runes-IsInvalid : (all s : Text) → IsInvalid (check_runes all s)
  unfolding check_runes
  check_runes-IsInvalid all [] = tt
  check_runes-IsInvalid all (c ∷ s) = elim (Bool-cases (is_supported c)) [
    | inl e ↦ rw e (check_runes-IsInvalid all s)
    | inr e ↦ rw e refl
  ]

  normalize_repository-IsInvalid : (t : Text) → IsInvalid (normalize_repository t)
  unfolding normalize_repository
  normalize_repository-IsInvalid t =
      let name = trim (λ c. c == b'/') (trim_space t) in
      elim (Bool-cases (name == [])) [
        | inl e ↦ rw (normalize_repository, e) refl
        | inr e ↦ elim (Bool-cases (contains name (codes "//"))) [
          | inl f ↦ rw (normalize_repository, e, f) refl
          | inr f ↦ rw (normalize_repository, e, f) (check_runes-IsInvalid name name)
        ]
      ]

  -- An invalid name is not one without a route.
  normalize_repository-no_route :
      (t : Text) (f : Error) → normalize_repository t ≡ err f → f ≢ bare no_route
  normalize_repository-no_route t f h same =
      let invalid : f.wraps ≡ invalid_repository ∷ [] =
        subst IsInvalid h (normalize_repository-IsInvalid t) in
      let other : f.wraps ≡ no_route ∷ [] = ap (λ (e : Error). e.wraps) same in
      let clash : no_route ∷ [] ≡ invalid_repository ∷ [] = sym other ∙ invalid in absurd (cc)

module _ ⦃u : Unicode⦄ (c : Config) (e : Engine) (accepted : new_engine c ≡ ok e) where
  engine_routes : (validate_routes c.sources c.routes ≡ ok tt) × (e.routes ≡ sort precedes c.routes)
  unfolding new_engine
  engine_routes =
      let (valid, made) = >>-eq-ok (validate_routes c.sources c.routes) _ accepted in
      (valid, let f : ok (record { routes = sort precedes c.routes }) ≡ ok e = made in cc)

  first_match_of :
      (repository s : Text) (r : Route)
      → normalize_repository repository ≡ ok s
      → match_route e repository ≡ ok r
      → first_match s (sort precedes c.routes) ≡ ok r
  unfolding match_route
  first_match_of repository s r h k = ground (arith, engine_routes.1)

  -- The route that is returned matches, no matching route has a lower precedence, and of those of
  -- its precedence that match it is the first in the configuration.
  pub match_route-least :
      (repository s : Text) (r : Route)
      → normalize_repository repository ≡ ok s
      → match_route e repository ≡ ok r
      → (match_repository r.match s ≡ true)
        × ((o : Route) → In o c.routes → match_repository o.match s ≡ true → precedes o r ≡ false)
        × ((rest : List Route) × (filter (competes r.precedence s) c.routes ≡ r ∷ rest))
  match_route-least repository s r h k =
      let found = first_match_of repository s r h k in
      let (rest, first) = first_match-filter s (sort precedes c.routes) r found in
      (
        (first_match-In s (sort precedes c.routes) r found).1,
        λ o m n.
            first_match-least s (sort precedes c.routes) r o
              (sort-Sorted precedes precedes-IsStrictWeak c.routes) found
              (In-sort precedes o c.routes m) n,
        (
          rest,
          sym (
                filter-sort precedes (competes r.precedence s) c.routes
                  (competes-tied r.precedence s))
              ∙ first,
        ),
      )

  pub engine_accepts : validate_routes c.sources c.routes ≡ ok tt
  engine_accepts = engine_routes.0

  pub match_route-In :
      (repository : Text) (r : Route) → match_route e repository ≡ ok r → In r c.routes
  unfolding match_route
  match_route-In repository r h =
      let (s, f, k) = >>=-eq-ok (normalize_repository repository) _ h in
      sort-In precedes r c.routes
        (first_match-In s (sort precedes c.routes) r
          (subst (λ rs. first_match s rs ≡ ok r) engine_routes.1 k)).0

  unmatched_iff :
      (repository s : Text)
      → normalize_repository repository ≡ ok s
      → (match_route e repository ≡ err (bare no_route))
        ↔ ((o : Route) → In o c.routes → match_repository o.match s ≡ false)
  unfolding match_route
  unmatched_iff repository s h =
      let none_matches = first_match-none s (sort precedes c.routes) in
      rw (h, engine_routes.1)
        (
          (λ k o m.
              All-In Misses o (sort precedes c.routes) (none_matches.0 k)
                (In-sort precedes o c.routes m)),
          (λ k. none_matches.1 (
              In-All Misses (sort precedes c.routes) (λ o m. k o (sort-In precedes o c.routes m)))),
        )
    where
      Misses : Route → Type 0
      Misses o = match_repository o.match s ≡ false

  -- The error is ErrNoRoute exactly if the repository has a normalized name that no configured route
  -- matches.
  pub match_route-none_iff :
      (repository : Text)
      → (match_route e repository ≡ err (bare no_route)) ↔ (
          (s : Text) × (normalize_repository repository ≡ ok s)
          × ((o : Route) → In o c.routes → match_repository o.match s ≡ false))
  unfolding match_route
  match_route-none_iff repository = elim (Result-cases (normalize_repository repository)) [
    | inr (f, h) ↦ (
      (λ k.
          let same : err f ≡ err (bare no_route) = rw (match_route, h) at k in
          absurd (normalize_repository-no_route repository f h (cc))),
      (λ (s, k, _). let clash : ok s ≡ err f = sym k ∙ h in absurd (cc)),
    )
    | inl (s, h) ↦ (
      (λ k. (s, h, (unmatched_iff repository s h).0 k)),
      (λ (s', k, all).
          let same : ok s ≡ ok s' = sym h ∙ k in
          (unmatched_iff repository s h).1 (
            subst (λ t. (o : Route) → In o c.routes → match_repository o.match t ≡ false) (cc)
              all)),
    )
  ]
