-- ===== src/Policy/Ambiguity.antt =====
-- What validateRoutes leaves of ambiguity: two routes of one precedence that match one repository.
use regstair.Base.{◌≡◌, ◌⊎◌, inl, inr, true, List, [], ◌∷◌, In, All-In, subst, sym}
use regstair.Strings.{Text, has_suffix}
use regstair.Errors.{ok}
use regstair.Policy.Types.{Source, Route}
use regstair.Policy.Normalize.{Unicode}
use regstair.Policy.Patterns.{below, match_repository, pattern_contains, patterns_overlap}
use regstair.Policy.Overlap.{overlap_gap}
use regstair.Policy.Validate.{validate_routes}
use regstair.Policy.Accepted.{Accepted, Apart, validate_routes-Accepted}

-- `r` stands before `o` in the list.
abbrev pub Before : Route → Route → List Route → Type 0
Before r o [] = ⊥
Before r o (x ∷ xs) = ((r ≡ x) × In o xs) ⊎ Before r o xs

module _ ⦃u : Unicode⦄ where
  Before-Apart :
      (ids : List Text) (r o : Route) (rs : List Route)
      → Accepted ids rs
      → Before r o rs
      → Apart r o
  Before-Apart ids r o [] a b = absurd b
  Before-Apart ids r o (x ∷ xs) (_, _, apart, rest) (inl (e, m)) =
      subst (λ y. Apart y o) (sym e) (All-In (Apart x) o xs apart m)
  Before-Apart ids r o (x ∷ xs) (_, _, apart, rest) (inr b) = Before-Apart ids r o xs rest b

  -- In an accepted configuration two routes of one precedence match a repository together only if
  -- both patterns end in "/**" and that of the later route contains that of the earlier: the pair
  -- that the check misses. The check would refuse the two in the other order.
  pub ambiguity_gap :
      (sources : List Source) (rs : List Route) (r o : Route) (s : Text)
      → validate_routes sources rs ≡ ok tt
      → Before r o rs
      → r.precedence ≡ o.precedence
      → match_repository r.match s ≡ true
      → match_repository o.match s ≡ true
      → (has_suffix r.match below ≡ true)
        × (has_suffix o.match below ≡ true)
        × (pattern_contains o.match r.match ≡ true)
        × (patterns_overlap o.match r.match ≡ true)
  ambiguity_gap sources rs r o s accepted before same h k =
      let (ids, _, valid) = validate_routes-Accepted sources rs accepted in
      overlap_gap r.match o.match s h k (Before-Apart ids r o rs valid before same)
