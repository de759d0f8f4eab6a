-- ===== src/Policy/Tests.antt =====
-- Runs of the policy engine on a small configuration, and its theorems at that configuration.
use regstair.Base.{
  ◌⊎◌, pos, ◌≡◌, ◌≢◌, refl, ◌↔◌, inl, true, false, List, [], ◌∷◌, ◌++◌, map, int_eq, In, filter,
}
use regstair.Strings.{
  Text, codes, text_beq, trim, trim_space, trim_suffix, trim_prefix, trim_left, trim_right,
  contains as text_contains, has_prefix, has_suffix, is_space,
}
use regstair.Sorting.{insert, sort}
use regstair.Errors.{ok, err, bare, no_route}
use regstair.Policy.Types.{
  Source, Route, Config, Engine, PullRequest, PullDecision, PushRequest, PushDecision,
}
use regstair.Policy.Normalize.{
  Unicode, normalize_repository, check_runes, is_digit, is_lower, is_supported,
}
use regstair.Policy.Canonical.{
  IsUnicode, IsCanonical, normalize_repository-IsCanonical, normalize_repository-fixed_iff,
}
use regstair.Policy.Patterns.{below, match_repository, pattern_contains, patterns_overlap, apply}
use regstair.Policy.Overlap.{
  glob, Selects, match_repository_iff, overlap_sound, overlap_misses_nested,
}
use regstair.Policy.Validate.{
  contains, validate_routes, validate_sources, validate_sources_from, validate_routes_from,
  validate_route, validate_match, validate_route_sources, validate_pull_sources,
  validate_authoritative, validate_destination, check_ambiguity,
}
use regstair.Policy.Engine.{
  precedes, pull_decision, push_decision, new_engine, match_route, resolve_pull, resolve_push,
}
use regstair.Policy.Engine.{first_match, decide_push, is_blocking, truncate_after, join}
use regstair.Policy.Selection.{competes, match_route-least, match_route-none_iff}
use regstair.Policy.Ambiguity.{ambiguity_gap}
use regstair.Policy.Decisions.{resolve_pull-blocked, resolve_push-declared}

-- Tables that know no letter beyond Latin-1.
instance abbrev latin : Unicode
latin = record { lower = λ c. false; digit = λ c. false }

latin-IsUnicode : IsUnicode latin
latin-IsUnicode = record {
  lower_not_space = λ c h. absurd (cc);
  digit_not_space = λ c h. absurd (cc);
}

abbrev company : Route
company = record {
  name = codes "company";
  match = codes "company/**";
  precedence = pos 10;
  pull_sources = codes "internal" ∷ codes "hub" ∷ [];
  authoritative = codes "internal";
  external_fallback = false;
  push_destination = codes "internal";
  push_denied = false;
  rewrite = record { strip_prefix = codes "company/"; add_prefix = codes "team/" };
}

abbrev default : Route
default = record {
  name = codes "default";
  match = codes "**";
  precedence = pos 100;
  pull_sources = codes "hub" ∷ [];
  authoritative = [];
  external_fallback = true;
  push_destination = [];
  push_denied = true;
  rewrite = record { strip_prefix = []; add_prefix = [] };
}

abbrev sources : List Source
sources = record { id = codes "internal" } ∷ record { id = codes "hub" } ∷ []

abbrev config : Config
config = record { sources = sources; routes = default ∷ company ∷ [] }

abbrev engine : Engine
engine = record { routes = company ∷ default ∷ [] }

-- A proof by running the engine names this: it opens all that the engine calls.
policy_runs : Unit {0}
unfolding new_engine validate_routes validate_sources validate_sources_from text_beq contains
    validate_routes_from validate_route validate_match normalize_repository trim trim_space
    trim_suffix text_contains validate_route_sources validate_pull_sources validate_authoritative
    validate_destination check_ambiguity precedes check_runes is_digit is_lower is_supported
    pattern_contains patterns_overlap insert sort has_prefix has_suffix is_space trim_left
    trim_right match_route first_match match_repository resolve_pull pull_decision resolve_push
    push_decision decide_push is_blocking truncate_after join apply trim_prefix filter
policy_runs = tt

config_accepted : new_engine config ≡ ok engine
unfolding policy_runs
config_accepted = refl

abbrev pull_app : PullRequest
pull_app = record { repository = codes " company/app/"; reference = codes "1.0" }

abbrev push_app : PushRequest
push_app = record { repository = codes "company/app"; reference = codes "1.0" }

abbrev app_pulled : PullDecision
app_pulled = pull_decision (codes "company/app") (codes "1.0") company

abbrev app_pushed : PushDecision
app_pushed = push_decision (codes "company/app") (codes "1.0") company

pull_app_decision : resolve_pull engine pull_app ≡ ok app_pulled
unfolding policy_runs
pull_app_decision = refl

push_app_decision : resolve_push engine push_app ≡ ok app_pushed
unfolding policy_runs
push_app_decision = refl

-- Behind the authoritative source nothing is asked, and the prefix is rewritten.
app_pulled_fields :
    (app_pulled.candidate_sources ≡ codes "internal" ∷ [])
    × (app_pulled.physical_repository ≡ codes "team/app")
unfolding policy_runs
app_pulled_fields = (refl, refl)

some_source : sources ≢ []
some_source e = cc

normalized_app : normalize_repository (codes " company/app/") ≡ ok (codes "company/app")
unfolding policy_runs
normalized_app = refl

normalize_repository-IsCanonical_example : IsCanonical (codes "company/app")
normalize_repository-IsCanonical_example =
    normalize_repository-IsCanonical (codes " company/app/") (codes "company/app") normalized_app

normalize_repository-fixed_iff_example :
    (normalize_repository (codes "company/app") ≡ ok (codes "company/app"))
    ↔ IsCanonical (codes "company/app")
normalize_repository-fixed_iff_example =
    normalize_repository-fixed_iff latin-IsUnicode (codes "company/app")

match_repository_iff_example :
    (match_repository (codes "company/**") (codes "company/app") ≡ true)
    ↔ Selects (codes "company/**") (codes "company/app")
match_repository_iff_example = match_repository_iff (codes "company/**") (codes "company/app")

overlap_sound_example :
    (r : Text) × (match_repository (codes "a/**") r ≡ true)
    × (match_repository (codes "a/b") r ≡ true)
overlap_sound_example = overlap_sound (codes "a/**") (codes "a/b") reported
  where
    reported : patterns_overlap (codes "a/**") (codes "a/b") ≡ true
    reported = unfold policy_runs in refl

overlap_misses_nested_example :
    (patterns_overlap (glob (codes "a")) (glob (codes "a/b")) ≡ true)
    × (patterns_overlap (glob (codes "a/b")) (glob (codes "a")) ≡ false)
    × (match_repository (glob (codes "a/b")) (codes "a/b/c") ≡ true)
    × (match_repository (glob (codes "a")) (codes "a/b/c") ≡ true)
overlap_misses_nested_example = overlap_misses_nested (codes "a") (codes "b") (codes "c")

route_app : match_route engine (codes "company/app") ≡ ok company
unfolding policy_runs
route_app = refl

plain_app : normalize_repository (codes "company/app") ≡ ok (codes "company/app")
unfolding policy_runs
plain_app = refl

match_route-least_example :
    (match_repository company.match (codes "company/app") ≡ true)
    × ((o : Route)
        → In o config.routes
        → match_repository o.match (codes "company/app") ≡ true
        → precedes o company ≡ false)
    × ((rest : List Route) × (filter (competes (pos 10) (codes "company/app")) config.routes
          ≡ company ∷ rest))
match_route-least_example =
    match_route-least config engine config_accepted (codes "company/app") (codes "company/app")
      company plain_app route_app

match_route-none_iff_example : (match_route engine (codes "company/app") ≡ err (bare no_route)) ↔ (
    (t : Text) × (normalize_repository (codes "company/app") ≡ ok t)
    × ((o : Route) → In o config.routes → match_repository o.match t ≡ false))
match_route-none_iff_example =
    match_route-none_iff config engine config_accepted (codes "company/app")

authority_named : app_pulled.authoritative_source ≢ []
unfolding policy_runs
authority_named e = cc

no_fallback : app_pulled.external_fallback_allowed ≡ false
unfolding policy_runs
no_fallback = refl

resolve_pull-blocked_example :
    ((before : List Text) × (app_pulled.candidate_sources
        ≡ before ++ app_pulled.authoritative_source ∷ [])
      × (contains before app_pulled.authoritative_source ≡ false))
    ⊎ ((config.sources ≡ [])
        × (contains app_pulled.candidate_sources app_pulled.authoritative_source ≡ false))
resolve_pull-blocked_example =
    resolve_pull-blocked config engine config_accepted pull_app app_pulled pull_app_decision
      authority_named no_fallback

resolve_push-declared_example :
    (r : Route) × In r config.routes
    × (r.push_denied ≡ false)
    × (app_pushed.destination ≢ [])
    × (r.push_destination ≡ app_pushed.destination)
    × ((config.sources ≡ []) ⊎ In app_pushed.destination (map (λ s. s.id) config.sources))
resolve_push-declared_example =
    resolve_push-declared config engine config_accepted push_app app_pushed push_app_decision

-- Two nested paths of one precedence, the narrower first: the configuration is accepted.
abbrev narrow : Route
narrow = record company { match = codes "company/tools/**" }

abbrev wide : Route
wide = record company { name = codes "wide" }

narrow_first : validate_routes sources (narrow ∷ wide ∷ []) ≡ ok tt
unfolding policy_runs
narrow_first = refl

tool_matches :
    (match_repository narrow.match (codes "company/tools/x") ≡ true)
    × (match_repository wide.match (codes "company/tools/x") ≡ true)
unfolding policy_runs
tool_matches = (refl, refl)

ambiguity_gap_example :
    (has_suffix narrow.match below ≡ true)
    × (has_suffix wide.match below ≡ true)
    × (pattern_contains wide.match narrow.match ≡ true)
    × (patterns_overlap wide.match narrow.match ≡ true)
ambiguity_gap_example =
    ambiguity_gap sources (narrow ∷ wide ∷ []) narrow wide (codes "company/tools/x") narrow_first
      (inl (refl, inl refl)) refl tool_matches.0 tool_matches.1
