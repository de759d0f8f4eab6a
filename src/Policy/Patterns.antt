-- ===== src/Policy/Patterns.antt =====
-- matchRepository, patternsOverlap and Rewrite.Apply.
use regstair.Base.{Bool, true, false, ◌||◌, ◌++◌, [], ◌==◌, if◌then◌else◌}
use regstair.Strings.{Text, text_eq, codes, has_prefix, has_suffix, trim_prefix, trim_suffix}
use regstair.Policy.Types.{Rewrite}

abbrev pub any_path : Text
any_path = codes "**"

abbrev pub below : Text
below = codes "/**"

-- "a/**" stands for the texts that begin with "a/".
unfoldable pub match_repository : Text → Text → Bool
match_repository pattern repository =
    if pattern == any_path
    then true
    else if has_suffix pattern below
    then has_prefix repository (trim_suffix pattern any_path)
    else pattern == repository

unfoldable pub pattern_contains : Text → Text → Bool
pattern_contains parent child =
    let prefix = trim_suffix parent any_path in
    let reached = if has_suffix child below then trim_suffix child any_path else child in
    has_prefix reached prefix

unfoldable pub patterns_overlap : Text → Text → Bool
patterns_overlap a b =
    if a == any_path || b == any_path
    then true
    else if a == b
    then true
    else if has_suffix a below
    then pattern_contains a b
    else if has_suffix b below
    then pattern_contains b a
    else false

unfoldable pub apply : Rewrite → Text → Text
apply r repository =
    let stripped =
      if r.strip_prefix == [] then repository else trim_prefix repository r.strip_prefix in
    if r.add_prefix == [] then stripped else r.add_prefix ++ stripped
