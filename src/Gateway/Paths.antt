-- ===== src/Gateway/Paths.antt =====
-- The texts that internal/gateway/server.go reads and writes: paths, scopes, remote addresses and ranges.
use regstair.Base.{
  ℕ, ◌-◌, Bool, ◌&&◌, ◌||◌, not, Option, none, some, List, [], ◌∷◌, ◌++◌, ◌==◌, nat_eq, any,
  if◌then◌else◌,
}
use regstair.Strings.{Text, text_eq, codes, has_prefix, trim_prefix, trim_space}
use regstair.Strings.Search.{Casing, split_at, split_rune, to_lower, decimal}
use regstair.Gateway.Types.{Request, method_get, method_head}

-- Which of the two markers a path has.
pub data Action : Type 0 where
  manifests blobs : Action

abbrev pub manifests_marker : Text
manifests_marker = codes "/manifests/"

abbrev pub blobs_marker : Text
blobs_marker = codes "/blobs/"

pub record Route : Type 0 where
  pub repository : Text
  pub action : Action
  pub rest : Text

-- repository != "" && rest != ""
unfoldable pub checked_route : Action → Text → Text → Option Route
checked_route action repository rest =
    if not (repository == []) && not (rest == [])
    then some (record { repository = repository; action = action; rest = rest })
    else none

-- The loop over the markers, written out.
unfoldable pub marked_route : Text → Option Route
marked_route trimmed = elim (split_at manifests_marker trimmed) [
  | some (repository, rest) ↦ checked_route manifests repository rest
  | none ↦ elim (split_at blobs_marker trimmed) [
    | some (repository, rest) ↦ checked_route blobs repository rest
    | none ↦ none
  ]
]

unfoldable pub parse_v2_path : Text → Option Route
parse_v2_path path =
    if has_prefix path (codes "/v2/") then marked_route (trim_prefix path (codes "/v2/")) else none

abbrev pub reads : Text → Bool
reads method = method == method_get || method == method_head

-- The repository and the actions that a request is for.
unfoldable pub request_scope : Request → Text × List Text
request_scope r = if r.path == codes "/v2/" then ([], []) else elim (parse_v2_path r.path) [
  | none ↦ ([], [])
  | some route ↦
      if reads r.method
      then (route.repository, codes "pull" ∷ [])
      else (route.repository, codes "push" ∷ [])
]

-- The first action, "" where there is none.
unfoldable pub first_action : List Text → Text
first_action [] = []
first_action (action ∷ actions) = action

-- The loop over the actions of a scope.
unfoldable pub scope_actions : List Text → Option (List Text)
scope_actions [] = some []
scope_actions (action ∷ actions) =
    let rest = scope_actions actions in
    if not (action == codes "pull") && not (action == codes "push")
    then none
    else elim rest [ none ↦ none | some allowed ↦ some (action ∷ allowed) ]

abbrev nonempty : Text → List Text → Option (Text × List Text)
nonempty repository [] = none
nonempty repository (action ∷ actions) = some (repository, action ∷ actions)

-- The three parts of a scope.
unfoldable pub three_parts : List Text → Option (Text × List Text)
three_parts (kind ∷ repository ∷ actions ∷ []) =
    let allowed = scope_actions (split_rune b',' actions) in
    if not (kind == codes "repository") || repository == []
    then none
    else elim allowed [ none ↦ none | some list ↦ nonempty repository list ]
three_parts _ = none

unfoldable pub parse_token_scope : Text → Option (Text × List Text)
parse_token_scope scope = if scope == [] then some ([], []) else three_parts (split_rune b':' scope)

abbrev has_rune : ℕ → Text → Bool
has_rune c s = any (λ d. d == c) s

-- The text in front of the last rune c, and whether there is one.
unfoldable pub before_last : ℕ → Text → Option Text
before_last c [] = none
before_last c (d ∷ s) =
    let rest = before_last c s in
    elim rest [ some before ↦ some (d ∷ before) | none ↦ if d == c then some [] else none ]

-- The host in brackets: behind it stands the last colon, and no other bracket.
unfoldable pub bracketed_host : Text → Option Text
bracketed_host s = elim (split_at (codes "]") s) [
  | none ↦ none
  | some (host, []) ↦ none
  | some (host, c ∷ port) ↦
      if c == b':'
        && not (has_rune b':' port)
        && not (has_rune b'[' host)
        && not (has_rune b'[' port)
        && not (has_rune b']' port)
      then some host
      else none
]

-- The host of a text without brackets: it has one colon.
unfoldable pub plain_host : Text → Option Text
plain_host s = elim (before_last b':' s) [
  | none ↦ none
  | some host ↦ if has_rune b':' host || has_rune b'[' s || has_rune b']' s then none else some host
]

-- net.SplitHostPort, of which the host is used
unfoldable pub split_host : Text → Option Text
split_host [] = none
split_host (c ∷ s) = if c == b'[' then bracketed_host s else plain_host (c ∷ s)

unfoldable pub gateway_authentication_rate_keys : ⦃k : Casing⦄ → Text → Text → List Text
gateway_authentication_rate_keys remote_address username =
    let host : Text = elim (split_host remote_address) [
      | none ↦ remote_address
      | some host ↦ host
    ] in
    (codes "docker:address:" ++ host)
    ∷ (codes "docker:account:" ++ to_lower (trim_space username))
    ∷ []

unfoldable pub upload_range : ℕ → Text
upload_range size = if size == 0 then codes "0-0" else codes "0-" ++ decimal (size - 1)
