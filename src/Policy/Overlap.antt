-- ===== src/Policy/Overlap.antt =====
-- What a match pattern selects, and which pairs of patterns patternsOverlap reports.
use mathlib.Core.List.{append_assoc}
use regstair.Base.{
  ◌≡◌, refl, sym, ap, subst, ◌∙◌, ◌↔◌, ◌⊎◌, inl, inr, true, false, [], ◌∷◌, ◌++◌, arith,
  if◌then◌else◌, length, length-append, Bool-cases,
}
use regstair.Strings.{
  Text, text_eq, text_beq, text_beq_iff, has_prefix, has_suffix, trim_suffix, has_prefix-append,
  prefix_rest, has_prefix-length, has_suffix-append, suffix_rest, trim_suffix-append,
  has_prefix-comparable,
}
use regstair.Policy.Patterns.{any_path, below, match_repository, pattern_contains, patterns_overlap}

-- The pattern of everything below a path.
abbrev pub glob : Text → Text
glob p = p ++ below

glob-split : (p : Text) → glob p ≡ (p ++ b'/' ∷ []) ++ any_path
glob-split p = sym (append_assoc p (b'/' ∷ []) any_path)

pub glob-has_suffix : (p : Text) → has_suffix (glob p) below ≡ true
glob-has_suffix p = has_suffix-append p below

pub trim_suffix-glob : (p : Text) → trim_suffix (glob p) any_path ≡ p ++ b'/' ∷ []
trim_suffix-glob p =
    ap (λ t. trim_suffix t any_path) (glob-split p) ∙ trim_suffix-append (p ++ b'/' ∷ []) any_path

pub glob-ne-any : (p : Text) → text_beq (glob p) any_path ≡ false
glob-ne-any p = elim (Bool-cases (text_beq (glob p) any_path)) [
  | inl e ↦
      absurd
        (omega (arith, ap length ((text_beq_iff (glob p) any_path).0 e), length-append p below))
  | inr e ↦ e
]

-- What the configuration's documentation says of a pattern.
abbrev pub Selects : Text → Text → Type 0
Selects pattern repository =
    (pattern ≡ any_path)
    ⊎ ((p : Text) × (rest : Text) × (pattern ≡ glob p) × (repository ≡ p ++ b'/' ∷ rest))
    ⊎ (pattern ≡ repository)

-- A pattern of the other kind is compared whole.
pub match-glob : (p r : Text) → match_repository (glob p) r ≡ has_prefix r (p ++ b'/' ∷ [])
unfolding match_repository
match-glob p r = rw (glob-ne-any p, glob-has_suffix p, trim_suffix-glob p)

pub match-glob_under : (p rest : Text) → match_repository (glob p) (p ++ b'/' ∷ rest) ≡ true
match-glob_under p rest =
    match-glob p (p ++ b'/' ∷ rest)
    ∙ ap (λ t. has_prefix t (p ++ b'/' ∷ [])) (sym (append_assoc p (b'/' ∷ []) rest))
    ∙ has_prefix-append (p ++ b'/' ∷ []) rest

glob-Selects : (p r : Text) → match_repository (glob p) r ≡ true → Selects (glob p) r
glob-Selects p r h =
    let (rest, e) = prefix_rest r (p ++ b'/' ∷ []) (sym (match-glob p r) ∙ h) in
    inr (inl (p, rest, refl, e ∙ append_assoc p (b'/' ∷ []) rest))

match-Selects : (a r : Text) → match_repository a r ≡ true → Selects a r
match-Selects a r h = elim (Bool-cases (has_suffix a below)) [
  | inl suffixed ↦
      let (p, e) = suffix_rest a below suffixed in
      subst (λ t. Selects t r) (sym e)
        (glob-Selects p r (subst (λ t. match_repository t r ≡ true) e h))
  | inr plain ↦
      unfold match_repository in ground (arith, plain, text_beq_iff a any_path, text_beq_iff a r)
]

match_self : (a : Text) → match_repository a a ≡ true
match_self a = elim (Bool-cases (has_suffix a below)) [
  | inl suffixed ↦
      let (p, e) = suffix_rest a below suffixed in
      subst (λ t. match_repository t t ≡ true) (sym e) (match-glob_under p any_path)
  | inr plain ↦ unfold match_repository in ground (arith, plain, text_beq_iff a a)
]

Selects-match : (a r : Text) → Selects a r → match_repository a r ≡ true
Selects-match a r (inl e) = unfold match_repository in ground (arith, text_beq_iff a any_path)
Selects-match a r (inr (inl (p, rest, e, f))) = rw (e, f) (match-glob_under p rest)
Selects-match a r (inr (inr e)) = rw e (match_self r)

-- A pattern matches a repository exactly if it is "**", or a path with "/**" behind it of which the
-- repository is a descendant, or the repository itself.
pub match_repository_iff : (a r : Text) → (match_repository a r ≡ true) ↔ Selects a r
match_repository_iff a r = (match-Selects a r, Selects-match a r)

-- Where two patterns match one repository and patternsOverlap does not report the pair, both end in
-- "/**" and the second contains the first; the pair is reported with the patterns exchanged.
pub overlap_gap :
    (a b r : Text)
    → match_repository a r ≡ true
    → match_repository b r ≡ true
    → patterns_overlap a b ≡ false
    → (has_suffix a below ≡ true)
      × (has_suffix b below ≡ true)
      × (pattern_contains b a ≡ true)
      × (patterns_overlap b a ≡ true)
unfolding match_repository pattern_contains patterns_overlap
overlap_gap a b r h k o = ground (
  arith,
  text_beq_iff a any_path,
  text_beq_iff b any_path,
  text_beq_iff a b,
  text_beq_iff b a,
  text_beq_iff a r,
  text_beq_iff b r,
  has_prefix-comparable r (trim_suffix a any_path) (trim_suffix b any_path),
)

-- The text that stands for a pattern when patternsOverlap asks whether another contains it.
abbrev reached : Text → Text
reached b = if has_suffix b below then trim_suffix b any_path else b

match-reached : (b : Text) → match_repository b (reached b) ≡ true
match-reached b = elim (Bool-cases (has_suffix b below)) [
  | inl suffixed ↦
      let (p, e) = suffix_rest b below suffixed in
      rw suffixed (rw e (rw (trim_suffix-glob p) (match-glob_under p [])))
  | inr plain ↦ rw plain (match_self b)
]

match_of_contains :
    (a r : Text)
    → has_suffix a below ≡ true
    → has_prefix r (trim_suffix a any_path) ≡ true
    → match_repository a r ≡ true
unfolding match_repository
match_of_contains a r suffixed h = ground (arith, text_beq_iff a any_path)

match_of_any : (a r : Text) → text_beq a any_path ≡ true → match_repository a r ≡ true
unfolding match_repository
match_of_any a r h = ground (arith, h)

-- The first pattern ends in "/**" and contains the second.
contains-common :
    (a b : Text)
    → has_suffix a below ≡ true
    → pattern_contains a b ≡ true
    → (r : Text) × (match_repository a r ≡ true) × (match_repository b r ≡ true)
unfolding pattern_contains
contains-common a b suffixed h =
    (reached b, match_of_contains a (reached b) suffixed h, match-reached b)

overlap_cases :
    (a b : Text)
    → patterns_overlap a b ≡ true
    → (text_beq a any_path ≡ true)
      ⊎ (text_beq b any_path ≡ true)
      ⊎ (a ≡ b)
      ⊎ ((has_suffix a below ≡ true) × (pattern_contains a b ≡ true))
      ⊎ ((has_suffix b below ≡ true) × (pattern_contains b a ≡ true))
unfolding patterns_overlap
overlap_cases a b h = ground (arith, text_beq_iff a b)

-- A reported pair has a text that both patterns match: no report is spurious.
pub overlap_sound :
    (a b : Text)
    → patterns_overlap a b ≡ true
    → (r : Text) × (match_repository a r ≡ true) × (match_repository b r ≡ true)
overlap_sound a b h = elim (overlap_cases a b h) [
  | inl e ↦ (b, match_of_any a b e, match_self b)
  | inr (inl e) ↦ (a, match_self a, match_of_any b a e)
  | inr (inr (inl e)) ↦ (a, match_self a, subst (λ t. match_repository t a ≡ true) e (match_self a))
  | inr (inr (inr (inl (s, c)))) ↦ contains-common a b s c
  | inr (inr (inr (inr (s, c)))) ↦ let (r, m, n) = contains-common b a s c in (r, n, m)
]

contains-glob :
    (p q : Text) → pattern_contains (glob p) (glob q) ≡ has_prefix (q ++ b'/' ∷ []) (p ++ b'/' ∷ [])
unfolding pattern_contains
contains-glob p q = rw (glob-has_suffix q, trim_suffix-glob p, trim_suffix-glob q)

nested_apart : (p q : Text) → has_prefix (p ++ b'/' ∷ []) ((p ++ b'/' ∷ q) ++ b'/' ∷ []) ≡ false
nested_apart p q =
    let inner = (p ++ b'/' ∷ q) ++ b'/' ∷ [] in
    elim (Bool-cases (has_prefix (p ++ b'/' ∷ []) inner)) [
      | inl e ↦ absurd (
          omega (
            arith,
            has_prefix-length (p ++ b'/' ∷ []) inner e,
            length-append p (b'/' ∷ []),
            length-append (p ++ b'/' ∷ q) (b'/' ∷ []),
            length-append p (b'/' ∷ q),
          ))
      | inr e ↦ e
    ]

nested_under : (p q rest : Text) → has_prefix ((p ++ b'/' ∷ q) ++ rest) (p ++ b'/' ∷ []) ≡ true
nested_under p q rest =
    let e : (p ++ b'/' ∷ q) ++ rest ≡ (p ++ b'/' ∷ []) ++ (q ++ rest) =
      append_assoc p (b'/' ∷ q) rest ∙ sym (append_assoc p (b'/' ∷ []) (q ++ rest)) in
    rw e (has_prefix-append (p ++ b'/' ∷ []) (q ++ rest))

-- The order of the patterns matters: of a path and a path below it, each with "/**", the pair is
-- reported if the wider pattern stands first, and is not if the narrower does, though both match
-- every repository below the narrower path.
pub overlap_misses_nested :
    (p q rest : Text)
    → let narrow = glob (p ++ b'/' ∷ q) in
      let wide = glob p in
      let repository = (p ++ b'/' ∷ q) ++ b'/' ∷ rest in
      (patterns_overlap wide narrow ≡ true)
      × (patterns_overlap narrow wide ≡ false)
      × (match_repository narrow repository ≡ true)
      × (match_repository wide repository ≡ true)
unfolding patterns_overlap
overlap_misses_nested p q rest =
    let narrow = glob (p ++ b'/' ∷ q) in
    let wide = glob p in
    let found : pattern_contains wide narrow ≡ true =
      contains-glob p (p ++ b'/' ∷ q) ∙ nested_under p q (b'/' ∷ []) in
    let missed : pattern_contains narrow wide ≡ false =
      contains-glob (p ++ b'/' ∷ q) p ∙ nested_apart p q in
    (
      ground (arith, found, glob-ne-any p, glob-ne-any (p ++ b'/' ∷ q), glob-has_suffix p),
      ground (
        arith,
        found,
        missed,
        text_beq_iff narrow wide,
        glob-ne-any p,
        glob-ne-any (p ++ b'/' ∷ q),
        glob-has_suffix (p ++ b'/' ∷ q),
      ),
      match-glob_under (p ++ b'/' ∷ q) rest,
      match-glob p _ ∙ nested_under p q (b'/' ∷ rest),
    )
