-- ===== src/Policy/Canonical.antt =====
-- The names that NormalizeRepository returns, and that it leaves them as they are.
use regstair.Base.{
  ℕ, ◌≡◌, refl, ap, subst, ◌∙◌, ◌↔◌, ◌≢◌, Bool, true, false, [], ◌∷◌, reverse, arith, all, nat_eq,
  ◌==◌,
}
use regstair.Strings.{Text, text_eq, text_beq_iff, trim, trim_space, contains, is_space, codes}
use regstair.Strings.Trim.{head_is, last_is, trim-head, trim-last, trim-fixed, all-reverse}
use regstair.Errors.{ok}
use regstair.Policy.Normalize.{
  Unicode, is_lower, is_digit, is_supported, check_runes, normalize_repository,
}

abbrev is_slash : ℕ → Bool
is_slash c = c == b'/'

-- What the tables of `unicode` say of white space: no letter or digit is a space.
pub record IsUnicode (u : Unicode) : Type 0 where
  pub lower_not_space : (c : ℕ) → u.lower c ≡ true → is_space c ≡ false
  pub digit_not_space : (c : ℕ) → u.digit c ≡ true → is_space c ≡ false

module _ ⦃u : Unicode⦄ where
  -- A non-empty path of supported runes, with no slash at an end and no empty component.
  pub record IsCanonical (s : Text) : Type 0 where
    pub filled : s ≢ []
    pub no_leading_slash : head_is is_slash s ≡ false
    pub no_trailing_slash : last_is is_slash s ≡ false
    pub no_empty_component : contains s (codes "//") ≡ false
    pub supported : all is_supported s ≡ true

  check_runes-ok :
      (whole s t : Text) → check_runes whole s ≡ ok t → (whole ≡ t) × (all is_supported s ≡ true)
  unfolding check_runes
  check_runes-ok whole [] t h = (ground arith, refl)
  check_runes-ok whole (c ∷ s) t h = ground (arith, check_runes-ok whole s t)

  check_runes_supported :
      (whole s : Text) → all is_supported s ≡ true → check_runes whole s ≡ ok whole
  unfolding check_runes
  check_runes_supported whole [] h = refl
  check_runes_supported whole (c ∷ s) h = ground (arith, check_runes_supported whole s)

  supported-not-space : IsUnicode u → (c : ℕ) → is_supported c ≡ true → is_space c ≡ false
  unfolding is_supported is_lower is_digit is_space
  supported-not-space v c h = ground (arith, v.lower_not_space c, v.digit_not_space c)

  head-not-space : IsUnicode u → (s : Text) → all is_supported s ≡ true → head_is is_space s ≡ false
  head-not-space v [] h = refl
  head-not-space v (c ∷ s) h = supported-not-space v c (ground arith)

  abbrev trimmed : Text → Text
  trimmed s = trim is_slash (trim_space s)

  normalize_checks :
      (r s : Text)
      → normalize_repository r ≡ ok s
      → (trimmed r ≢ [])
        × (contains (trimmed r) (codes "//") ≡ false)
        × (trimmed r ≡ s)
        × (all is_supported (trimmed r) ≡ true)
  unfolding normalize_repository
  normalize_checks r s h =
      ground (arith, text_beq_iff (trimmed r) [], check_runes-ok (trimmed r) (trimmed r) s)

  -- An accepted name is a non-empty path of supported characters, without empty components and
  -- without a slash at either end.
  pub normalize_repository-IsCanonical :
      (r s : Text) → normalize_repository r ≡ ok s → IsCanonical s
  normalize_repository-IsCanonical r s h =
      let (filled, components, same, supported) = normalize_checks r s h in
      subst IsCanonical same (record {
        filled = filled;
        no_leading_slash = trim-head is_slash (trim_space r);
        no_trailing_slash = trim-last is_slash (trim_space r);
        no_empty_component = components;
        supported = supported;
      })

  trim_space-fixed : IsUnicode u → (s : Text) → all is_supported s ≡ true → trim_space s ≡ s
  unfolding trim_space
  trim_space-fixed v s h =
      trim-fixed is_space s (head-not-space v s h)
        (head-not-space v (reverse s) (all-reverse is_supported s ∙ h))

  trimmed-fixed : IsUnicode u → (s : Text) → IsCanonical s → trimmed s ≡ s
  trimmed-fixed v s c =
      ap (trim is_slash) (trim_space-fixed v s c.supported)
      ∙ trim-fixed is_slash s c.no_leading_slash c.no_trailing_slash

  canonical-fixed : IsUnicode u → (s : Text) → IsCanonical s → normalize_repository s ≡ ok s
  unfolding normalize_repository
  canonical-fixed v s c =
      ground (arith, trimmed-fixed v s c, text_beq_iff s [], check_runes_supported s s c.supported)

  -- Exactly the canonical names are left as they are, so that normalizing twice, as ResolvePull and
  -- ResolvePush do, is normalizing once.
  pub normalize_repository-fixed_iff :
      IsUnicode u → (s : Text) → (normalize_repository s ≡ ok s) ↔ IsCanonical s
  normalize_repository-fixed_iff v s = (normalize_repository-IsCanonical s s, canonical-fixed v s)
