-- ===== src/Policy/Normalize.antt =====
-- NormalizeRepository.
use regstair.Base.{ℕ, Bool, ◌&&◌, ◌||◌, [], ◌∷◌, ◌==◌, nat_eq, leb, if◌then◌else◌}
use regstair.Strings.{Text, text_eq, trim, trim_space, contains, codes}
use regstair.Errors.{Result, ok, err, wrap, lit, quoted, rune, invalid_repository}

-- The tables of the package `unicode` beyond Latin-1, which its functions read for such runes.
pub record Unicode : Type 0 where
  pub lower : ℕ → Bool
  pub digit : ℕ → Bool

abbrev slash : ℕ
slash = b'/'

module _ ⦃u : Unicode⦄ where
  -- unicode.IsLower: in Latin-1 the letters a to z, µ, ß to ö and ø to ÿ.
  unfoldable pub is_lower : ℕ → Bool
  is_lower c =
      if leb c 0xFF
      then (leb b'a' c && leb c b'z')
        || c == 0xB5
        || (leb 0xDF c && leb c 0xF6)
        || (leb 0xF8 c && leb c 0xFF)
      else u.lower c

  -- unicode.IsDigit
  unfoldable pub is_digit : ℕ → Bool
  is_digit c = if leb c 0xFF then leb b'0' c && leb c b'9' else u.digit c

  unfoldable pub is_supported : ℕ → Bool
  unfolding is_lower is_digit
  is_supported c = is_lower c || is_digit c || c == b'/' || c == b'.' || c == b'_' || c == b'-'

  -- The loop over the runes; `all` is the whole text, for the message.
  unfoldable pub check_runes : Text → Text → Result Text
  unfolding is_supported
  check_runes all [] = ok all
  check_runes all (c ∷ s) =
      let rest = check_runes all s in
      if is_supported c
      then rest
      else err (
          wrap invalid_repository
            (lit "repository " ∷ quoted all ∷ lit " contains unsupported character " ∷ rune c ∷ []))

  unfoldable pub normalize_repository : Text → Result Text
  unfolding check_runes
  normalize_repository text =
      let repository = trim (λ c. c == b'/') (trim_space text) in
      if repository == []
      then err (wrap invalid_repository (lit "empty repository" ∷ []))
      else if contains repository (codes "//")
      then err (wrap invalid_repository (lit "repository contains empty path component" ∷ []))
      else check_runes repository repository
