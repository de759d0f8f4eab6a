-- ===== src/Strings/Search.antt =====
-- Go's `strings` and `strconv` functions that look for a separator, join, fold case and print a
-- number.
use regstair.Base.{
  ℕ, zero, suc, ◌+◌, ◌-◌, ◌*◌, ◌/◌, ◌%◌, ◌≤◌, ◌≡◌, refl, ap, ◌∙◌, Bool, inl, inr, true, false, ◌&&◌,
  Option, none, some, List, [], ◌∷◌, ◌++◌, arith, ◌==◌, nat_eq, leb, ltb, if◌then◌else◌, length,
  drop, drop-append, length-append, Bool-cases,
}
use mathlib.Core.List.{append_assoc}
use regstair.Strings.{Text, text_eq, has_prefix, has_prefix-append, contains}

-- What stands in front of the first `sep` and behind it: strings.Index and the slices at it.
unfoldable pub split_at : Text → Text → Option (Text × Text)
unfolding has_prefix
split_at sep [] = if has_prefix [] sep then some ([], []) else none
split_at sep (c ∷ s) =
    let rest = split_at sep s in
    if has_prefix (c ∷ s) sep
    then some ([], drop (length sep) (c ∷ s))
    else elim rest [ none ↦ none | some (before, after) ↦ some (c ∷ before, after) ]

-- strings.Split(s, sep) for a separator of one rune
unfoldable pub split_rune : ℕ → Text → List Text
split_rune sep [] = [] ∷ []
split_rune sep (c ∷ s) =
    let rest = split_rune sep s in
    if c == sep
    then [] ∷ rest
    else elim rest [ [] ↦ (c ∷ []) ∷ [] | part ∷ parts ↦ (c ∷ part) ∷ parts ]

-- strings.Join(parts, sep)
unfoldable pub join : Text → List Text → Text
join sep [] = []
join sep (part ∷ parts) =
    let rest = join sep parts in elim parts [ [] ↦ part | _ ∷ _ ↦ part ++ sep ++ rest ]

-- unicode.ToLower beyond ASCII.
pub record Casing : Type 0 where
  pub lower_rune : ℕ → ℕ

-- strings.ToLower(s)
unfoldable pub to_lower : ⦃k : Casing⦄ → Text → Text
to_lower [] = []
to_lower ⦃k⦄ (c ∷ s) =
    (if leb b'A' c && leb c b'Z' then c + 32 else if leb c 127 then c else k.lower_rune c)
    ∷ to_lower s

-- The ASCII letter that a rune folds to: the long s and the Kelvin sign are the two others.
unfoldable pub fold_rune : ℕ → ℕ
fold_rune c =
    if leb b'A' c && leb c b'Z'
    then c + 32
    else if c == 0x17F
    then b's'
    else if c == 0x212A
    then b'k'
    else c

-- strings.EqualFold(s, t) for a text t of small ASCII letters
unfoldable pub equal_fold : Text → Text → Bool
equal_fold [] [] = true
equal_fold (c ∷ s) (d ∷ t) = fold_rune c == d && equal_fold s t
equal_fold _ _ = false

-- The digits of a number; the fuel is at least their count.
unfoldable pub digits : ℕ → ℕ → Text
digits zero n = (b'0' + n % 10) ∷ []
digits (suc fuel) n =
    let rest = digits fuel (n / 10) in
    if ltb n 10 then (b'0' + n) ∷ [] else rest ++ (b'0' + n % 10) ∷ []

-- strconv.FormatUint(n, 10), strconv.Itoa(n)
unfoldable pub decimal : ℕ → Text
decimal n = digits n n

-- The number that digits print, from the value of those in front.
abbrev pub value_from : ℕ → Text → ℕ
value_from acc [] = acc
value_from acc (c ∷ s) = value_from (acc * 10 + (c - b'0')) s

value_from-append :
    (acc : ℕ) (s : Text) (c : ℕ) → value_from acc (s ++ c ∷ []) ≡ value_from acc s * 10 + (c - b'0')
value_from-append acc [] c = refl
value_from-append acc (d ∷ s) c = value_from-append (acc * 10 + (d - b'0')) s c

value_from-digits : (fuel n : ℕ) → n ≤ fuel → value_from 0 (digits fuel n) ≡ n
unfolding digits
value_from-digits zero n h = omega arith
value_from-digits (suc fuel) n h = elim (Bool-cases (ltb n 10)) [
  | inl e ↦ rw e (omega arith)
  | inr e ↦
      rw (e, value_from-append 0 (digits fuel (n / 10)) (b'0' + n % 10))
        (ground (arith, value_from-digits fuel (n / 10)))
]

-- Different numbers print differently.
pub decimal_injective : (m n : ℕ) → decimal m ≡ decimal n → m ≡ n
unfolding decimal
decimal_injective m n e =
    let printed : value_from 0 (digits m m) ≡ value_from 0 (digits n n) = ap (value_from 0) e in
    ground (arith, printed, value_from-digits m m, value_from-digits n n)

-- What stands behind the length of a prefix does not matter.
has_prefix-longer : (s r p : Text) → length p ≤ length s → has_prefix (s ++ r) p ≡ has_prefix s p
unfolding has_prefix
has_prefix-longer s r [] h = refl
has_prefix-longer [] r (d ∷ p) h = absurd (omega (arith, h))
has_prefix-longer (c ∷ s) r (d ∷ p) h = ground (arith, has_prefix-longer s r p)

pub split_at-none : (sep s : Text) → contains s sep ≡ false → split_at sep s ≡ none
unfolding split_at contains
split_at-none sep [] h = rw h refl
split_at-none sep (c ∷ s) h = ground (arith, split_at-none sep s)

-- The first separator is found where it is put, if none begins further in front.
module _ (stem : Text) (x : ℕ) where
  abbrev pub separator : Text
  separator = stem ++ x ∷ []

  at_front : (s after : Text) → s ≡ separator ++ after → split_at separator s ≡ some ([], after)
  unfolding split_at
  at_front [] after e =
      absurd
        (omega (arith, ap length e, length-append stem (x ∷ []), length-append separator after))
  at_front (c ∷ s) after e =
      rw (e, has_prefix-append separator after)
        (ap (λ rest. some ([], rest)) (drop-append separator after))

  regroup : (before after : Text) → before ++ separator ++ after ≡ (before ++ stem) ++ x ∷ after
  regroup [] after = append_assoc stem (x ∷ []) after
  regroup (c ∷ before) after = ap (◌∷◌ c) (regroup before after)

  none_before :
      (c : ℕ) (before after : Text)
      → has_prefix (c ∷ before ++ stem) separator ≡ false
      → has_prefix (c ∷ before ++ separator ++ after) separator ≡ false
  none_before c before after h =
      ap (λ s. has_prefix s separator) (regroup (c ∷ before) after)
      ∙ has_prefix-longer (c ∷ before ++ stem) (x ∷ after) separator
          (omega (arith, length-append before stem, length-append stem (x ∷ [])))
      ∙ h

  pub split_at-append :
      (before after : Text)
      → contains (before ++ stem) separator ≡ false
      → split_at separator (before ++ separator ++ after) ≡ some (before, after)
  unfolding split_at contains
  split_at-append [] after h = at_front (separator ++ after) after refl
  split_at-append (c ∷ before) after h =
      let none_here : has_prefix (c ∷ before ++ separator ++ after) separator ≡ false =
        none_before c before after (ground (arith, h)) in
      rw (none_here, split_at-append before after (ground (arith, h))) refl
