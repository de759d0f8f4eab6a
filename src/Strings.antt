-- ===== src/Strings.antt =====
-- Go's `strings` package over code points: a text that is valid UTF-8 is the list of its runes.
pub mod Search
pub mod Trim
use Prim.Native.Char.{code}
use Prim.Native.String.{String}
use mathlib.Core.List.{append_assoc, append-nil, reverse-append, reverse-reverse, reverse-cons}
use regstair.Base.{
  ℕ, ◌≤◌, zero, suc, ◌+◌, ◌-◌, ◌≡◌, refl, sym, ap, ◌∙◌, ◌↔◌, ◌⊎◌, inl, inr, Bool, true, false, ◌&&◌,
  ◌||◌, not, List, [], ◌∷◌, ◌++◌, reverse, arith, Comparable, ◌==◌, nat_eq, nat_beq, leb, ltb,
  if◌then◌else◌, length, take, drop, length-append, take-append-drop, drop-append, take-append,
  Bool-cases,
}

abbrev pub Text : Type 0
Text = List ℕ

-- A literal.
abbrev pub codes : String → Text
codes String.[] = []
codes (String.◌∷◌ c s) = code c ∷ codes s

unfoldable pub text_beq : Text → Text → Bool
text_beq [] [] = true
text_beq (c ∷ s) (d ∷ t) = nat_beq c d && text_beq s t
text_beq _ _ = false

pub text_beq_iff : (s t : Text) → (text_beq s t ≡ true) ↔ (s ≡ t)
unfolding text_beq
text_beq_iff [] [] = ground arith
text_beq_iff [] (d ∷ t) = ground arith
text_beq_iff (c ∷ s) [] = ground arith
text_beq_iff (c ∷ s) (d ∷ t) = ground (arith, text_beq_iff s t)

instance abbrev pub text_eq : Comparable Text
text_eq = record { same = text_beq; same_iff = text_beq_iff }

pub text_beq_refl : (s : Text) → text_beq s s ≡ true
text_beq_refl s = (text_beq_iff s s).1 refl

-- s < t; UTF-8 keeps the order of code points.
unfoldable pub text_ltb : Text → Text → Bool
text_ltb s [] = false
text_ltb [] (d ∷ t) = true
text_ltb (c ∷ s) (d ∷ t) = ltb c d || nat_beq c d && text_ltb s t

-- strings.HasPrefix(s, prefix)
unfoldable pub has_prefix : Text → Text → Bool
has_prefix s [] = true
has_prefix [] (d ∷ p) = false
has_prefix (c ∷ s) (d ∷ p) = nat_beq c d && has_prefix s p

-- strings.HasSuffix(s, suffix): the test on the length, then the last runes.
unfoldable pub has_suffix : Text → Text → Bool
has_suffix s t = leb (length t) (length s) && drop (length s - length t) s == t

-- strings.TrimPrefix(s, prefix)
unfoldable pub trim_prefix : Text → Text → Text
unfolding has_prefix
trim_prefix s p = if has_prefix s p then drop (length p) s else s

-- strings.TrimSuffix(s, suffix)
unfoldable pub trim_suffix : Text → Text → Text
unfolding has_suffix
trim_suffix s t = if has_suffix s t then take (length s - length t) s else s

-- strings.Contains(s, substr)
unfoldable pub contains : Text → Text → Bool
unfolding has_prefix
contains [] t = has_prefix [] t
contains (c ∷ s) t = has_prefix (c ∷ s) t || contains s t

-- strings.TrimLeftFunc and strings.TrimRightFunc
unfoldable pub trim_left : (ℕ → Bool) → Text → Text
trim_left f [] = []
trim_left f (c ∷ s) = let rest = trim_left f s in if f c then rest else c ∷ s

unfoldable pub trim_right : (ℕ → Bool) → Text → Text
unfolding trim_left
trim_right f s = reverse (trim_left f (reverse s))

unfoldable pub trim : (ℕ → Bool) → Text → Text
unfolding trim_left trim_right
trim f s = trim_right f (trim_left f s)

-- unicode.IsSpace
unfoldable pub is_space : ℕ → Bool
is_space c =
    (leb 9 c && leb c 13)
    || c == 32
    || c == 0x85
    || c == 0xA0
    || c == 0x1680
    || (leb 0x2000 c && leb c 0x200A)
    || c == 0x2028
    || c == 0x2029
    || c == 0x202F
    || c == 0x205F
    || c == 0x3000

-- strings.TrimSpace(s)
unfoldable pub trim_space : Text → Text
unfolding trim is_space
trim_space = trim is_space

-- A prefix is what an append puts in front.
pub has_prefix-append : (p r : Text) → has_prefix (p ++ r) p ≡ true
unfolding has_prefix
has_prefix-append [] r = refl
has_prefix-append (c ∷ p) r = ground (arith, has_prefix-append p r)

pub prefix_rest : (s p : Text) → has_prefix s p ≡ true → (r : Text) × (s ≡ p ++ r)
unfolding has_prefix
prefix_rest s [] h = (s, refl)
prefix_rest [] (d ∷ p) h = absurd (ground arith)
prefix_rest (c ∷ s) (d ∷ p) h =
    let (r, e) = prefix_rest s p (ground arith) in (r, ground (arith, e))

length_rest : (p t : Text) → length (p ++ t) - length t ≡ length p
length_rest p t = omega (arith, length-append p t)

pub has_suffix-append : (p t : Text) → has_suffix (p ++ t) t ≡ true
unfolding has_suffix
has_suffix-append p t =
    rw (length_rest p t, drop-append p t) (ground (arith, length-append p t, text_beq_refl t))

pub suffix_rest : (s t : Text) → has_suffix s t ≡ true → (p : Text) × (s ≡ p ++ t)
unfolding has_suffix
suffix_rest s t h =
    let n = length s - length t in
    let e : drop n s ≡ t = (text_beq_iff (drop n s) t).0 (ground arith) in
    (take n s, sym (take-append-drop n s) ∙ ap (◌++◌ (take n s)) e)

pub trim_suffix-append : (p t : Text) → trim_suffix (p ++ t) t ≡ p
unfolding trim_suffix
trim_suffix-append p t = rw (has_suffix-append p t, length_rest p t) (take-append p t)

pub trim_prefix-append : (p r : Text) → trim_prefix (p ++ r) p ≡ r
unfolding trim_prefix
trim_prefix-append p r = rw (has_prefix-append p r) (drop-append p r)

-- Two prefixes of one text: the shorter is a prefix of the longer.
pub has_prefix-comparable :
    (s p q : Text)
    → has_prefix s p ≡ true
    → has_prefix s q ≡ true
    → (has_prefix p q ≡ true) ⊎ (has_prefix q p ≡ true)
unfolding has_prefix
has_prefix-comparable s [] q h k = inr refl
has_prefix-comparable s (d ∷ p) [] h k = inl refl
has_prefix-comparable [] (d ∷ p) (e ∷ q) h k = absurd (ground arith)
has_prefix-comparable (c ∷ s) (d ∷ p) (e ∷ q) h k = ground (arith, has_prefix-comparable s p q)

pub has_prefix_trans :
    (s p q : Text) → has_prefix s p ≡ true → has_prefix p q ≡ true → has_prefix s q ≡ true
unfolding has_prefix
has_prefix_trans s p [] h k = refl
has_prefix_trans s [] (e ∷ q) h k = absurd (ground arith)
has_prefix_trans [] (d ∷ p) (e ∷ q) h k = absurd (ground arith)
has_prefix_trans (c ∷ s) (d ∷ p) (e ∷ q) h k = ground (arith, has_prefix_trans s p q)

pub has_prefix-length : (s p : Text) → has_prefix s p ≡ true → length p ≤ length s
has_prefix-length s p h =
    let (r, e) = prefix_rest s p h in omega (arith, ap length e, length-append p r)
