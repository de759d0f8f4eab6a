-- ===== src/Strings/Trim.antt =====
-- What trimming leaves: no rune of the trimmed kind at either end, and a text without such ends is
-- left as it is.
use mathlib.Core.List.{reverse-append, reverse-reverse, reverse-cons}
use regstair.Base.{
  ℕ, ◌≡◌, refl, sym, ap, subst, ◌∙◌, Bool, true, false, ◌&&◌, [], ◌∷◌, ◌++◌, reverse, arith, all,
}
use regstair.Strings.{Text, trim_left, trim_right, trim}

-- Whether the text begins with a rune of the kind.
abbrev pub head_is : (ℕ → Bool) → Text → Bool
head_is f [] = false
head_is f (c ∷ s) = f c

abbrev pub last_is : (ℕ → Bool) → Text → Bool
last_is f s = head_is f (reverse s)

module _ (f : ℕ → Bool) where
  trim_left-head : (s : Text) → head_is f (trim_left f s) ≡ false
  unfolding trim_left
  trim_left-head [] = refl
  trim_left-head (c ∷ s) = ground (arith, trim_left-head s)

  trim_left-fixed : (s : Text) → head_is f s ≡ false → trim_left f s ≡ s
  unfolding trim_left
  trim_left-fixed [] h = refl
  trim_left-fixed (c ∷ s) h = ground arith

  trim_left_rest : (s : Text) → (w : Text) × (s ≡ w ++ trim_left f s)
  unfolding trim_left
  trim_left_rest [] = ([], refl)
  trim_left_rest (c ∷ s) = let (w, e) = trim_left_rest s in go (f c) w e refl
    where
      go :
          (b : Bool) (w : Text)
          → s ≡ w ++ trim_left f s
          → f c ≡ b
          → (w : Text) × (c ∷ s ≡ w ++ trim_left f (c ∷ s))
      go true w e h = (c ∷ w, ground arith)
      go false w e h = ([], ground arith)

  trim_right_rest : (s : Text) → (w : Text) × (s ≡ trim_right f s ++ w)
  unfolding trim_right
  trim_right_rest s =
      let (w, e) = trim_left_rest (reverse s) in
      (
        reverse w,
        sym (reverse-reverse s) ∙ ap reverse e ∙ reverse-append w (trim_left f (reverse s)),
      )

  head_is-prefix : (p w : Text) → head_is f (p ++ w) ≡ false → head_is f p ≡ false
  head_is-prefix [] w h = refl
  head_is-prefix (c ∷ p) w h = h

  pub trim-head : (s : Text) → head_is f (trim f s) ≡ false
  unfolding trim
  trim-head s =
      let (w, e) = trim_right_rest (trim_left f s) in
      head_is-prefix (trim_right f (trim_left f s)) w
        (subst (λ t. head_is f t ≡ false) e (trim_left-head s))

  pub trim-last : (s : Text) → last_is f (trim f s) ≡ false
  unfolding trim
  trim-last s =
      subst (λ t. head_is f t ≡ false) (sym (reverse-reverse _))
        (trim_left-head (reverse (trim_left f s)))

  pub trim-fixed : (s : Text) → head_is f s ≡ false → last_is f s ≡ false → trim f s ≡ s
  unfolding trim
  trim-fixed s h k =
      ap (trim_right f) (trim_left-fixed s h)
      ∙ ap reverse (trim_left-fixed (reverse s) k)
      ∙ reverse-reverse s

all-append : (p : ℕ → Bool) (s t : Text) → all p (s ++ t) ≡ (all p s && all p t)
all-append p [] t = refl
all-append p (c ∷ s) t = ground (arith, all-append p s t)

pub all-reverse : (p : ℕ → Bool) (s : Text) → all p (reverse s) ≡ all p s
all-reverse p [] = refl
all-reverse p (c ∷ s) =
    ap (all p) (reverse-cons c s)
    ∙ all-append p (reverse s) (c ∷ [])
    ∙ ground (arith, all-reverse p s)
