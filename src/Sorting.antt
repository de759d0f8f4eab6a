-- ===== src/Sorting.antt =====
-- sort.SliceStable and sort.Slice: insertion by a `less` test, which keeps the order of elements
-- that neither test puts first. Every stable sort is this function.
use mathlib.Core.List.{Perm}
use mathlib.Core.List.Perm
use regstair.Base.{
  ◌≡◌, refl, ◌∙◌, ◌⊎◌, inl, inr, Bool, true, false, List, [], ◌∷◌, arith, if◌then◌else◌, Bool-cases,
  In, All, filter, length, ◌+◌,
}

module _ {A : Type 0} (less : A → A → Bool) where
  unfoldable pub insert : A → List A → List A
  insert x [] = x ∷ []
  insert x (y ∷ ys) = let later = y ∷ insert x ys in if less y x then later else x ∷ y ∷ ys

  unfoldable pub sort : List A → List A
  unfolding insert
  sort [] = []
  sort (x ∷ xs) = insert x (sort xs)

  -- No element stands behind one that it should precede.
  abbrev pub Sorted : List A → Type 0
  Sorted [] = Unit {0}
  Sorted (x ∷ xs) = All (λ y. less y x ≡ false) xs × Sorted xs

  insert-perm : (x : A) (xs : List A) → Perm (insert x xs) (x ∷ xs)
  unfolding insert
  insert-perm x [] = Perm.refl (x ∷ [])
  insert-perm x (y ∷ ys) = elim (Bool-cases (less y x)) [
    | inl e ↦ rw e (Perm.trans (Perm.cons y (insert-perm x ys)) (Perm.swap x y ys))
    | inr e ↦ rw e (Perm.refl (x ∷ y ∷ ys))
  ]

  pub sort-perm : (xs : List A) → Perm (sort xs) xs
  unfolding sort
  sort-perm [] = Perm.refl []
  sort-perm (x ∷ xs) = Perm.trans (insert-perm x (sort xs)) (Perm.cons x (sort-perm xs))

  insert-In : (a x : A) (xs : List A) → In a (insert x xs) → (a ≡ x) ⊎ In a xs
  unfolding insert
  insert-In a x [] m = m
  insert-In a x (y ∷ ys) m = ground (arith, insert-In a x ys)

  In-insert : (a x : A) (xs : List A) → (a ≡ x) ⊎ In a xs → In a (insert x xs)
  unfolding insert
  In-insert a x [] m = m
  In-insert a x (y ∷ ys) m = ground (arith, In-insert a x ys)

  insert-All : (P : A → Type 0) (x : A) (xs : List A) → P x → All P xs → All P (insert x xs)
  unfolding insert
  insert-All P x [] p h = (p, tt)
  insert-All P x (y ∷ ys) p h = elim (Bool-cases (less y x)) [
    | inl e ↦ rw e (h.0, insert-All P x ys p h.1)
    | inr e ↦ rw e (p, h)
  ]

  pub sort-In : (a : A) (xs : List A) → In a (sort xs) → In a xs
  unfolding sort
  sort-In a [] m = m
  sort-In a (x ∷ xs) m = ground (arith, insert-In a x (sort xs) m, sort-In a xs)

  pub In-sort : (a : A) (xs : List A) → In a xs → In a (sort xs)
  unfolding sort
  In-sort a [] m = m
  In-sort a (x ∷ xs) (inl e) = In-insert a x (sort xs) (inl e)
  In-sort a (x ∷ xs) (inr m) = In-insert a x (sort xs) (inr (In-sort a xs m))

  length-insert : (x : A) (xs : List A) → length (insert x xs) ≡ length xs + 1
  unfolding insert
  length-insert x [] = omega arith
  length-insert x (y ∷ ys) = ground (arith, length-insert x ys)

  pub length-sort : (xs : List A) → length (sort xs) ≡ length xs
  unfolding sort
  length-sort [] = refl
  length-sort (x ∷ xs) = omega (arith, length-insert x (sort xs), length-sort xs)

  length-filter-insert :
      (p : A → Bool) (x : A) (xs : List A)
      → length (filter p (insert x xs)) ≡ length (filter p (x ∷ xs))
  unfolding insert filter
  length-filter-insert p x [] = refl
  length-filter-insert p x (y ∷ ys) = ground (arith, length-filter-insert p x ys)

  pub length-filter-sort :
      (p : A → Bool) (xs : List A) → length (filter p (sort xs)) ≡ length (filter p xs)
  unfolding sort filter
  length-filter-sort p [] = refl
  length-filter-sort p (x ∷ xs) =
      length-filter-insert p x (sort xs) ∙ ground (arith, length-filter-sort p xs)

  -- Elements that `less` does not separate keep their order: the test `p` picks such a class.
  insert-filter :
      (p : A → Bool) (x : A) (xs : List A)
      → ((y : A) → p x ≡ true → p y ≡ true → less y x ≡ false)
      → filter p (insert x xs) ≡ filter p (x ∷ xs)
  unfolding insert filter
  insert-filter p x [] tied = refl
  insert-filter p x (y ∷ ys) tied = ground (arith, tied y, insert-filter p x ys tied)

  pub filter-sort :
      (p : A → Bool) (xs : List A)
      → ((x y : A) → p x ≡ true → p y ≡ true → less y x ≡ false)
      → filter p (sort xs) ≡ filter p xs
  unfolding sort filter
  filter-sort p [] tied = refl
  filter-sort p (x ∷ xs) tied =
      insert-filter p x (sort xs) (tied x) ∙ ground (arith, filter-sort p xs tied)

  -- `less` is a strict order whose ties are an equivalence.
  pub record IsStrictWeak : Type 0 where
    pub asym : (x y : A) → less x y ≡ true → less y x ≡ false
    pub ties : (x y z : A) → less x z ≡ true → (less x y ≡ true) ⊎ (less y z ≡ true)

  All-behind :
      IsStrictWeak
      → (x y : A) (zs : List A) → less y x ≡ false
      → All (λ z. less z y ≡ false) zs
      → All (λ z. less z x ≡ false) zs
  All-behind w x y [] e k = tt
  All-behind w x y (z ∷ zs) e k = (ground (arith, w.ties z y x), All-behind w x y zs e k.1)

  insert-Sorted : IsStrictWeak → (x : A) (xs : List A) → Sorted xs → Sorted (insert x xs)
  unfolding insert
  insert-Sorted w x [] h = (tt, tt)
  insert-Sorted w x (y ∷ ys) h = elim (Bool-cases (less y x)) [
    | inl e ↦ rw e (insert-All _ x ys (w.asym y x e) h.0, insert-Sorted w x ys h.1)
    | inr e ↦ rw e ((e, All-behind w x y ys e h.0), h)
  ]

  pub sort-Sorted : IsStrictWeak → (xs : List A) → Sorted (sort xs)
  unfolding sort
  sort-Sorted w [] = tt
  sort-Sorted w (x ∷ xs) = insert-Sorted w x (sort xs) (sort-Sorted w xs)
