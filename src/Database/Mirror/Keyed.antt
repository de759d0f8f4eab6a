-- ===== src/Database/Mirror/Keyed.antt =====
-- A map whose entries stand under the key of their value, and the table of its values.
use regstair.Base.{
  ◌≡◌, refl, ap, sym, ◌∙◌, Bool, true, false, none, some, [], ◌∷◌, ◌++◌, ◌==◌, arith, Bool-cases,
  inl, inr, In,
}
use regstair.Strings.{Text, text_eq, text_beq, text_beq_iff}
use regstair.Maps.{Map, get, put, values, get-put}
use regstair.Database.Tables.{first_where, update_where}

module _ {A : Type 0} (key : A → Text) where
  -- No key occurs twice.
  abbrev pub IsKeyed : Map Text A → Type 0
  IsKeyed [] = Unit {0}
  IsKeyed ((k, v) ∷ m) = (k ≡ key v) × (get m k ≡ none) × IsKeyed m

  abbrev pub has_key : Text → A → Bool
  has_key k row = key row == k

  -- A search of the table is a search of the map.
  pub first_where-values :
      (m : Map Text A) (k : Text) → IsKeyed m → first_where (has_key k) (values m) ≡ get m k
  unfolding first_where values get
  first_where-values [] k h = refl
  first_where-values ((j, v) ∷ m) k (own, fresh, h) =
      rw (sym own) (ground (arith, first_where-values m k h))

  -- What is among the values stands under its key.
  pub In-get : (m : Map Text A) (v : A) → IsKeyed m → In v (values m) → get m (key v) ≡ some v
  unfolding values get
  In-get [] v h there = absurd there
  In-get ((j, w) ∷ m) v (own, fresh, h) (inl e) =
      let same : j ≡ key v = own ∙ ap key (sym e) in ground (arith, text_beq_iff j (key v), same, e)
  In-get ((j, w) ∷ m) v (own, fresh, h) (inr there) =
      let found = In-get m v h there in
      elim (Bool-cases (text_beq j (key v))) [
        | inr e ↦ rw (e) found
        | inl e ↦
            let same = (text_beq_iff j (key v)).0 e in
            let clash : none ≡ some v = sym fresh ∙ ap (get m) same ∙ found in absurd (cc)
      ]

  pub put-IsKeyed : (m : Map Text A) (v : A) → IsKeyed m → IsKeyed (put m (key v) v)
  unfolding put get
  put-IsKeyed [] v h = (refl, refl, tt)
  put-IsKeyed ((j, w) ∷ m) v (own, fresh, h) = elim (Bool-cases (text_beq j (key v))) [
    | inl e ↦ rw (e) ((text_beq_iff j (key v)).0 e, fresh, h)
    | inr e ↦ rw (e) (
      own,
      ground
          (arith, get-put m (key v) j v, text_beq_iff j (key v), text_beq_iff (key v) j, fresh, e),
      put-IsKeyed m v h,
    )
  ]

  -- A new value stands behind the others.
  pub values-put_new :
      (m : Map Text A) (k : Text) (v : A) → get m k ≡ none → values (put m k v) ≡ values m ++ v ∷ []
  unfolding values put get
  values-put_new [] k v h = refl
  values-put_new ((j, w) ∷ m) k v h = ground (arith, values-put_new m k v)

  module _ (f : A → A) (p : A → Bool) (k : Text) (only : (w : A) → p w ≡ true → key w ≡ k) where
    update_where-none :
        (m : Map Text A) → IsKeyed m → get m k ≡ none → update_where p f (values m) ≡ values m
    unfolding values get update_where
    update_where-none [] h missing = refl
    update_where-none ((j, w) ∷ m) (own, fresh, h) missing =
        ground (arith, update_where-none m h, only w, own, text_beq_iff j k, missing)

    -- A value that replaces another stands in its place.
    pub values-put_old :
        (m : Map Text A) (old : A)
        → IsKeyed m
        → get m k ≡ some old
        → p old ≡ true
        → values (put m k (f old)) ≡ update_where p f (values m)
    unfolding values put get update_where
    values-put_old [] old h there hit = absurd (cc)
    values-put_old ((j, w) ∷ m) old (own, fresh, h) there hit = elim (Bool-cases (text_beq j k)) [
      | inl e ↦
          let same : w ≡ old = ground (arith, there, e) in
          let here : p w ≡ true = ap p same ∙ hit in
          let missing : get m k ≡ none = ap (get m) (sym ((text_beq_iff j k).0 e)) ∙ fresh in
          rw (e, here, update_where-none m h missing) (ap (λ x. f x ∷ values m) (sym same))
      | inr e ↦
          let other : p w ≡ false = ground (arith, only w, own, text_beq_iff j k, e) in
          let later : get m k ≡ some old = ground (arith, there, e) in
          rw (e, other) (ap (◌∷◌ w) (values-put_old m old h later hit))
    ]
