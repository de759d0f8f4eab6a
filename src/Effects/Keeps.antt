-- ===== src/Effects/Keeps.antt =====
-- What effectful code does to the state: the state behind it is related to the state before it,
-- whenever it returns a value.
use regstair.Base.{◌≡◌, refl, subst, Bool, true, false, Option, none, some, if◌then◌else◌}
use regstair.Errors.{Error, Result, ok, err}
use regstair.Effects.{Exec, pure, fail, lift, refuse, when, if_found, continue, ◌>>=◌}

pub record IsPreorder {W : Type 0} (R : W → W → Type 0) : Type 0 where
  pub reflexive : (w : W) → R w w
  pub transitive : (u v w : W) → R u v → R v w → R u w

-- Where `m` returns, the state behind it is related to the one before it.
pub record Keeps {W A : Type 0} (R : W → W → Type 0) (m : Exec W A) : Type 0 where
  pub at : (w : W) (a : A) → (m w).0 ≡ ok a → R w (m w).1

-- The same where `m` fails, too.
pub record KeepsAlways {W A : Type 0} (R : W → W → Type 0) (m : Exec W A) : Type 0 where
  pub at : (w : W) → R w (m w).1

module _ {W : Type 0} {R : W → W → Type 0} (order : IsPreorder R) where
  pub Keeps-pure : {A : Type 0} → (a : A) → Keeps R (pure a)
  unfolding pure
  Keeps-pure a = record { at = λ w b h. order.reflexive w }

  pub Keeps-fail : {A : Type 0} → (e : Error) → Keeps {A = A} R (fail e)
  unfolding fail
  Keeps-fail e = record { at = λ w b h. order.reflexive w }

  pub Keeps-lift : {A : Type 0} → (r : Result A) → Keeps R (lift r)
  unfolding lift
  Keeps-lift r = record { at = λ w b h. order.reflexive w }

  pub Keeps-bind :
      {A B : Type 0}
      → (m : Exec W A) (f : A → Exec W B) → Keeps R m
      → ((w : W) (a : A) → (m w).0 ≡ ok a → Keeps R (f a))
      → Keeps R (m >>= f)
  unfolding ◌>>=◌
  Keeps-bind {A} {B} m f first rest = record { at = λ w b h. go w (m w).0 (m w).1 refl refl b h }
    where
      go :
          (w : W) (r : Result A) (v : W)
          → (m w).0 ≡ r
          → (m w).1 ≡ v
          → (b : B) → (continue f r v).0 ≡ ok b
          → R w (continue f r v).1
      go w (err e) v e1 e2 b h = absurd (cc)
      go w (ok a) v e1 e2 b h =
          order.transitive w v (f a v).1 (subst (R w) e2 (first.at w a e1)) ((rest w a e1).at v b h)

  pub Keeps-refuse : (bad : Bool) (e : Error) → Keeps R (refuse bad e)
  unfolding refuse
  Keeps-refuse true e = Keeps-fail e
  Keeps-refuse false e = Keeps-pure tt

  pub Keeps-when : (cond : Bool) (m : Exec W (Unit {0})) → Keeps R m → Keeps R (when cond m)
  unfolding when
  Keeps-when true m kept = kept
  Keeps-when false m kept = Keeps-pure tt

  pub Keeps-if_found :
      {A B : Type 0}
      → (found : Option A) (f : A → Exec W (Option B)) → ((a : A) → Keeps R (f a))
      → Keeps R (if_found found f)
  unfolding if_found
  Keeps-if_found none f kept = Keeps-pure none
  Keeps-if_found (some a) f kept = kept a

  -- The rest of a block does not depend on what the first step returned.
  pub Keeps-then :
      {A B : Type 0}
      → (m : Exec W A) (f : A → Exec W B) → Keeps R m
      → ((a : A) → Keeps R (f a))
      → Keeps R (m >>= f)
  Keeps-then m f first rest = Keeps-bind m f first (λ w a h. rest a)

  pub KeepsAlways-pure : {A : Type 0} → (a : A) → KeepsAlways R (pure a)
  unfolding pure
  KeepsAlways-pure a = record { at = λ w. order.reflexive w }

  pub KeepsAlways-lift : {A : Type 0} → (r : Result A) → KeepsAlways R (lift r)
  unfolding lift
  KeepsAlways-lift r = record { at = λ w. order.reflexive w }

  pub KeepsAlways-refuse : (bad : Bool) (e : Error) → KeepsAlways R (refuse bad e)
  unfolding refuse
  KeepsAlways-refuse true e = record { at = λ w. order.reflexive w }
  KeepsAlways-refuse false e = record { at = λ w. order.reflexive w }

  pub KeepsAlways-then :
      {A B : Type 0}
      → (m : Exec W A) (f : A → Exec W B) → KeepsAlways R m
      → ((a : A) → KeepsAlways R (f a))
      → KeepsAlways R (m >>= f)
  unfolding ◌>>=◌
  KeepsAlways-then {A} {B} m f first rest = record { at = λ w. go w (m w).0 (m w).1 refl }
    where
      go : (w : W) (r : Result A) (v : W) → (m w).1 ≡ v → R w (continue f r v).1
      go w (err e) v same = subst (R w) same (first.at w)
      go w (ok a) v same =
          order.transitive w v (f a v).1 (subst (R w) same (first.at w)) ((rest a).at v)

module _ {W A : Type 0} {R : W → W → Type 0} where
  pub Keeps-if :
      (b : Bool) (m n : Exec W A)
      → (b ≡ true → Keeps R m)
      → (b ≡ false → Keeps R n)
      → Keeps R (if b then m else n)
  Keeps-if true m n yes_case no_case = yes_case refl
  Keeps-if false m n yes_case no_case = no_case refl

-- Where `m` returns, the value and the state behind it have a property.
pub record Leaves {W A : Type 0} (P : A → W → Type 0) (m : Exec W A) : Type 0 where
  pub at : (w : W) (a : A) → (m w).0 ≡ ok a → P a (m w).1

module _ {W : Type 0} (P : W → Type 0) where
  -- To keep a property is to keep this relation.
  abbrev pub Stays : W → W → Type 0
  Stays u v = P u → P v

  pub stays_order : IsPreorder Stays
  stays_order = record { reflexive = λ w p. p; transitive = λ u v w f g p. g (f p) }

module _ {W A : Type 0} (P : A → W → Type 0) where
  pub Leaves-pure : (a : A) → ((w : W) → P a w) → Leaves P (pure a)
  unfolding pure
  Leaves-pure a p = record {
    at = λ w b h. let e : ok a ≡ ok b = h in subst (λ c. P c w) (cc) (p w);
  }

module _ {W A B : Type 0} (P : B → W → Type 0) where
  go_on :
      (f : A → Exec W B) (r : Result A) (v : W) (b : B)
      → (continue f r v).0 ≡ ok b
      → ((a : A) → r ≡ ok a → (f a v).0 ≡ ok b → P b (f a v).1)
      → P b (continue f r v).1
  go_on f (ok a) v b h rest = rest a refl h
  go_on f (err e) v b h rest = absurd (cc)

  -- The rest of a block may use that the first step returned `a` in some state.
  pub Leaves-bind :
      (m : Exec W A) (f : A → Exec W B)
      → ((w : W) (a : A) → (m w).0 ≡ ok a → Leaves P (f a))
      → Leaves P (m >>= f)
  unfolding ◌>>=◌
  Leaves-bind m f rest = record {
    at = λ w b h. go_on f (m w).0 (m w).1 b h (λ a e k. (rest w a e).at (m w).1 b k);
  }

  -- The rest of a block leaves the property, whatever was before it.
  pub Leaves-rest :
      (m : Exec W A) (f : A → Exec W B) → ((a : A) → Leaves P (f a)) → Leaves P (m >>= f)
  Leaves-rest m f rest = Leaves-bind m f (λ w a e. rest a)

module _ {W A B : Type 0} (P : W → Type 0) where
  -- The first step leaves a property of the state, and the rest of the block keeps it.
  pub Leaves-first :
      (m : Exec W A) (f : A → Exec W B)
      → Leaves (λ a w. P w) m
      → ((a : A) → Keeps (Stays P) (f a))
      → Leaves (λ b w. P w) (m >>= f)
  unfolding ◌>>=◌
  Leaves-first m f first rest = record {
    at = λ w b h.
        go_on (λ c v. P v) f (m w).0 (m w).1 b h
          (λ a e k. (rest a).at (m w).1 b k (first.at w a e));
  }
