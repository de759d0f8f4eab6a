-- ===== src/Effects/Rules.antt =====
-- Partial correctness of effectful code: what holds of every value that it returns.
use regstair.Base.{◌≡◌, refl, ap, subst, Bool, true, false, if◌then◌else◌}
use regstair.Errors.{Error, Result, ok, err}
use regstair.Effects.{Exec, pure, fail, attempt, continue, ◌>>=◌}

-- Whatever the state, a value that `m` returns satisfies `P`.
pub record Ensures {W A : Type 0} (P : A → Type 0) (m : Exec W A) : Type 0 where
  pub at : (w : W) (a : A) → (m w).0 ≡ ok a → P a

module _ {W A : Type 0} {P : A → Type 0} where
  pub Ensures-pure : (a : A) → P a → Ensures {W = W} P (pure a)
  unfolding pure
  Ensures-pure a p = record { at = λ w b h. let e : ok a ≡ ok b = h in subst P (cc) p }

  pub Ensures-fail : (e : Error) → Ensures {W = W} P (fail e)
  unfolding fail
  Ensures-fail e = record { at = λ w b h. absurd (cc) }

  pub Ensures-always : (m : Exec W A) → ((a : A) → P a) → Ensures P m
  Ensures-always m p = record { at = λ w a h. p a }

  pub Ensures-if :
      (b : Bool) (m n : Exec W A)
      → (b ≡ true → Ensures P m)
      → (b ≡ false → Ensures P n)
      → Ensures P (if b then m else n)
  Ensures-if true m n yes_case no_case = yes_case refl
  Ensures-if false m n yes_case no_case = no_case refl

module _ {W A B : Type 0} {P : B → Type 0} where
  continue-Ensures :
      (f : A → Exec W B) (r : Result A) (w : W) (b : B)
      → ((a : A) → r ≡ ok a → Ensures P (f a))
      → (continue f r w).0 ≡ ok b
      → P b
  continue-Ensures f (ok a) w b rest h = (rest a refl).at w b h
  continue-Ensures f (err e) w b rest h = absurd (cc)

  -- The rest of a block may use that the first step returned `a` in some state.
  pub Ensures-bind :
      (m : Exec W A) (f : A → Exec W B)
      → ((w : W) (a : A) → (m w).0 ≡ ok a → Ensures P (f a))
      → Ensures P (m >>= f)
  unfolding ◌>>=◌
  Ensures-bind m f rest = record {
    at = λ w b h. continue-Ensures f (m w).0 (m w).1 b (λ a e. rest w a e) h;
  }

  pub Ensures-bind_const :
      (m : Exec W A) (f : A → Exec W B) → ((a : A) → Ensures P (f a)) → Ensures P (m >>= f)
  Ensures-bind_const m f rest = Ensures-bind m f (λ w a e. rest a)

module _ {W A : Type 0} {P Q : A → Type 0} where
  pub Ensures-weaken : (m : Exec W A) → ((a : A) → P a → Q a) → Ensures P m → Ensures Q m
  Ensures-weaken m imp h = record { at = λ w a e. imp a (h.at w a e) }

module _ {W A B : Type 0} {P : B → Type 0} where
  -- Code that goes on in both cases has the result that the step gave in some state.
  pub Ensures-attempt :
      (m : Exec W A) (f : Result A → Exec W B)
      → ((w : W) (answer : Result A) → (m w).0 ≡ answer → Ensures P (f answer))
      → Ensures P (attempt m >>= f)
  unfolding ◌>>=◌
  Ensures-attempt m f rest = record { at = λ w b h. (rest w (m w).0 refl).at (m w).1 b h }

module _ {W A B : Type 0} where
  continue_ok :
      (f : A → Exec W B) (r : Result A) (w : W) (b : B)
      → (continue f r w).0 ≡ ok b
      → (a : A) × (r ≡ ok a) × ((f a w).0 ≡ ok b)
  continue_ok f (ok a) w b h = (a, refl, h)
  continue_ok f (err e) w b h = absurd (cc)

  -- A block that returns went on behind its first step, in the state that the step left.
  pub >>=_ok :
      (m : Exec W A) (f : A → Exec W B) (w : W) (b : B)
      → ((m >>= f) w).0 ≡ ok b
      → (a : A) × ((m w).0 ≡ ok a) × ((f a (m w).1).0 ≡ ok b)
  unfolding ◌>>=◌
  >>=_ok m f w b h = continue_ok f (m w).0 (m w).1 b h

  -- What a block does behind a first step that returns.
  pub >>=_run :
      (m : Exec W A) (f : A → Exec W B) (w : W) (a : A) → (m w).0 ≡ ok a → (m >>= f) w ≡ f a (m w).1
  unfolding ◌>>=◌
  >>=_run m f w a h = ap (λ r. continue f r (m w).1) h

  -- The same where the first step is only tried.
  pub attempt_ok :
      (m : Exec W A) (f : Result A → Exec W B) (w : W) (b : B)
      → ((attempt m >>= f) w).0 ≡ ok b
      → (f (m w).0 (m w).1).0 ≡ ok b
  unfolding ◌>>=◌
  attempt_ok m f w b h = h

module _ {W A : Type 0} where
  pub pure_ok : (a : A) (w : W) (b : A) → (pure a w).0 ≡ ok b → b ≡ a
  unfolding pure
  pure_ok a w b h = let e : ok a ≡ ok b = h in cc
