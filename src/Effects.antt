-- ===== src/Effects.antt =====
-- Go code with effects: a function of the state of the world that returns a value or an error, and
-- the state after it. What was done before an error stays done.
pub mod Rules
pub mod Keeps
use regstair.Base.{◌≡◌, refl, Bool, true, false, Option, none, some, if◌then◌else◌}
use regstair.Errors.{Error, Result, ok, err}

abbrev pub Exec : Type 0 → Type 0 → Type 0
Exec W A = W → Result A × W

module _ {W A : Type 0} where
  unfoldable pub pure : A → Exec W A
  pure a w = (ok a, w)

  unfoldable pub fail : Error → Exec W A
  fail e w = (err e, w)

  -- A call that has no effect.
  unfoldable pub lift : Result A → Exec W A
  lift r w = (r, w)

  -- value, err := m, where the code goes on in both cases
  unfoldable pub attempt : Exec W A → Exec W (Result A)
  attempt m w = let (r, w') = m w in (ok r, w')

module _ {W : Type 0} where
  -- if bad { return err }
  unfoldable pub refuse : Bool → Error → Exec W (Unit {0})
  unfolding pure fail
  refuse bad e = if bad then fail e else pure tt

  -- if cond { … }
  unfoldable pub when : Bool → Exec W (Unit {0}) → Exec W (Unit {0})
  unfolding pure
  when cond m = if cond then m else pure tt

module _ {W A B : Type 0} where
  abbrev pub continue : (A → Exec W B) → Result A → Exec W B
  continue f (err e) w = (err e, w)
  continue f (ok a) w = f a w

  infixl 10 ◌>>=◌ ◌>>◌
  unfoldable pub ◌>>=◌ : Exec W A → (A → Exec W B) → Exec W B
  unfolding pure fail lift attempt
  ◌>>=◌ m f w = let (r, w') = m w in continue f r w'

  -- if found == nil { return nil, nil }
  unfoldable pub if_found : Option A → (A → Exec W (Option B)) → Exec W (Option B)
  unfolding pure
  if_found none f = pure none
  if_found (some a) f = f a

  abbrev pub ◌>>◌ : Exec W A → Exec W B → Exec W B
  m >> k = m >>= λ _. k
