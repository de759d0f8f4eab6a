-- ===== src/Database/Counting.antt =====
-- How many rows of a table meet a condition, behind an INSERT and behind an UPDATE of one row.
use regstair.Base.{ℕ, ◌+◌, ◌≤◌, ◌≡◌, refl, Bool, true, false, some, List, [], ◌∷◌, ◌++◌, arith, any}
use regstair.Database.Tables.{first_where, update_where, count_where}

abbrev pub bit : Bool → ℕ
bit true = 1
bit false = 0

module _ {A : Type 0} where
  pub count-append :
      (p : A → Bool) (rows : List A) (row : A)
      → count_where p (rows ++ row ∷ []) ≡ count_where p rows + bit (p row)
  unfolding count_where
  count-append p [] row = ground arith
  count-append p (r ∷ rows) row = ground (arith, count-append p rows row)

  -- No row meets a condition that implies one that none meets.
  pub count-none :
      (p q : A → Bool) (rows : List A)
      → ((r : A) → p r ≡ true → q r ≡ true)
      → any q rows ≡ false
      → count_where p rows ≡ 0
  unfolding count_where
  count-none p q [] imp h = refl
  count-none p q (r ∷ rows) imp h = ground (arith, imp r, count-none p q rows imp)

  pub count-le :
      (p q : A → Bool) (rows : List A)
      → ((r : A) → p r ≡ true → q r ≡ true)
      → count_where p rows ≤ count_where q rows
  unfolding count_where
  count-le p q [] imp = omega arith
  count-le p q (r ∷ rows) imp = ground (arith, imp r, count-le p q rows imp)

  pub count-first :
      (p q : A → Bool) (rows : List A) (row : A)
      → first_where q rows ≡ some row
      → p row ≡ true
      → 1 ≤ count_where p rows
  unfolding count_where first_where
  count-first p q [] row h k = absurd (cc)
  count-first p q (r ∷ rows) row h k = ground (arith, count-first p q rows row)

  -- An update that keeps what the condition is about.
  pub count-update :
      (c p : A → Bool) (f : A → A) (rows : List A)
      → ((r : A) → c (f r) ≡ c r)
      → count_where c (update_where p f rows) ≡ count_where c rows
  unfolding count_where update_where
  count-update c p f [] same = refl
  count-update c p f (r ∷ rows) same = ground (arith, same r, count-update c p f rows same)

  count-update_none :
      (c p : A → Bool) (f : A → A) (rows : List A)
      → count_where p rows ≡ 0
      → count_where c (update_where p f rows) ≡ count_where c rows
  unfolding count_where update_where
  count-update_none c p f [] h = refl
  count-update_none c p f (r ∷ rows) h = ground (arith, count-update_none c p f rows)

  -- An update of exactly one row, which a search finds.
  pub count-update_one :
      (c p q : A → Bool) (f : A → A) (v : Bool) (rows : List A) (row : A)
      → ((r : A) → c (f r) ≡ v)
      → first_where q rows ≡ some row
      → p row ≡ true
      → count_where p rows ≡ 1
      → count_where c (update_where p f rows) + bit (c row) ≡ count_where c rows + bit v
  unfolding count_where update_where first_where
  count-update_one c p q f v [] row all h k one = absurd (cc)
  count-update_one c p q f v (r ∷ rows) row all h k one = ground (
    arith,
    all r,
    count-first p q rows row,
    count-update_none c p f rows,
    count-update_one c p q f v rows row all,
  )
