-- ===== src/Database/Rows.antt =====
-- Changes of a table of internal/metadata/sqlite_security.go whose rows have a
-- revocation time.
use regstair.Base.{
  ◌≡◌, refl, ap, ◌∙◌, Bool, true, Option, some, List, [], ◌∷◌, ◌++◌, ◌==◌, arith, if◌then◌else◌,
  Bool-cases, inl, inr, not,
}
use regstair.Strings.{Text, text_eq}
use regstair.Registry.Types.{Bytes}
use regstair.Metadata.Types.{Time, is_zero}
use regstair.Database.Tables.{first_where, update_where}

module _ {A : Type 0} where
  pub first_where-append :
      (p : A → Bool) (rows more : List A) (row : A)
      → first_where p rows ≡ some row
      → first_where p (rows ++ more) ≡ some row
  unfolding first_where
  first_where-append p [] more row h = absurd (cc)
  first_where-append p (r ∷ rows) more row h = ground (arith, first_where-append p rows more row)

  -- Rows that an update finds or not as before.
  pub first_where-update :
      (p q : A → Bool) (f : A → A) (rows : List A) (row : A)
      → ((r : A) → p (f r) ≡ p r)
      → first_where p rows ≡ some row
      → first_where p (update_where q f rows) ≡ some (if q row then f row else row)
  unfolding first_where update_where
  first_where-update p q f [] row same h = absurd (cc)
  first_where-update p q f (r ∷ rows) row same h =
      ground (arith, same r, first_where-update p q f rows row same)

-- A table whose rows have a key, an owner and a revocation time.
module _ {A : Type 0} (key : A → Bytes) (owner : A → Text) (revoked_at : A → Time) where
  -- The row that a search by key finds.
  abbrev pub row_of : List A → Bytes → Option A
  row_of rows hash = first_where (λ row. key row == hash) rows

  abbrev pub is_revoked : A → Bool
  is_revoked row = not (is_zero (revoked_at row))

  -- Every key finds a row of the same owner as before, revoked if it was.
  pub record RowsGrow (rows rows' : List A) : Type 0 where
    pub found :
        (hash : Bytes) (row : A)
        → row_of rows hash ≡ some row
        → (row' : A) × (row_of rows' hash ≡ some row')
          × (owner row' ≡ owner row)
          × (is_revoked row ≡ true → is_revoked row' ≡ true)

  pub same_rows : (rows rows' : List A) → rows' ≡ rows → RowsGrow rows rows'
  same_rows rows rows' same = record {
    found = λ hash row h. (row, ap (λ list. row_of list hash) same ∙ h, refl, λ r. r);
  }

  pub RowsGrow-trans :
      (rows rows' rows'' : List A)
      → RowsGrow rows rows'
      → RowsGrow rows' rows''
      → RowsGrow rows rows''
  RowsGrow-trans rows rows' rows'' first second = record {
    found = λ hash row h.
        let (row', h', same, still) = first.found hash row h in
        let (row'', h'', same', still') = second.found hash row' h' in
        (row'', h'', same' ∙ same, λ r. still' (still r));
  }

  pub RowsGrow-append : (rows more : List A) → RowsGrow rows (rows ++ more)
  RowsGrow-append rows more = record {
    found =
        λ hash row h. (row, first_where-append (λ r. key r == hash) rows more row h, refl, λ r. r);
  }

  pub RowsGrow-update :
      (q : A → Bool) (f : A → A) (rows : List A)
      → ((row : A) → key (f row) ≡ key row)
      → ((row : A) → owner (f row) ≡ owner row)
      → ((row : A) → is_revoked row ≡ true → is_revoked (f row) ≡ true)
      → RowsGrow rows (update_where q f rows)
  RowsGrow-update q f rows same_key same_owner still = record {
    found = λ hash row h.
        let found =
          first_where-update (λ r. key r == hash) q f rows row
            (λ r. ap (λ k. k == hash) (same_key r)) h in
        elim (Bool-cases (q row)) [
          | inl e ↦ (f row, found ∙ rw e refl, same_owner row, still row)
          | inr e ↦ (row, found ∙ rw e refl, refl, λ r. r)
        ];
  }
