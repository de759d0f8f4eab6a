-- ===== src/Database/Mirror/Changes.antt =====
-- UpdateUser of internal/metadata/sqlite_repository.go next to that of
-- internal/metadata/repository.go.
use regstair.Base.{
  ◌≡◌, refl, ap, ◌&&◌, not, Bool, true, false, Option, none, List, [], ◌∷◌, ◌==◌, nat_eq, nat_beq,
  arith, any, In, inl, inr, if◌then◌else◌,
}
use regstair.Strings.{text_eq, contains, has_prefix}
use regstair.Errors.{wrap, lit, conflict, err}
use regstair.Effects.{Exec, pure, lift, ◌>>=◌}
use regstair.Metadata.Types.{Time, User}
use regstair.Metadata.Memory.{next_updated_at}
use regstair.Database.Tables.{
  Database, explained, checked, constrained, select, change, first_where, update_where, count_where,
  write_user, set_user,
}
use regstair.Database.Accounts as A
use regstair.Database.Accounts.{has_id, is_version}
use regstair.Database.Users as U
use regstair.Database.Mirror.Relation.{no_faults}

module _ {A : Type 0} (p : A → Bool) where
  pub any_none : (rows : List A) → ((w : A) → In w rows → p w ≡ false) → any p rows ≡ false
  any_none [] h = refl
  any_none (w ∷ rows) h = rw (h w (inl refl)) (any_none rows λ v there. h v (inr there))

  pub count_none : (rows : List A) → ((w : A) → In w rows → p w ≡ false) → count_where p rows ≡ 0
  unfolding count_where
  count_none [] h = refl
  count_none (w ∷ rows) h = rw (h w (inl refl)) (count_none rows λ v there. h v (inr there))

  pub update_none :
      (f : A → A) (rows : List A)
      → ((w : A) → In w rows → p w ≡ false)
      → update_where p f rows ≡ rows
  unfolding update_where
  update_none f [] h = refl
  update_none f (w ∷ rows) h =
      rw (h w (inl refl)) (ap (◌∷◌ w) (update_none f rows λ v there. h v (inr there)))

  pub any_one : (rows : List A) (row : A) → In row rows → p row ≡ true → any p rows ≡ true
  any_one [] row there hit = absurd there
  any_one (w ∷ rows) row (inl e) hit = ground (arith, ap p e, hit)
  any_one (w ∷ rows) row (inr there) hit = ground (arith, any_one rows row there hit)

  pub count_one :
      (rows : List A) (row : A)
      → In row rows
      → p row ≡ true
      → nat_beq (count_where p rows) 0 ≡ false
  unfolding count_where
  count_one [] row there hit = absurd there
  count_one (w ∷ rows) row (inl e) hit = ground (arith, ap p e, hit)
  count_one (w ∷ rows) row (inr there) hit = ground (arith, count_one rows row there hit)

module _ (now : Time) (user : User) (expected : Time) where
  abbrev pub at : Time
  at = next_updated_at now expected

  abbrev pub version : User → Bool
  version = is_version user.id expected

  abbrev pub written : User → User
  written = set_user (record user { updated_at = at })

  abbrev pub other_owner : User → Bool
  other_owner row = row.username == user.username && not (version row)

  -- What UpdateUser does behind its checks.
  unfoldable pub update_rows : Exec Database (Option User)
  update_rows = do
    changed ← select (record no_faults { read_error = none }) λ db. count_where version db.users
    _ ←
        U.or_conflict (lit "username already exists" ∷ []) (lit "update user" ∷ [])
          (write_user no_faults version (record user { updated_at = at }))
    current ← A.find_user_by_id no_faults none user.id
    if changed == 0 then U.not_changed user current else pure current

  module _ (db : Database) where
    abbrev pub behind_update : Database
    behind_update = record db { users = update_where version written db.users }

    pub update_refused :
        (any other_owner db.users && any version db.users) ≡ true
        → update_rows db ≡ (err (wrap conflict (lit "username already exists" ∷ [])), db)
    unfolding update_rows U.or_conflict ◌>>=◌ write_user constrained select checked U.write_failed
        U.is_unique_failure contains has_prefix
    update_refused clash =
        rw (update_rows, ◌>>=◌, U.or_conflict, write_user, constrained, clash) refl

    pub update_passed :
        (any other_owner db.users && any version db.users) ≡ false
        → update_rows db
          ≡ (if count_where version db.users == 0
                then U.not_changed user (first_where (has_id user.id) behind_update.users)
                else pure (first_where (has_id user.id) behind_update.users))
              behind_update
    unfolding update_rows U.or_conflict ◌>>=◌ write_user constrained select checked change
        A.find_user_by_id explained lift
    update_passed fresh =
        rw (update_rows, ◌>>=◌, U.or_conflict, write_user, constrained, fresh) refl
