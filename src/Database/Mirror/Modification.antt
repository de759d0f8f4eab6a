-- ===== src/Database/Mirror/Modification.antt =====
-- UpdateUser of internal/metadata/sqlite_repository.go next to that of
-- internal/metadata/repository.go, with its checks.
use regstair.Base.{
  ◌≡◌, refl, ap, subst, ◌∙◌, true, false, none, some, nat_eq, nat_beq, inl, inr, Bool-cases,
  Option-cases,
}
use regstair.Strings.{text_eq}
use regstair.Errors.{Error, err, ◌>>◌, Result-cases}
use regstair.Effects.{lift, ◌>>=◌}
use regstair.Maps
use regstair.Maps.{values, get-put}
use regstair.Metadata.Types.{Time, User}
use regstair.Metadata.Memory.{Repository, Context, check_context}
use regstair.Metadata.Users as M
use regstair.Metadata.UsersAgree.{UsersAgree, update_user-UsersAgree}
use regstair.Database.Tables.{Database}
use regstair.Database.Users as U
use regstair.Database.Mirror.Relation.{
  Mirrors, Corresponds, Corresponds-subst, no_faults, lift_twice, after_checks,
  after_checks-Corresponds,
}
use regstair.Database.Mirror.Changes.{update_rows}
use regstair.Database.Mirror.Update.{memory_update, update_missing, update_modified}
use regstair.Database.Mirror.Renewal.{update_conflict, update_renewed}

module _ (db : Database) (r : Repository) (m : Mirrors db r) where
  -- What the update leaves of the users when it succeeds.
  renewed_same :
      (now : Time) (user : User) (expected : Time) (current : User)
      → Maps.get r.users user.id ≡ some current
      → nat_beq current.updated_at expected ≡ true
      → M.owned_by_other r user ≡ false
      → (memory_update now user expected r).1 ≡ (M.replace_user now current user r).1
  unfolding memory_update M.update_found
  renewed_same now user expected current here fits free =
      rw (memory_update, here, M.update_found, fits, free) refl

  update-Corresponds :
      (now : Time) (user : User) (expected : Time)
      → UsersAgree (memory_update now user expected r).1
      → Corresponds (update_rows now user expected db) (memory_update now user expected r)
  update-Corresponds now user expected agree = elim (Option-cases (Maps.get r.users user.id)) [
    | inl e ↦ update_missing now user expected db r m e
    | inr (current, e) ↦ elim (Bool-cases (nat_beq current.updated_at expected)) [
      | inr f ↦ update_modified now user expected db r m current e f
      | inl f ↦ elim (Bool-cases (M.owned_by_other r user)) [
        | inl g ↦ update_conflict now user expected db r m current e f g
        | inr g ↦
            update_renewed now user expected db r m current e f g
              (subst UsersAgree (renewed_same now user expected current e f g) agree)
      ]
    ]
  ]

  sql_update :
      (now : Time) (user : User) (expected : Time)
      → U.update_user no_faults none now user expected db
        ≡ after_checks
            (check_context none >> M.validate_user user)
            db
            (update_rows now user expected db)
  unfolding U.update_user update_rows
  sql_update now user expected = lift_twice (check_context none) (M.validate_user user) _ db

  sql_done :
      (e : Error) (now : Time) (user : User) (expected : Time)
      → U.update_user no_faults (some e) now user expected db ≡ (err e, db)
  unfolding U.update_user ◌>>=◌ lift
  sql_done e now user expected = refl

  memory_checked :
      (ctx : Context) (now : Time) (user : User) (expected : Time)
      → M.update_user ctx now user expected r
        ≡ after_checks
            (check_context ctx >> M.validate_user user)
            r
            (memory_update now user expected r)
  unfolding M.update_user memory_update
  memory_checked ctx now user expected =
      elim (Result-cases (check_context ctx >> M.validate_user user)) [
        | inl (a, e) ↦ rw (M.update_user, e) refl
        | inr (f, e) ↦ rw (M.update_user, e) refl
      ]

  pub update_user-Corresponds :
      (ctx : Context) (now : Time) (user : User) (expected : Time)
      → Corresponds
          (U.update_user no_faults ctx now user expected db)
          (M.update_user ctx now user expected r)
  update_user-Corresponds (some e) now user expected =
      Corresponds-subst {p' = (err e, r)} (sql_done e now user expected)
        (memory_checked (some e) now user expected) (refl, m)
  update_user-Corresponds none now user expected =
      let same = memory_checked none now user expected in
      Corresponds-subst (sql_update now user expected) same (
        after_checks-Corresponds (check_context none >> M.validate_user user) db r _ _ m λ valid.
          update-Corresponds now user expected (
            subst (λ o. UsersAgree o.1)
              (same
                ∙ ap (λ checks. after_checks checks r (memory_update now user expected r)) valid)
              (update_user-UsersAgree none now user r m.agree expected)))
