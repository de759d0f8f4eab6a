-- ===== src/Database/Users.antt =====
-- CreateUser and UpdateUser of internal/metadata/sqlite_repository.go, which write without an audit
-- event. `now` is what r.now() gives.
use regstair.Base.{Bool, false, Option, none, some, [], ◌∷◌, ◌==◌, nat_eq, any, if◌then◌else◌}
use regstair.Strings.{Text, text_eq, codes, contains}
use regstair.Errors.{Error, ok, err, Message, Part, lit, plain, quoted, wrap, prefixed, conflict}
use regstair.Effects.{Exec, pure, fail, lift, ◌>>=◌, ◌>>◌}
use regstair.Metadata.Types.{Time, User}
use regstair.Metadata.Memory.{Context, check_context, next_updated_at}
use regstair.Metadata.Users.{validate_user, modified}
use regstair.Database.Tables.{Database, Faults, select, count_where, insert_user, write_user}
use regstair.Database.Accounts.{is_version, created, find_user_by_id}

-- A part of a message that has a text in it.
abbrev part_contains : Text → Part → Bool
part_contains t (lit s) = contains (codes s) t
part_contains t (plain s) = contains s t
part_contains t (quoted s) = contains s t
part_contains t _ = false

-- strings.Contains(err.Error(), "UNIQUE constraint failed")
unfoldable pub is_unique_failure : Error → Bool
is_unique_failure e = any (part_contains (codes "UNIQUE constraint failed")) e.message

-- The error of a write: a conflict where a UNIQUE constraint refused it.
unfoldable pub write_failed : Message → Message → Error → Error
write_failed taken label e = if is_unique_failure e then wrap conflict taken else prefixed label e

-- A write whose error is told apart so.
unfoldable pub or_conflict : Message → Message → Exec Database (Unit {0}) → Exec Database (Unit {0})
or_conflict taken label m db =
    let (r, db') = m db in (elim r [ ok a ↦ ok a | err e ↦ err (write_failed taken label e) ], db')

unfoldable pub create_user : Faults → Context → Time → User → Exec Database User
create_user faults ctx now user = do
  lift (check_context ctx)
  lift (validate_user user)
  or_conflict (lit "user id or username already exists" ∷ []) (lit "insert user" ∷ [])
      (insert_user faults (created now user))
  pure (created now user)

-- if current == nil { return nil, nil }, else the user was modified
unfoldable pub not_changed : User → Option User → Exec Database (Option User)
not_changed user none = pure none
not_changed user (some current) = fail (modified user)

unfoldable pub update_user : Faults → Context → Time → User → Time → Exec Database (Option User)
update_user faults ctx now user expected_updated_at = do
  lift (check_context ctx)
  lift (validate_user user)
  let at = next_updated_at now expected_updated_at
  changed ←
      select (record faults { read_error = none })
        λ db. count_where (is_version user.id expected_updated_at) db.users
  or_conflict (lit "username already exists" ∷ []) (lit "update user" ∷ [])
      (write_user faults (is_version user.id expected_updated_at) (record user { updated_at = at }))
  current ← find_user_by_id faults ctx user.id
  if changed == 0 then not_changed user current else pure current
