-- ===== src/Database/Mirror/Insertion.antt =====
-- CreateUser of internal/metadata/sqlite_repository.go next to that of
-- internal/metadata/repository.go.
use regstair.Base.{
  ◌≡◌, refl, ap, sym, subst, ◌∙◌, ◌||◌, Bool, true, false, none, List, [], ◌∷◌, ◌++◌, nat_eq, arith,
  any, inl, inr, Bool-cases, Option-cases, if◌then◌else◌,
}
use regstair.Strings.{Text, text_eq, contains, has_prefix}
use regstair.Errors.{wrap, lit, conflict, Result, ok, err, ◌>>◌, Result-cases}
use regstair.Effects.{Exec, pure, ◌>>=◌}
use regstair.Maps
use regstair.Maps.{values, get-put}
use regstair.Metadata.Types.{Time, User}
use regstair.Metadata.Memory.{Repository, Context, check_context}
use regstair.Metadata.Users as M
use regstair.Metadata.UsersAgree.{UsersAgree, create_user-UsersAgree}
use regstair.Database.Tables.{Database, checked, constrained, change, user_clash, insert_user}
use regstair.Database.Accounts.{has_id, created}
use regstair.Database.Users as U
use regstair.Database.Mirror.Keyed.{put-IsKeyed, values-put_new}
use regstair.Database.Mirror.Relation.{
  Mirrors, Corresponds, Corresponds-subst, no_faults, lift_twice, any-first_where, is_some,
  after_checks, after_checks-Corresponds, has-get, user_key,
}
use regstair.Database.Mirror.Users.{owner_of, has_username, first_id, first_username}

module _ (db : Database) (r : Repository) (m : Mirrors db r) where
  any_or :
      (p q : User → Bool) (rows : List User)
      → any (λ w. p w || q w) rows ≡ (any p rows || any q rows)
  any_or p q [] = refl
  any_or p q (w ∷ rows) = ground (arith, any_or p q rows)

  -- The UNIQUE constraint refuses whom the maps have.
  clash-has :
      (user : User)
      → any (user_clash user) db.users
        ≡ (is_some (Maps.get r.users user.id) || is_some (owner_of r user.username))
  clash-has user =
      any_or (has_id user.id) (has_username user.username) db.users
      ∙ ap (λ b. b || any (has_username user.username) db.users)
          (any-first_where (has_id user.id) db.users ∙ ap is_some (first_id db r m user.id))
      ∙ ap (λ b. is_some (Maps.get r.users user.id) || b)
          (any-first_where (has_username user.username) db.users
            ∙ ap is_some (first_username db r m user.username))

  -- The insertion of a user whom the constraint does not refuse.
  inserted :
      (now : Time) (user : User)
      → any (user_clash (created now user)) db.users ≡ false
      → insert_user no_faults (created now user) db
        ≡ (ok tt, record db { users = db.users ++ created now user ∷ [] })
  unfolding insert_user constrained change checked
  inserted now user fresh = rw (insert_user, constrained, fresh) refl

  -- What CreateUser gives behind its checks.
  insertion : Time → User → Exec Database User
  insertion now user =
      U.or_conflict (lit "user id or username already exists" ∷ []) (lit "insert user" ∷ [])
        (insert_user no_faults (created now user))
      >>= λ a. pure (created now user)

  sql_refused :
      (now : Time) (user : User)
      → any (user_clash (created now user)) db.users ≡ true
      → insertion now user db
        ≡ (err (wrap conflict (lit "user id or username already exists" ∷ [])), db)
  unfolding insertion U.or_conflict ◌>>=◌ insert_user constrained U.write_failed U.is_unique_failure
      contains has_prefix
  sql_refused now user clash =
      rw (insertion, ◌>>=◌, U.or_conflict, insert_user, constrained, clash) refl

  sql_inserted :
      (now : Time) (user : User)
      → any (user_clash (created now user)) db.users ≡ false
      → insertion now user db
        ≡ (ok (created now user), record db { users = db.users ++ created now user ∷ [] })
  unfolding insertion U.or_conflict ◌>>=◌ pure
  sql_inserted now user fresh = rw (insertion, ◌>>=◌, U.or_conflict, inserted now user fresh) refl

  sql_create :
      (ctx : Context) (now : Time) (user : User)
      → U.create_user no_faults ctx now user db
        ≡ after_checks (check_context ctx >> M.validate_user user) db (insertion now user db)
  unfolding U.create_user insertion
  sql_create ctx now user = lift_twice (check_context ctx) (M.validate_user user) _ db

  -- The rest of the repository in memory behind the checks.
  memory_insertion : Time → User → Result User × Repository
  memory_insertion now user =
      if Maps.has r.users user.id
      then (err (M.id_taken user), r)
      else if Maps.has r.usernames user.username
      then (err (M.username_taken user), r)
      else M.store_user (created now user) r

  memory_create :
      (ctx : Context) (now : Time) (user : User)
      → M.create_user ctx now user r
        ≡ after_checks (check_context ctx >> M.validate_user user) r (memory_insertion now user)
  unfolding M.create_user memory_insertion
  memory_create ctx now user = elim (Result-cases (check_context ctx >> M.validate_user user)) [
    | inl (a, e) ↦ rw (M.create_user, e) refl
    | inr (f, e) ↦ rw (M.create_user, e) refl
  ]

  -- A username that is taken has an owner.
  has-owner : (name : Text) → Maps.has r.usernames name ≡ is_some (owner_of r name)
  has-owner name = has-get r.usernames name ∙ (elim (Option-cases (Maps.get r.usernames name)) [
    | inl e ↦ rw (owner_of, e) refl
    | inr (id, e) ↦ let (u, found, named) = m.agree.known name id e in rw (owner_of, e, found) refl
  ])

  taken :
      (user : User)
      → any (user_clash user) db.users
        ≡ (Maps.has r.users user.id || Maps.has r.usernames user.username)
  taken user =
      clash-has user ∙ ap (λ b. Maps.has r.users user.id || b) (sym (has-owner user.username))

  stored_Mirrors :
      (now : Time) (user : User)
      → Maps.get r.users user.id ≡ none
      → UsersAgree (M.store_user (created now user) r).1
      → Mirrors
          (record db { users = db.users ++ created now user ∷ [] })
          (M.store_user (created now user) r).1
  unfolding M.store_user
  stored_Mirrors now user missing agree = record {
    users =
        ap (λ rows. rows ++ created now user ∷ []) m.users
        ∙ sym (values-put_new user_key r.users user.id (created now user) missing);
    keyed = put-IsKeyed user_key r.users (created now user) m.keyed;
    agree = agree;
    events = m.events;
    last = m.last;
    tags = m.tags;
    tags_keyed = m.tags_keyed;
    tags_plain = m.tags_plain;
    provenance = m.provenance;
    bindings = m.bindings;
    bindings_keyed = m.bindings_keyed;
    bindings_plain = m.bindings_plain;
  }

  missing_id : (id : Text) → Maps.has r.users id ≡ false → Maps.get r.users id ≡ none
  missing_id id absent = elim (Option-cases (Maps.get r.users id)) [
    | inl e ↦ e
    | inr (u, e) ↦
        let clash : true ≡ false = ap is_some (sym e) ∙ sym (has-get r.users id) ∙ absent in
        absurd (cc)
  ]

  insertion-Corresponds :
      (now : Time) (user : User)
      → UsersAgree (memory_insertion now user).1
      → Corresponds (insertion now user db) (memory_insertion now user)
  unfolding memory_insertion M.store_user
  insertion-Corresponds now user agree = elim (Bool-cases (Maps.has r.users user.id)) [
    | inl e ↦
        Corresponds-subst {p' = (err (M.id_taken user), r)}
          (sql_refused now user (taken (created now user) ∙ ground (arith, e)))
          (rw (memory_insertion, e) refl) (refl, m)
    | inr e ↦ elim (Bool-cases (Maps.has r.usernames user.username)) [
      | inl f ↦
          Corresponds-subst {p' = (err (M.username_taken user), r)}
            (sql_refused now user (taken (created now user) ∙ ground (arith, e, f)))
            (rw (memory_insertion, e, f) refl) (refl, m)
      | inr f ↦
          let here : memory_insertion now user ≡ M.store_user (created now user) r =
            rw (memory_insertion, e, f) refl in
          Corresponds-subst
            (sql_inserted now user (taken (created now user) ∙ ground (arith, e, f))) here
            (
              refl,
              stored_Mirrors now user (missing_id user.id e)
                  (subst (λ o. UsersAgree o.1) here agree),
            )
    ]
  ]

  pub create_user-Corresponds :
      (ctx : Context) (now : Time) (user : User)
      → Corresponds (U.create_user no_faults ctx now user db) (M.create_user ctx now user r)
  create_user-Corresponds ctx now user =
      let same = memory_create ctx now user in
      Corresponds-subst (sql_create ctx now user) same (
        after_checks-Corresponds (check_context ctx >> M.validate_user user) db r _ _ m λ valid.
          insertion-Corresponds now user (
            subst (λ o. UsersAgree o.1)
              (same ∙ ap (λ checks. after_checks checks r (memory_insertion now user)) valid)
              (create_user-UsersAgree ctx now user r m.agree)))
