-- ===== src/Database/Mirror/Users.antt =====
-- CreateUser, UpdateUser and the searches for users of internal/metadata/sqlite_repository.go next to
-- those of internal/metadata/repository.go.
use regstair.Base.{
  ◌≡◌, refl, ap, sym, subst, ◌∙◌, Bool, true, Option, none, some, ◌==◌, nat_eq, In, inl, inr,
  Bool-cases, Option-cases,
}
use regstair.Strings.{Text, text_eq, text_beq, text_beq_iff}
use regstair.Sorting.{sort}
use regstair.Errors.{ok}
use regstair.Effects.{lift, ◌>>=◌}
use regstair.Maps
use regstair.Maps.{values, get-put}
use regstair.Metadata.Types.{User}
use regstair.Metadata.Memory.{Repository, Context}
use regstair.Metadata.Users as M
use regstair.Database.Tables.{Database, explained, checked, select, first_where}
use regstair.Database.Accounts as A
use regstair.Database.Accounts.{has_id, is_version, created}
use regstair.Database.Mirror.Keyed.{first_where-values, In-get}
use regstair.Database.Mirror.Relation.{
  Mirrors, Agree, Agree-same, no_faults, first_where_only, first_where_missing, user_key,
}

-- Who has a username.
abbrev pub owner_of : Repository → Text → Option User
owner_of r name = elim (Maps.get r.usernames name) [ none ↦ none | some id ↦ Maps.get r.users id ]

abbrev pub has_username : Text → User → Bool
has_username name row = row.username == name

module _ (db : Database) (r : Repository) (m : Mirrors db r) where
  pub first_id : (id : Text) → first_where (has_id id) db.users ≡ Maps.get r.users id
  first_id id =
      ap (first_where (has_id id)) m.users ∙ first_where-values user_key r.users id m.keyed

  -- A row with a username is the owner of the username.
  pub row_owner :
      (name : Text) (row : User)
      → In row (values r.users)
      → text_beq row.username name ≡ true
      → Maps.get r.usernames name ≡ some row.id
  row_owner name row there named =
      subst (λ n. Maps.get r.usernames n ≡ some row.id) ((text_beq_iff row.username name).0 named)
        (m.agree.owned row.id row (In-get user_key r.users row m.keyed there))

  first_username_known :
      (name : Text) (id : Text)
      → Maps.get r.usernames name ≡ some id
      → first_where (has_username name) (values r.users) ≡ Maps.get r.users id
  first_username_known name id known =
      let (u, found, named) = m.agree.known name id known in
      first_where_only (has_username name) (values r.users) u (Maps.get-In r.users id u found)
        ((text_beq_iff u.username name).1 named)
        (λ w there hit.
          let same : some w.id ≡ some id = sym (row_owner name w there hit) ∙ known in
          let stored = In-get user_key r.users w m.keyed there in
          let both : some w ≡ some u = sym stored ∙ ap (Maps.get r.users) (cc) ∙ found in cc)
      ∙ sym found

  first_username_missing :
      (name : Text)
      → Maps.get r.usernames name ≡ none
      → first_where (has_username name) (values r.users) ≡ none
  first_username_missing name missing =
      first_where_missing (has_username name) (values r.users) λ w there.
        elim (Bool-cases (text_beq w.username name)) [
          | inr e ↦ e
          | inl e ↦
              let clash : none ≡ some w.id = sym missing ∙ row_owner name w there e in absurd (cc)
        ]

  pub owned_user :
      (name id : Text) → Maps.get r.usernames name ≡ some id → owner_of r name ≡ Maps.get r.users id
  owned_user name id e = rw (owner_of, e) refl

  unowned_user : (name : Text) → Maps.get r.usernames name ≡ none → owner_of r name ≡ none
  unowned_user name e = rw (owner_of, e) refl

  pub first_username : (name : Text) → first_where (has_username name) db.users ≡ owner_of r name
  first_username name =
      ap (first_where (has_username name)) m.users
      ∙ (elim (Option-cases (Maps.get r.usernames name)) [
        | inl e ↦ first_username_missing name e ∙ sym (unowned_user name e)
        | inr (id, e) ↦ first_username_known name id e ∙ sym (owned_user name id e)
      ])

  -- The searches.
  pub find_user_by_id-Agree :
      (ctx : Context) (id : Text)
      → Agree (A.find_user_by_id no_faults ctx id db).0 (M.find_user_by_id ctx id r).0
  unfolding A.find_user_by_id M.find_user_by_id ◌>>=◌ lift explained select checked
  find_user_by_id-Agree none id = first_id id
  find_user_by_id-Agree (some e) id = refl

  owner_found : (name : Text) → (M.find_user_by_username none name r).0 ≡ ok (owner_of r name)
  unfolding M.find_user_by_username
  owner_found name = elim (Option-cases (Maps.get r.usernames name)) [
    | inl e ↦ rw (M.find_user_by_username, owner_of, e) refl
    | inr (id, e) ↦
        let (u, found, named) = m.agree.known name id e in
        rw (M.find_user_by_username, owner_of, e, found) refl
  ]

  row_found :
      (name : Text)
      → (A.find_user_by_username no_faults none name db).0
        ≡ ok (first_where (has_username name) db.users)
  unfolding A.find_user_by_username ◌>>=◌ lift explained select checked
  row_found name = refl

  pub find_user_by_username-Agree :
      (ctx : Context) (name : Text)
      → Agree
          (A.find_user_by_username no_faults ctx name db).0
          (M.find_user_by_username ctx name r).0
  unfolding A.find_user_by_username M.find_user_by_username ◌>>=◌ lift
  find_user_by_username-Agree (some e) name = refl
  find_user_by_username-Agree none name =
      Agree-same _ _ (row_found name ∙ ap ok (first_username name) ∙ sym (owner_found name))

  pub list_users-Agree : Agree (A.list_users no_faults db).0 (M.list_users none r).0
  unfolding A.list_users M.list_users explained select checked
  list_users-Agree = ap (sort M.by_username) m.users
