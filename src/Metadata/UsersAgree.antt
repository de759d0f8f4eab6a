-- ===== src/Metadata/UsersAgree.antt =====
-- The two tables of users say the same, whatever is done.
use regstair.Base.{
  ◌≡◌, refl, inl, inr, true, false, Option, none, some, [], ◌∷◌, arith, Bool-cases, Option-cases,
  nat_beq, length,
}
use regstair.Strings.{Text, text_eq, text_beq, text_beq_iff}
use regstair.Errors.{◌>>◌, Result-cases}
use regstair.Maps
use regstair.Maps.{Map, get-put, get-delete}
use regstair.Metadata.Types.{Time, User}
use regstair.Metadata.Memory.{Repository, Context, check_context, new_repository}
use regstair.Metadata.Users.{
  validate_user, store_user, create_user, bootstrap_admin, replace_user, owned_by_other,
  update_found, update_user,
}

-- A user is stored under the own id, and the usernames are the inverse of the users' names.
pub record UsersAgree (r : Repository) : Type 0 where
  pub keyed : (id : Text) (u : User) → Maps.get r.users id ≡ some u → u.id ≡ id
  pub owned :
      (id : Text) (u : User)
      → Maps.get r.users id ≡ some u
      → Maps.get r.usernames u.username ≡ some id
  pub known :
      (name id : Text)
      → Maps.get r.usernames name ≡ some id
      → (u : User) × (Maps.get r.users id ≡ some u) × (u.username ≡ name)

module _ (user : User) (r : Repository)
    (keyed : (id : Text) (u : User) → Maps.get r.users id ≡ some u → u.id ≡ id)
    (owned : (id : Text) (u : User)
      → Maps.get r.users id ≡ some u
      → text_beq user.id id ≡ false
      → Maps.get r.usernames u.username ≡ some id)
    (known : (name id : Text)
      → Maps.get r.usernames name ≡ some id
      → (text_beq user.id id ≡ false)
        × ((u : User) × (Maps.get r.users id ≡ some u) × (u.username ≡ name)))
    (fresh : Maps.get r.usernames user.username ≡ none) where
  store_user-UsersAgree : UsersAgree (store_user user r).1
  unfolding store_user
  store_user-UsersAgree = record {
    keyed = λ id u h.
        ground (arith, get-put r.users user.id id user, text_beq_iff user.id id, keyed id u);
    owned = λ id u h. elim (Bool-cases (text_beq user.id id)) [
      | inl e ↦ ground (
        arith,
        get-put r.users user.id id user,
        text_beq_iff user.id id,
        get-put r.usernames user.username user.username user.id,
        text_beq_iff user.username user.username,
      )
      | inr e ↦ ground (
        arith,
        get-put r.users user.id id user,
        owned id u,
        get-put r.usernames user.username u.username user.id,
        text_beq_iff user.username u.username,
        fresh,
      )
    ];
    known = λ name id h. elim (Bool-cases (text_beq user.username name)) [
      | inl e ↦ (
        user,
        ground (
          arith,
          get-put r.usernames user.username name user.id,
          get-put r.users user.id id user,
          text_beq_iff user.id id,
        ),
        (text_beq_iff user.username name).0 e,
      )
      | inr e ↦
          let (other, (u, found, named)) =
            known name id (ground (arith, h, get-put r.usernames user.username name user.id)) in
          (u, ground (arith, found, other, get-put r.users user.id id user), named)
    ];
  }

absent : {A : Type 0} (m : Map Text A) (k : Text) → Maps.has m k ≡ false → Maps.get m k ≡ none
absent m k h = ground (arith, h)

none_in :
    {A : Type 0} (m : Map Text A) → nat_beq (length m) 0 ≡ true → (k : Text) → Maps.get m k ≡ none
unfolding Maps.get
none_in [] e k = refl
none_in (x ∷ m) e k = absurd (ground arith)

pub new_repository-UsersAgree : UsersAgree new_repository
unfolding Maps.get
new_repository-UsersAgree = record {
  keyed = λ id u h. absurd (cc);
  owned = λ id u h. absurd (cc);
  known = λ name id h. absurd (cc);
}

module _ (ctx : Context) (now : Time) (user : User) (r : Repository) (agree : UsersAgree r) where
  taken_id :
      Maps.get r.users user.id ≡ none
      → (name id : Text) → Maps.get r.usernames name ≡ some id
      → (text_beq user.id id ≡ false)
        × ((u : User) × (Maps.get r.users id ≡ some u) × (u.username ≡ name))
  taken_id none_there name id h =
      let (u, found, named) = agree.known name id h in
      (ground (arith, text_beq_iff user.id id, found, none_there), (u, found, named))

  created :
      (u : User)
      → u.id ≡ user.id
      → u.username ≡ user.username
      → Maps.get r.users user.id ≡ none
      → Maps.get r.usernames user.username ≡ none
      → UsersAgree (store_user u r).1
  created u same_id same_name none_there free =
      store_user-UsersAgree u r agree.keyed (λ id v h other. agree.owned id v h)
        (λ name id h. rw same_id (taken_id none_there name id h)) (rw same_name free)

  -- CreateUser keeps the two tables in agreement, whether it succeeds or not.
  pub create_user-UsersAgree : UsersAgree (create_user ctx now user r).1
  unfolding create_user
  create_user-UsersAgree = elim (Result-cases (check_context ctx >> validate_user user)) [
    | inr (e, refused) ↦ rw (refused, create_user) agree
    | inl (_, passed) ↦
        rw (passed, create_user)
          (elim (Bool-cases (Maps.has r.users user.id)) [
            | inl e ↦ rw e agree
            | inr e ↦ rw e (elim (Bool-cases (Maps.has r.usernames user.username)) [
              | inl f ↦ rw f agree
              | inr f ↦ rw f (
                  created (record user { created_at = now; updated_at = now }) refl refl
                    (absent r.users user.id e) (absent r.usernames user.username f))
            ])
          ])
  ]

  no_name :
      ((id : Text) → Maps.get r.users id ≡ none) → (name : Text) → Maps.get r.usernames name ≡ none
  no_name empty name = settle (Maps.get r.usernames name) refl
    where
      settle : (o : Option Text) → Maps.get r.usernames name ≡ o → Maps.get r.usernames name ≡ none
      settle none e = e
      settle (some id) e =
          let (u, found, named) = agree.known name id e in absurd (ground (arith, found, empty id))

  -- So does BootstrapAdmin.
  pub bootstrap_admin-UsersAgree : UsersAgree (bootstrap_admin ctx now user r).1
  unfolding bootstrap_admin
  bootstrap_admin-UsersAgree = elim (Result-cases (check_context ctx >> validate_user user)) [
    | inr (e, refused) ↦ rw (refused, bootstrap_admin) agree
    | inl (_, passed) ↦
        rw (passed, bootstrap_admin)
          (elim (Bool-cases (nat_beq (length r.users) 0)) [
            | inr e ↦ rw e agree
            | inl e ↦ rw e (
                created (record user { created_at = now; updated_at = now }) refl refl
                  (none_in r.users e user.id) (no_name (none_in r.users e) user.username))
          ])
  ]

  -- Behind the deletion of the old name, the new one is free.
  freed :
      (current : User)
      → Maps.get r.users user.id ≡ some current
      → owned_by_other r user ≡ false
      → Maps.get (Maps.delete r.usernames current.username) user.username ≡ none
  freed current here mine = settle (Maps.get r.usernames user.username) refl
    where
      settle :
          (o : Option Text)
          → Maps.get r.usernames user.username ≡ o
          → Maps.get (Maps.delete r.usernames current.username) user.username ≡ none
      settle none e = ground (arith, get-delete r.usernames current.username user.username, e)
      settle (some owner) e =
          let (u, found, named) = agree.known user.username owner e in
          ground (
            arith,
            get-delete r.usernames current.username user.username,
            e,
            found,
            named,
            mine,
            here,
            text_beq_iff owner user.id,
            text_beq_iff current.username user.username,
          )

  kept :
      (current : User)
      → Maps.get r.users user.id ≡ some current
      → (name id : Text) → Maps.get (Maps.delete r.usernames current.username) name ≡ some id
      → (text_beq user.id id ≡ false)
        × ((u : User) × (Maps.get r.users id ≡ some u) × (u.username ≡ name))
  kept current here name id h =
      let deleted = get-delete r.usernames current.username name in
      let (u, found, named) = agree.known name id (ground (arith, deleted, h)) in
      (
        ground (
          arith,
          deleted,
          h,
          found,
          named,
          here,
          text_beq_iff user.id id,
          text_beq_iff current.username name,
        ),
        (u, found, named),
      )

  replaced :
      (current : User)
      → Maps.get r.users user.id ≡ some current
      → owned_by_other r user ≡ false
      → UsersAgree (replace_user now current user r).1
  unfolding replace_user
  replaced current here mine =
      store_user-UsersAgree _ _ agree.keyed
        (λ id v h other. ground (
          arith,
          agree.owned id v h,
          get-delete r.usernames current.username v.username,
          text_beq_iff current.username v.username,
          agree.owned user.id current here,
          other,
          text_beq_iff user.id id,
        ))
        (kept current here) (freed current here mine)

  updated :
      (current : User)
      → Maps.get r.users user.id ≡ some current
      → (expected : Time) → UsersAgree (update_found now user expected current r).1
  unfolding update_found
  updated current here expected = elim (Bool-cases (nat_beq current.updated_at expected)) [
    | inr stale ↦ rw stale agree
    | inl fresh ↦ rw fresh (elim (Bool-cases (owned_by_other r user)) [
      | inl taken ↦ rw taken agree
      | inr mine ↦ rw mine (replaced current here mine)
    ])
  ]

  -- UpdateUser too, which moves the username.
  pub update_user-UsersAgree :
      (expected : Time) → UsersAgree (update_user ctx now user expected r).1
  unfolding update_user
  update_user-UsersAgree expected = elim (Result-cases (check_context ctx >> validate_user user)) [
    | inr (e, refused) ↦ rw (refused, update_user) agree
    | inl (_, passed) ↦
        rw (passed, update_user)
          (elim (Option-cases (Maps.get r.users user.id)) [
            | inl missing ↦ rw missing agree
            | inr (current, here) ↦ rw here (updated current here expected)
          ])
  ]
