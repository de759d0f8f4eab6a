-- ===== src/Metadata/UserLaws.antt =====
-- What holds of the users of every MemoryRepository, and of an update.
use regstair.Base.{
  ◌≡◌, refl, sym, ap, ◌∙◌, inl, inr, true, false, Option, none, some, arith, nat_beq, ltb,
  Bool-cases, Option-cases,
}
use regstair.Strings.{Text, text_eq}
use regstair.Errors.{ok, err, ◌>>◌, Result-cases}
use regstair.Maps
use regstair.Maps.{get-put, get-put_self}
use regstair.Metadata.Types.{Time, User}
use regstair.Metadata.Memory.{Repository, check_context, next_updated_at}
use regstair.Metadata.Users.{
  modified, validate_user, store_user, replace_user, owned_by_other, update_found, update_user,
  find_user_by_id, find_user_by_username,
}
use regstair.Metadata.Events.{record_request_event, validate_request_event}
use regstair.Metadata.Tags.{
  record_provenance, validate_provenance_record, record_tag_mapping, validate_tag_mapping,
}
use regstair.Metadata.Bindings.{record_cache_bindings, validate_cache_bindings}
use regstair.Metadata.Steps.{
  Step, creates_user, bootstraps, updates_user, records_event, records_provenance, records_tag,
  records_bindings, Reachable, Reachable-invariant,
}
use regstair.Metadata.UsersAgree.{
  UsersAgree, new_repository-UsersAgree, create_user-UsersAgree, bootstrap_admin-UsersAgree,
  update_user-UsersAgree,
}

-- The agreement depends on nothing but the two tables.
same_users :
    (r r' : Repository)
    → r'.users ≡ r.users
    → r'.usernames ≡ r.usernames
    → UsersAgree r
    → UsersAgree r'
same_users r r' e f agree = record {
  keyed = λ id u h. agree.keyed id u (rw e at h);
  owned = λ id u h. rw f (agree.owned id u (rw e at h));
  known = λ name id h. rw e (agree.known name id (rw f at h));
}

Step-UsersAgree : (r r' : Repository) → UsersAgree r → Step r r' → UsersAgree r'
unfolding record_request_event record_provenance record_tag_mapping record_cache_bindings
Step-UsersAgree r _ agree (creates_user ctx now user) = create_user-UsersAgree ctx now user r agree
Step-UsersAgree r _ agree (bootstraps ctx now user) =
    bootstrap_admin-UsersAgree ctx now user r agree
Step-UsersAgree r _ agree (updates_user ctx now user expected) =
    update_user-UsersAgree ctx now user r agree expected
Step-UsersAgree r _ agree (records_event ctx now event) =
    elim (Result-cases (check_context ctx >> validate_request_event event)) [
      | inr (e, refused) ↦ rw (refused, record_request_event) agree
      | inl (_, passed) ↦ rw (passed, record_request_event) (same_users r _ refl refl agree)
    ]
Step-UsersAgree r _ agree (records_provenance ctx now p) =
    elim (Result-cases (check_context ctx >> validate_provenance_record p)) [
      | inr (e, refused) ↦ rw (refused, record_provenance) agree
      | inl (_, passed) ↦ rw (passed, record_provenance) (same_users r _ refl refl agree)
    ]
Step-UsersAgree r _ agree (records_tag ctx now mapping) =
    elim (Result-cases (check_context ctx >> validate_tag_mapping mapping)) [
      | inr (e, refused) ↦ rw (refused, record_tag_mapping) agree
      | inl (_, passed) ↦ rw (passed, record_tag_mapping) (same_users r _ refl refl agree)
    ]
Step-UsersAgree r _ agree (records_bindings ctx now bindings) =
    elim (Result-cases (check_context ctx >> validate_cache_bindings bindings)) [
      | inr (e, refused) ↦ rw (refused, record_cache_bindings) agree
      | inl (_, passed) ↦ rw (passed, record_cache_bindings) (same_users r _ refl refl agree)
    ]

pub Reachable-UsersAgree : (r : Repository) → Reachable r → UsersAgree r
Reachable-UsersAgree = Reachable-invariant UsersAgree new_repository-UsersAgree Step-UsersAgree

-- In a repository made by any sequence of calls, whoever is found by a username has that username,
-- and is found by the own id as well.
pub find_user_by_username_found :
    (r : Repository) (name : Text) (u : User)
    → Reachable r
    → (find_user_by_username none name r).0 ≡ ok (some u)
    → (u.username ≡ name) × ((find_user_by_id none u.id r).0 ≡ ok (some u))
unfolding find_user_by_username find_user_by_id
find_user_by_username_found r name u reached h = settle (Maps.get r.usernames name) refl
  where
    agree : UsersAgree r
    agree = Reachable-UsersAgree r reached

    settle :
        (o : Option Text)
        → Maps.get r.usernames name ≡ o
        → (u.username ≡ name) × (ok (Maps.get r.users u.id) ≡ ok (some u))
    settle none e = absurd (ground (arith, h, e))
    settle (some id) e =
        let (v, found, named) = agree.known name id e in
        let same : v ≡ u = ground (arith, h, e, found) in
        let here : Maps.get r.users id ≡ some u = found ∙ ap some same in
        (
          ap (λ x. x.username) (sym same) ∙ named,
          ap ok (ap (λ k. Maps.get r.users k) (agree.keyed id u here) ∙ here),
        )

pub next_updated_at_later : (now current : Time) → ltb current (next_updated_at now current) ≡ true
unfolding next_updated_at
next_updated_at_later now current = ground arith

update_user_here :
    (now : Time) (user : User) (expected : Time) (current : User) (r : Repository)
    → validate_user user ≡ ok tt
    → Maps.get r.users user.id ≡ some current
    → update_user none now user expected r ≡ update_found now user expected current r
unfolding update_user
update_user_here now user expected current r passed here = rw (passed, here, update_user) refl

-- An update that succeeds has found a user of the expected time, and stores one of a later time.
module _ (now : Time) (user : User) (expected : Time) (current : User) (r : Repository) where
  abbrev stored : User
  stored = record user {
    created_at = current.created_at;
    updated_at = next_updated_at now current.updated_at;
  }

  update_found_result :
      nat_beq current.updated_at expected ≡ true
      → owned_by_other r user ≡ false
      → ((update_found now user expected current r).0 ≡ ok (some stored))
        × (Maps.get (update_found now user expected current r).1.users user.id ≡ some stored)
  unfolding update_found replace_user store_user
  update_found_result fresh mine =
      (rw (fresh, mine) refl, rw (fresh, mine) (get-put_self r.users user.id stored))

  update_found_stored :
      (u : User)
      → (update_found now user expected current r).0 ≡ ok (some u)
      → (nat_beq current.updated_at expected ≡ true)
        × (u ≡ stored)
        × (Maps.get (update_found now user expected current r).1.users user.id ≡ some stored)
  unfolding update_found
  update_found_stored u updated = elim (Bool-cases (nat_beq current.updated_at expected)) [
    | inr stale ↦ absurd (ground (arith, updated, stale))
    | inl fresh ↦ elim (Bool-cases (owned_by_other r user)) [
      | inl taken ↦ absurd (ground (arith, updated, fresh, taken))
      | inr mine ↦
          let (answer, here) = update_found_result fresh mine in
          let both : ok (some stored) ≡ ok (some u) = sym answer ∙ updated in
          (fresh, ground (arith, both), here)
    ]
  ]

update_found_stale :
    (now : Time) (user : User) (expected : Time) (current : User) (r : Repository)
    → nat_beq current.updated_at expected ≡ false
    → (update_found now user expected current r).0 ≡ err (modified user)
unfolding update_found
update_found_stale now user expected current r stale = rw (stale, update_found) refl

update_user_found :
    (now : Time) (user : User) (expected : Time) (r : Repository) (u : User)
    → (update_user none now user expected r).0 ≡ ok (some u)
    → (validate_user user ≡ ok tt) × ((current : User) × (Maps.get r.users user.id ≡ some current))
unfolding update_user
update_user_found now user expected r u h = elim (Result-cases (validate_user user)) [
  | inr (e, refused) ↦ absurd (ground (arith, h, refused))
  | inl (_, passed) ↦ elim (Option-cases (Maps.get r.users user.id)) [
    | inl missing ↦ absurd (ground (arith, h, passed, missing))
    | inr (current, here) ↦ (passed, (current, here))
  ]
]

-- Behind an update of a user that succeeds, a valid update of the same user that expects the same
-- time is refused with a conflict, whatever the clock says: it does not overwrite the first.
pub update_user_once :
    (now : Time) (user : User) (expected : Time) (r : Repository) (u : User)
    → (update_user none now user expected r).0 ≡ ok (some u)
    → (now' : Time) (user' : User) → validate_user user' ≡ ok tt
    → user'.id ≡ user.id
    → (update_user none now' user' expected (update_user none now user expected r).1).0
      ≡ err (modified user')
update_user_once now user expected r u h now' user' valid same =
    let (passed, (current, here)) = update_user_found now user expected r u h in
    let same_update = update_user_here now user expected current r passed here in
    let (fresh, answer, there) =
      update_found_stored now user expected current r u (rw same_update at h) in
    let found = stored now user expected current r in
    let next_here : Maps.get (update_user none now user expected r).1.users user'.id ≡ some found =
      rw (same_update, same) there in
    let later = next_updated_at_later now current.updated_at in
    rw
      (update_user_here now' user' expected found (update_user none now user expected r).1 valid
        next_here)
      (update_found_stale now' user' expected found _ (ground (arith, fresh, later)))
