-- ===== src/Metadata/Users.antt =====
-- The users of MemoryRepository.
use regstair.Base.{
  ◌&&◌, ◌||◌, Bool, false, nat_eq, not, Option, none, some, List, [], ◌∷◌, ◌==◌, length,
  if◌then◌else◌,
}
use regstair.Strings.{Text, text_eq, text_ltb, trim_space}
use regstair.Errors.{
  Error, Result, ok, err, ◌>>◌, refuse_if, wrap, lit, quoted, invalid_record, conflict,
}
use regstair.Maps
use regstair.Sorting.{sort}
use regstair.Metadata.Types.{Time, User, access_user, access_admin}
use regstair.Metadata.Memory.{Repository, Context, check_context, next_updated_at}
use regstair.Effects.{Exec}

unfoldable pub validate_user : User → Result (Unit {0})
validate_user user =
    refuse_if (trim_space user.id == []) (wrap invalid_record (lit "user id is required" ∷ []))
    >> refuse_if (user.username == [] || not (user.username == trim_space user.username)) (
        wrap invalid_record
          (lit "username is required and cannot have surrounding whitespace" ∷ []))
    >> refuse_if (user.password_hash == [])
        (wrap invalid_record (lit "password hash is required" ∷ []))
    >> refuse_if (not (user.access == access_user) && not (user.access == access_admin))
        (wrap invalid_record (lit "unsupported user access " ∷ quoted user.access ∷ []))

-- The user is stored under the id, and the id under the username.
unfoldable pub store_user : User → Exec Repository User
store_user user r = (
  ok user,
  record r {
    users = Maps.put r.users user.id user;
    usernames = Maps.put r.usernames user.username user.id;
  },
)

abbrev pub id_taken : User → Error
id_taken user = wrap conflict (lit "user id " ∷ quoted user.id ∷ [])

abbrev pub username_taken : User → Error
username_taken user = wrap conflict (lit "username " ∷ quoted user.username ∷ [])

abbrev pub modified : User → Error
modified user = wrap conflict (lit "user " ∷ quoted user.id ∷ lit " was modified" ∷ [])

unfoldable pub create_user : Context → Time → User → Exec Repository User
create_user ctx now user r = elim (check_context ctx >> validate_user user) [
  | err e ↦ (err e, r)
  | ok _ ↦
      if Maps.has r.users user.id
      then (err (id_taken user), r)
      else if Maps.has r.usernames user.username
      then (err (username_taken user), r)
      else store_user (record user { created_at = now; updated_at = now }) r
]

-- Only the first user is made this way.
unfoldable pub bootstrap_admin : Context → Time → User → Exec Repository User
bootstrap_admin ctx now user r = elim (check_context ctx >> validate_user user) [
  | err e ↦ (err e, r)
  | ok _ ↦
      if not (length r.users == 0)
      then (err (wrap conflict (lit "administrator bootstrap has already completed" ∷ [])), r)
      else store_user (record user { created_at = now; updated_at = now }) r
]

unfoldable pub find_user_by_id : Context → Text → Exec Repository (Option User)
find_user_by_id ctx id r = elim (check_context ctx) [
  | err e ↦ (err e, r)
  | ok _ ↦ (ok (Maps.get r.users id), r)
]

-- r.users[id] of a missing id is the zero user.
abbrev pub zero_user : User
zero_user = record {
  id = [];
  username = [];
  password_hash = [];
  display_name = [];
  email = [];
  access = [];
  enabled = false;
  created_at = 0;
  updated_at = 0;
}

unfoldable pub find_user_by_username : Context → Text → Exec Repository (Option User)
find_user_by_username ctx username r = elim (check_context ctx) [
  | err e ↦ (err e, r)
  | ok _ ↦ elim (Maps.get r.usernames username) [
    | none ↦ (ok none, r)
    | some id ↦ elim (Maps.get r.users id) [
      | none ↦ (ok (some zero_user), r)
      | some user ↦ (ok (some user), r)
    ]
  ]
]

abbrev pub by_username : User → User → Bool
by_username a b = text_ltb a.username b.username

unfoldable pub list_users : Context → Exec Repository (List User)
list_users ctx r = elim (check_context ctx) [
  | err e ↦ (err e, r)
  | ok _ ↦ (ok (sort by_username (Maps.values r.users)), r)
]

-- owner, exists := r.usernames[username]; exists && owner != id
abbrev pub owned_by_other : Repository → User → Bool
owned_by_other r user = elim (Maps.get r.usernames user.username) [
  | none ↦ false
  | some owner ↦ not (owner == user.id)
]

-- The username moves with the user.
unfoldable pub replace_user : Time → User → User → Exec Repository User
replace_user now current user r =
    store_user
      (record user {
        created_at = current.created_at;
        updated_at = next_updated_at now current.updated_at;
      })
      (record r { usernames = Maps.delete r.usernames current.username })

-- The update of the user that is there.
unfoldable pub update_found : Time → User → Time → User → Exec Repository (Option User)
update_found now user expected_updated_at current r =
    if not (current.updated_at == expected_updated_at)
    then (err (modified user), r)
    else if owned_by_other r user
    then (err (username_taken user), r)
    else let (stored, r') = replace_user now current user r in
      (elim stored [ err e ↦ err e | ok u ↦ ok (some u) ], r')

unfoldable pub update_user : Context → Time → User → Time → Exec Repository (Option User)
update_user ctx now user expected_updated_at r = elim (check_context ctx >> validate_user user) [
  | err e ↦ (err e, r)
  | ok _ ↦ elim (Maps.get r.users user.id) [
    | none ↦ (ok none, r)
    | some current ↦ update_found now user expected_updated_at current r
  ]
]
