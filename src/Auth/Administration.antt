-- ===== src/Auth/Administration.antt =====
-- AccountService and AdminAccountService of internal/auth/accounts.go. What the password hasher says
-- is in `Hasher`, with the salt that it draws.
use regstair.Base.{
  ◌&&◌, ◌||◌, Bool, true, false, not, Option, none, some, List, [], ◌∷◌, ◌==◌, nat_eq, leb,
  if◌then◌else◌,
}
use regstair.Strings.{Text, text_eq, codes, trim_space}
use regstair.Errors.{
  Result, ok, err, bare, plain_error, lit, invalid_credentials, forbidden, last_administrator,
}
use regstair.Effects.{Exec, refuse, when, if_found, lift, ◌>>=◌, ◌>>◌}
use regstair.Registry.Types.{Bytes}
use regstair.Metadata.Types.{Time, User, is_zero, access_admin}
use regstair.Database.Tables.{is_enabled_admin, count_where}
use regstair.Database.Accounts.{demotes}
use regstair.Auth.Repository.{SecurityRepository}
use regstair.Auth.DockerTokens.{Digests, random_id, audit_of}

-- Hash of a password, and whether Verify says that an encoded hash is of it.
pub record Hasher : Type 0 where
  pub hash : Text → Result Text
  pub verify : Text → Text → Result Bool

-- err != nil || !valid
abbrev pub is_verified : Hasher → User → Text → Bool
is_verified h user password = elim (h.verify user.password_hash password) [
  | ok valid ↦ valid
  | err e ↦ false
]

-- user == nil || !user.Enabled, and the password
unfoldable pub accept_password : Hasher → Text → Option User → Result User
accept_password h password none = err (bare invalid_credentials)
accept_password h password (some user) =
    if is_verified h user password && user.enabled then ok user else err (bare invalid_credentials)

-- updated == nil
unfoldable pub accept_change : Option User → Result (Unit {0})
accept_change none = err (bare invalid_credentials)
accept_change (some user) = ok tt

module _ (h : Hasher) (d : Digests) {W : Type 0} (repo : SecurityRepository W) where
  unfoldable pub change_password : Text → Text → Text → Exec W (Unit {0})
  change_password user_id current_password new_password = do
    found ← repo.find_user_by_id user_id
    user ← lift (accept_password h current_password found)
    hash ← lift (h.hash new_password)
    updated ←
        repo.change_user_password user.id user.updated_at hash
          (audit_of user.id (codes "user") (codes "user.password_changed") (codes "user") user.id)
    lift (accept_change updated)

  unfoldable pub bootstrap_admin_with_profile :
      Result Bytes → Text → Text → Text → Text → Exec W User
  bootstrap_admin_with_profile id_bytes username password display_name email = do
    refuse (trim_space username == []) (plain_error (lit "username is required" ∷ []))
    hash ← lift (h.hash password)
    id ← lift (random_id d id_bytes)
    repo.bootstrap_admin
        (record {
          id = id;
          username = trim_space username;
          password_hash = hash;
          display_name = trim_space display_name;
          email = trim_space email;
          access = access_admin;
          enabled = true;
          created_at = 0;
          updated_at = 0;
        })
        (audit_of [] (codes "system") (codes "user.bootstrap") (codes "user") id)

  unfoldable pub authenticate_web : Text → Text → Exec W User
  authenticate_web username password = do
    found ← repo.find_user_by_username username
    lift (accept_password h password found)

pub record NewUser : Type 0 where
  pub username : Text
  pub password : Text
  pub display_name : Text
  pub email : Text
  pub access : Text
  pub enabled : Bool

pub record UserEdit : Type 0 where
  pub username : Option Text
  pub display_name : Option Text
  pub email : Option Text
  pub access : Option Text
  pub enabled : Option Bool
  pub updated_at : Time

-- actor == nil || !actor.Enabled || actor.Access != metadata.UserAccessAdmin
unfoldable pub accept_actor : Option User → Result (Unit {0})
accept_actor none = err (bare forbidden)
accept_actor (some actor) = if is_enabled_admin actor then ok tt else err (bare forbidden)

-- strconv.FormatBool
abbrev bool_text : Bool → Text
bool_text true = codes "true"
bool_text false = codes "false"

-- What an update does to the identity, which ends its sessions and tokens.
unfoldable pub invalidates : User → User → Bool
invalidates current user =
    not (current.password_hash == user.password_hash)
    || not (current.username == user.username)
    || not (current.access == user.access)
    || (current.enabled && not user.enabled)

unfoldable pub update_action : User → User → Text
update_action current user =
    if current.enabled && not user.enabled
    then codes "user.disabled"
    else if not (current.access == user.access)
    then codes "user.access_changed"
    else if not (current.password_hash == user.password_hash)
    then codes "user.password_reset"
    else codes "user.updated"

abbrev or_else : {A : Type 0} → Option A → A → A
or_else none a = a
or_else (some b) a = b

abbrev or_trimmed : Option Text → Text → Text
or_trimmed none a = a
or_trimmed (some b) a = trim_space b

-- The fields that an edit has.
unfoldable pub edited : UserEdit → User → User
edited input user = record user {
  username = or_trimmed input.username user.username;
  display_name = or_trimmed input.display_name user.display_name;
  email = or_trimmed input.email user.email;
  access = or_else input.access user.access;
  enabled = or_else input.enabled user.enabled;
}

module _ (h : Hasher) (d : Digests) {W : Type 0} (repo : SecurityRepository W) where
  unfoldable pub authorize_admin : Text → Exec W (Unit {0})
  authorize_admin actor_id = do actor ← repo.find_user_by_id actor_id; lift (accept_actor actor)

  unfoldable pub list_accounts : Text → Exec W (List User)
  list_accounts actor_id = do authorize_admin actor_id; repo.list_users

  unfoldable pub create_account : Result Bytes → Text → NewUser → Exec W User
  create_account id_bytes actor_id input = do
    authorize_admin actor_id
    hash ← lift (h.hash input.password)
    id ← lift (random_id d id_bytes)
    repo.create_user_with_audit
        (record {
          id = id;
          username = trim_space input.username;
          password_hash = hash;
          display_name = trim_space input.display_name;
          email = trim_space input.email;
          access = input.access;
          enabled = input.enabled;
          created_at = 0;
          updated_at = 0;
        })
        (record (audit_of actor_id (codes "admin") (codes "user.created") (codes "user") id) {
          details =
              (codes "username", trim_space input.username)
              ∷ (codes "new_access", input.access)
              ∷ (codes "enabled", bool_text input.enabled)
              ∷ [];
        })

  -- The count of the enabled administrators, where an update demotes one.
  unfoldable pub spare_last_administrator : User → User → Exec W (Unit {0})
  spare_last_administrator current user = when (demotes current user) (do
    users ← repo.list_users
    refuse (leb (count_where is_enabled_admin users) 1) (bare last_administrator))

  unfoldable pub update_account : Text → User → Time → Exec W (Option User)
  update_account actor_id user expected = do
    authorize_admin actor_id
    found ← repo.find_user_by_id user.id
    if_found found λ current. (do
      spare_last_administrator current user
      repo.update_user_security user expected (invalidates current user)
          (record (audit_of actor_id (codes "admin") (update_action current user) (codes "user")
            user.id) {
              details =
                  (codes "username", user.username)
                  ∷ (codes "previous_access", current.access)
                  ∷ (codes "new_access", user.access)
                  ∷ (codes "enabled", bool_text user.enabled)
                  ∷ [];
            }))

  unfoldable pub edit_account : Text → Text → UserEdit → Exec W (Option User)
  edit_account actor_id user_id input = do
    authorize_admin actor_id
    refuse (is_zero input.updated_at) (plain_error (lit "mtime is required" ∷ []))
    found ← repo.find_user_by_id user_id
    if_found found λ user. update_account actor_id (edited input user) input.updated_at

  unfoldable pub reset_password : Text → Text → Text → Exec W (Option User)
  reset_password actor_id user_id password = do
    authorize_admin actor_id
    found ← repo.find_user_by_id user_id
    if_found found λ user. (do
      hash ← lift (h.hash password)
      update_account actor_id (record user { password_hash = hash }) user.updated_at)
