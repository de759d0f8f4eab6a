-- ===== src/Auth/Tests.antt =====
-- The account services on the tables, at work.
pub mod Codec
pub mod World
use regstair.Base.{
  ℕ, zero, suc, ◌+◌, ◌-◌, ◌*◌, ◌≡◌, ◌≢◌, ◌≤◌, refl, ap, Bool, true, false, Option, none, some, List,
  [], ◌∷◌, ◌++◌, ◌==◌, nat_eq, any, arith,
}
use regstair.Strings.{
  Text, text_eq, text_beq, trim_space, trim, trim_left, trim_right, is_space, codes,
}
use regstair.Errors.{Result, ok, err}
use regstair.Strings.Search.{split_rune}
use regstair.Effects.{◌>>=◌, refuse, when, if_found, pure, fail, lift, attempt}
use regstair.Identity.{Principal}
use regstair.Registry.Types.{Bytes}
use regstair.Metadata.Types.{Time, User, access_admin, access_user}
use regstair.Metadata.Users.{validate_user}
use regstair.Metadata.Memory.{next_updated_at}
use regstair.Database.Records.{
  DockerToken, WebSession, AuditEvent, validate_detail, validate_audit_details,
  validate_audit_event,
}
use regstair.Database.Tables.{
  Database, Faults, explained, checked, constrained, settle, transact, select, change, first_where,
  update_where, insert_user, write_user, count_where, is_enabled_admin,
}
use regstair.Database.Audit.{insert_audit_event, dated_event}
use regstair.Database.Sessions.{create_web_session}
use regstair.Database.Tokens.{find_docker_token_by_hash}
use regstair.Database.Accounts.{
  find_user_by_id, find_user_by_username, bootstrap_body, revoke_all, change_found, bootstrap_admin,
  change_user_password, update_user_security,
}
use regstair.Database.History.{
  History, nothing, followed_by, session_created, token_created, user_updated,
}
use regstair.Database.Invalidation.{session_of, token_of}
use regstair.Database.Governance.{bootstrap_governs}
use regstair.Auth.Repository.{SecurityRepository, sqlite_repository}
use regstair.Auth.DockerTokens.{
  Digests, is_live, accept_token, authenticate_with_token, validate_hash,
}
use regstair.Auth.WebSessions.{authenticate_session}
use regstair.Auth.OciTokens.{
  OciClaims, TokenCodec, collect_actions, accept_claims, signed, open_parts, principal_of,
  contains_action, normalized_actions, issue_oci_token, authenticate_oci, expiry, second,
}
use regstair.Auth.Revocation.{
  changed, change_user_password-ends_sessions, change_user_password-ends_tokens,
}
use regstair.Auth.Accepted.{
  principal_for, IsSigned, IsForRequest, IsHolder, authenticate_oci-IsSound,
}
use regstair.Auth.Issued.{TokenLaws, issue_oci_token-authenticates}
use regstair.Auth.Tests.Codec.{
  encode, decode, write_text, write_texts, read_texts, plain, codec, codec_laws,
}
use regstair.Auth.Tests.World.{
  sound, alice, root, token, session, empty, tables, noted, database_runs,
}

-- Alice changes her password.
abbrev own_change : AuditEvent
own_change = noted (codes "a") (codes "user") (codes "user.password_changed")

abbrev after_change : Database
after_change = (change_user_password sound 5 (codes "a") 1 (codes "new") own_change tables).1

password_changes :
    ((change_user_password sound 5 (codes "a") 1 (codes "new") own_change tables).0
      ≡ ok (some (record alice { password_hash = codes "new"; updated_at = 5 })))
    × (session_of tables (codes "cookie") ≡ some session)
    × (token_of tables (codes "secret") ≡ some token)
unfolding database_runs
password_changes = (refl, refl, refl)

-- Somebody logs in behind it, whether it succeeds or not.
abbrev later : Database
later = (create_web_session sound 6 (record session { id = codes "v" }) after_change).1

later_use : History after_change later
later_use =
    followed_by after_change after_change later (nothing after_change)
      (session_created sound 6 (record session { id = codes "v" }) after_change)

change_user_password-ends_sessions_example :
    (authenticate_session plain (sqlite_repository sound 6) 6 (codes "cookie") later).0
    ≢ ok (alice, session)
change_user_password-ends_sessions_example =
    change_user_password-ends_sessions sound 5 (codes "a") 1 (codes "new") own_change tables later
      plain sound 6 6 _ (codes "cookie") session (alice, session) password_changes.0 later_use
      password_changes.1 refl

change_user_password-ends_tokens_example :
    (authenticate_with_token plain
      (sqlite_repository sound 6)
      6
      (codes "alice")
      (codes "secret")
      later).0
    ≢ ok (alice, token)
change_user_password-ends_tokens_example =
    change_user_password-ends_tokens sound 5 (codes "a") 1 (codes "new") own_change tables later
      plain sound 6 6 _ (codes "secret") (codes "alice") token (alice, token) password_changes.0
      later_use password_changes.2 refl

-- The first administrator is made, and tries to demote itself.
abbrev founding : AuditEvent
founding = noted (codes "r") (codes "admin") (codes "user.bootstrapped")

abbrev founded : Database
founded = (bootstrap_admin sound 1 root founding empty).1

abbrev resigned : Database
resigned =
    (update_user_security sound 2 (record root { access = access_user }) 1 true founding founded).1

root_founded : (bootstrap_admin sound 1 root founding empty).0 ≡ ok root
unfolding database_runs
root_founded = refl

resignation : History founded resigned
resignation =
    followed_by founded founded resigned (nothing founded)
      (user_updated sound 2 (record root { access = access_user }) 1 true founding founded)

bootstrap_governs_example : 1 ≤ count_where is_enabled_admin resigned.users
bootstrap_governs_example =
    bootstrap_governs sound 1 root root founding empty resigned root_founded resignation

-- A token for pulls and pushes of one repository.
abbrev repo : SecurityRepository Database
repo = sqlite_repository sound 2

abbrev both : List Text
both = codes "pull" ∷ codes "push" ∷ []

alice_known :
    ((authenticate_with_token plain repo 2 (codes "alice") (codes "secret") tables).0
      ≡ ok (alice, token))
    × (contains_action (normalized_actions both) (codes "push") ≡ true)
    × ((validate_hash plain repo 9 (codes "a") (codes "secret") tables).0 ≡ ok alice)
unfolding database_runs
alice_known = (refl, refl, refl)

issue_oci_token-authenticates_example :
    (raw : Text) × ((issue_oci_token plain codec repo 2
        (codes "alice")
        (codes "secret")
        (codes "app")
        both
        tables).0
      ≡ ok (raw, expiry 2 * second))
    × ((authenticate_oci plain codec repo 9 raw (codes "app") (codes "push") tables).0
        ≡ ok (principal_for alice))
unfolding text_beq
issue_oci_token-authenticates_example =
    issue_oci_token-authenticates plain codec codec_laws repo 2 9 (codes "alice") (codes "secret")
      (codes "app") (codes "push") both alice alice token tables tables refl alice_known.0
      alice_known.1 refl refl alice_known.2

-- A token of alice, for pulls.
abbrev pulls : OciClaims
pulls = record {
  user_id = codes "a";
  username = codes "alice";
  token_hash = encode (codes "secret");
  repository = codes "app";
  actions = codes "pull" ∷ [];
  expires_at = 300;
}

abbrev raw_pulls : Text
raw_pulls = signed plain codec repo 2 pulls

raw_pulls_accepted :
    (authenticate_oci plain codec repo 9 raw_pulls (codes "app") (codes "pull") tables).0
    ≡ ok (principal_for alice)
unfolding database_runs
raw_pulls_accepted = refl

authenticate_oci-IsSound_example :
    (payload : Bytes) × (claims : OciClaims) × IsSigned codec raw_pulls payload
    × (codec.unmarshal payload ≡ some claims)
    × IsForRequest 9 (codes "app") (codes "pull") claims
    × IsHolder plain codec repo 9 claims (codes "pull") tables (principal_for alice)
authenticate_oci-IsSound_example =
    authenticate_oci-IsSound plain codec repo 9 raw_pulls (codes "app") (codes "pull") tables
      (principal_for alice) raw_pulls_accepted
