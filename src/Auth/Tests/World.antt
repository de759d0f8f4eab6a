-- ===== src/Auth/Tests/World.antt =====
-- Users with a token and a session in the tables, and what the services run through.
use regstair.Base.{true, none, [], ◌∷◌, nat_eq}
use regstair.Strings.{
  Text, text_eq, text_beq, trim_space, trim, trim_left, trim_right, is_space, codes,
}
use regstair.Strings.Search.{split_rune}
use regstair.Effects.{◌>>=◌, refuse, when, if_found, pure, fail, lift, attempt}
use regstair.Metadata.Types.{User, access_admin, access_user}
use regstair.Metadata.Users.{validate_user}
use regstair.Metadata.Memory.{next_updated_at}
use regstair.Database.Records.{
  DockerToken, WebSession, AuditEvent, validate_detail, validate_audit_details,
  validate_audit_event,
}
use regstair.Database.Tables.{
  Database, Faults, explained, checked, constrained, settle, transact, select, change, first_where,
  update_where, insert_user, write_user, count_where,
}
use regstair.Database.Audit.{insert_audit_event, dated_event}
use regstair.Database.Tokens.{find_docker_token_by_hash}
use regstair.Database.Accounts.{
  find_user_by_id, find_user_by_username, bootstrap_body, revoke_all, change_found, bootstrap_admin,
  change_user_password,
}
use regstair.Auth.DockerTokens.{is_live, accept_token, authenticate_with_token, validate_hash}
use regstair.Auth.OciTokens.{
  collect_actions, accept_claims, signed, open_parts, principal_of, contains_action,
  normalized_actions, authenticate_oci,
}
use regstair.Auth.Tests.Codec.{encode, decode, write_text, write_texts, read_texts}

abbrev pub sound : Faults
sound = record {
  begin_error = none;
  read_error = none;
  write_error = none;
  audit_error = none;
  commit_error = none;
}

abbrev pub alice : User
alice = record {
  id = codes "a";
  username = codes "alice";
  password_hash = codes "old";
  display_name = [];
  email = [];
  access = access_user;
  enabled = true;
  created_at = 1;
  updated_at = 1;
}

abbrev pub root : User
root = record alice { id = codes "r"; username = codes "root"; access = access_admin }

abbrev pub token : DockerToken
token = record {
  id = codes "d";
  user_id = codes "a";
  label = [];
  token_hash = codes "secret";
  created_at = 1;
  expires_at = 1_000_000_000_000_000;
  revoked_at = 0;
  last_used = 0;
}

abbrev pub session : WebSession
session = record {
  id = codes "w";
  user_id = codes "a";
  token_hash = codes "cookie";
  csrf_token_hash = [];
  created_at = 1;
  last_seen_at = 1;
  idle_expires_at = 1_000;
  absolute_expires_at = 1_000;
  revoked_at = 0;
}

abbrev pub empty : Database
empty = record {
  users = [];
  docker_tokens = [];
  web_sessions = [];
  registry_credentials = [];
  audit_events = [];
  next_audit_id = 1;
  request_events = [];
  last_event_id = 0;
  provenance_records = [];
  tag_mappings = [];
  cache_bindings = [];
}

abbrev pub tables : Database
tables = record empty {
  users = root ∷ alice ∷ [];
  docker_tokens = token ∷ [];
  web_sessions = session ∷ [];
}

abbrev pub noted : Text → Text → Text → AuditEvent
noted actor role action = record {
  id = 0;
  timestamp = 0;
  actor_user_id = actor;
  actor_role = role;
  action = action;
  target_type = codes "user";
  target_id = codes "a";
  outcome = codes "success";
  correlation_id = [];
  remote_address = [];
  details = [];
}

unfoldable pub database_runs : Unit {0}
unfolding encode decode write_text write_texts read_texts text_beq trim_space trim trim_left
    trim_right is_space ◌>>=◌ refuse when if_found pure fail lift attempt explained checked
    constrained settle transact select change first_where update_where count_where insert_user
    write_user find_user_by_id find_user_by_username bootstrap_body bootstrap_admin revoke_all
    change_found change_user_password insert_audit_event dated_event validate_detail
    validate_audit_details validate_audit_event validate_user next_updated_at
    find_docker_token_by_hash is_live accept_token authenticate_with_token validate_hash
    contains_action collect_actions normalized_actions accept_claims signed open_parts principal_of
    authenticate_oci split_rune
database_runs = tt
