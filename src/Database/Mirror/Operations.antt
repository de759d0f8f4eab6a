-- ===== src/Database/Mirror/Operations.antt =====
-- Each call of internal/metadata/sqlite_repository.go and of internal/metadata/repository.go, where
-- the one has what the other has.
use regstair.Strings.{Text, text_eq}
use regstair.Base.{
  zero, suc, pos, negsuc, ◌≡◌, refl, ap, sym, subst, none, some, Option-cases, inl, inr,
}
use regstair.Errors.{Error, Result, ok, err}
use regstair.Effects.{Exec, lift, ◌>>=◌}
use regstair.Maps.{get}
use regstair.Metadata.Memory.{Repository, Context}
use regstair.Metadata.Users as MemoryUsers
use regstair.Metadata.Events as MemoryEvents
use regstair.Metadata.Tags as MemoryTags
use regstair.Metadata.Bindings as MemoryBindings
use regstair.Database.Tables.{Database, explained, checked, select}
use regstair.Database.Accounts
use regstair.Database.Users
use regstair.Database.Events
use regstair.Database.Mappings
use regstair.Database.Mirror.Relation.{Mirrors, Corresponds, no_faults}
use regstair.Database.Mirror.Users.{
  find_user_by_id-Agree, find_user_by_username-Agree, list_users-Agree,
}
use regstair.Database.Mirror.Insertion.{create_user-Corresponds}
use regstair.Database.Mirror.Modification.{update_user-Corresponds}
use regstair.Database.Mirror.Events.{
  record_request_event-Corresponds, query_request_events-Corresponds,
  list_recent_request_events-Corresponds, count_request_events-Corresponds,
  find_request_event_by_id-Corresponds, summarize_request_events-Corresponds,
}
use regstair.Database.Mirror.Recording.{
  record_tag_mapping-Corresponds, find_tag_mapping-Corresponds, list_tag_mappings-Corresponds,
  record_provenance-Corresponds,
}
use regstair.Database.Mirror.Caching.{
  record_cache_bindings-Corresponds, list_cache_bindings-Corresponds,
}
use regstair.Database.Mirror.Calls.{
  Call, Answer, creates_user, updates_user, finds_user, finds_username, lists_users, records_event,
  queries_events, lists_events, counts_events, finds_event, summarizes_events, records_tag,
  finds_tag, lists_tags, records_provenance, answered, sql_call, memory_call, IsPlainCall,
  records_bindings, lists_bindings,
}

answered-Agree :
    {A : Type 0}
    → (f : A → Answer) (m : Exec Database A) (m' : Exec Repository A) (db : Database)
      (r : Repository)
    → (o : Result A × Database) (o' : Result A × Repository) → m db ≡ o
    → m' r ≡ o'
    → Corresponds o o'
    → Corresponds (answered f m db) (answered f m' r)
unfolding answered
answered-Agree f m m' db r (ok a, db') (ok b, r') e e' (same, mirrors) =
    rw (e, e') (ap f same, mirrors)
answered-Agree f m m' db r (err a, db') (err b, r') e e' (same, mirrors) =
    rw (e, e') (same, mirrors)
answered-Agree f m m' db r (ok a, db') (err b, r') e e' (same, mirrors) = absurd same
answered-Agree f m m' db r (err a, db') (ok b, r') e e' (same, mirrors) = absurd same

answered-Corresponds :
    {A : Type 0}
    → (f : A → Answer) (m : Exec Database A) (m' : Exec Repository A) (db : Database)
      (r : Repository)
    → Corresponds (m db) (m' r)
    → Corresponds (answered f m db) (answered f m' r)
answered-Corresponds f m m' db r h = answered-Agree f m m' db r (m db) (m' r) refl refl h

module _ (db : Database) (r : Repository) (m : Mirrors db r) where
  find_user_by_id-Corresponds :
      (id : Text)
      → Corresponds
          (Accounts.find_user_by_id no_faults none id db)
          (MemoryUsers.find_user_by_id none id r)
  unfolding Accounts.find_user_by_id MemoryUsers.find_user_by_id ◌>>=◌ lift explained select checked
  find_user_by_id-Corresponds id = (find_user_by_id-Agree db r m none id, m)

  -- A search for a username leaves the repository in memory as it was.
  search_only : (name : Text) → (MemoryUsers.find_user_by_username none name r).1 ≡ r
  unfolding MemoryUsers.find_user_by_username
  search_only name = elim (Option-cases (get r.usernames name)) [
    | inl e ↦ rw (MemoryUsers.find_user_by_username, e) refl
    | inr (id, e) ↦ elim (Option-cases (get r.users id)) [
      | inl f ↦ rw (MemoryUsers.find_user_by_username, e, f) refl
      | inr (u, f) ↦ rw (MemoryUsers.find_user_by_username, e, f) refl
    ]
  ]

  find_user_by_username-Corresponds :
      (name : Text)
      → Corresponds
          (Accounts.find_user_by_username no_faults none name db)
          (MemoryUsers.find_user_by_username none name r)
  unfolding Accounts.find_user_by_username ◌>>=◌ lift explained select checked
  find_user_by_username-Corresponds name =
      (find_user_by_username-Agree db r m none name, subst (Mirrors db) (sym (search_only name)) m)

  list_users-Corresponds :
      Corresponds (Accounts.list_users no_faults db) (MemoryUsers.list_users none r)
  unfolding Accounts.list_users MemoryUsers.list_users explained select checked
  list_users-Corresponds = (list_users-Agree db r m, m)

  live_call :
      (call : Call)
      → IsPlainCall call
      → Corresponds (sql_call none call db) (memory_call none call r)
  unfolding sql_call memory_call
  live_call (creates_user now u) plain =
      answered-Corresponds _ _ _ db r (create_user-Corresponds db r m none now u)
  live_call (updates_user now u expected) plain =
      answered-Corresponds _ _ _ db r (update_user-Corresponds db r m none now u expected)
  live_call (finds_user id) plain = answered-Corresponds _ _ _ db r (find_user_by_id-Corresponds id)
  live_call (finds_username name) plain =
      answered-Corresponds _ _ _ db r (find_user_by_username-Corresponds name)
  live_call lists_users plain = answered-Corresponds _ _ _ db r list_users-Corresponds
  live_call (records_event now e) plain =
      answered-Corresponds _ _ _ db r (record_request_event-Corresponds db r m now e)
  live_call (queries_events q) plain =
      answered-Corresponds _ _ _ db r
        (query_request_events-Corresponds db r m q.filter q.limit q.cursor q.oldest_first)
  live_call (lists_events limit) plain =
      answered-Corresponds _ _ _ db r (list_recent_request_events-Corresponds db r m limit)
  live_call (counts_events wanted) plain =
      answered-Corresponds _ _ _ db r (count_request_events-Corresponds db r m wanted)
  live_call (finds_event (pos (suc n))) plain =
      answered-Corresponds _ _ _ db r (find_request_event_by_id-Corresponds db r m n)
  live_call (finds_event (pos zero)) plain = absurd plain
  live_call (finds_event (negsuc n)) plain = absurd plain
  live_call (summarizes_events after) plain =
      answered-Corresponds _ _ _ db r (summarize_request_events-Corresponds db r m after)
  live_call (records_tag now mapping) plain =
      answered-Corresponds _ _ _ db r (record_tag_mapping-Corresponds db r m now mapping plain)
  live_call (finds_tag repository tag) plain =
      answered-Corresponds _ _ _ db r (find_tag_mapping-Corresponds db r m repository tag plain)
  live_call lists_tags plain =
      answered-Corresponds _ _ _ db r (list_tag_mappings-Corresponds db r m)
  live_call (records_provenance now p) plain =
      answered-Corresponds _ _ _ db r (record_provenance-Corresponds db r m now p)
  live_call (records_bindings now bs) plain =
      answered-Corresponds _ _ _ db r (record_cache_bindings-Corresponds db r m now bs plain)
  live_call (lists_bindings repository route digest) plain =
      answered-Corresponds _ _ _ db r
        (list_cache_bindings-Corresponds db r m repository route digest)

  -- A call whose context is done.
  done_call :
      (e : Error) (call : Call)
      → IsPlainCall call
      → Corresponds (sql_call (some e) call db) (memory_call (some e) call r)
  unfolding sql_call memory_call answered Users.create_user Users.update_user
      Accounts.find_user_by_id Accounts.find_user_by_username Accounts.list_users
      Events.record_request_event Events.query_request_events Events.list_recent_request_events
      Events.count_request_events Events.find_request_event_by_id Events.summarize_request_events
      Mappings.record_tag_mapping Mappings.find_tag_mapping Mappings.list_tag_mappings
      Mappings.record_provenance MemoryUsers.create_user MemoryUsers.update_user
      MemoryUsers.find_user_by_id MemoryUsers.find_user_by_username MemoryUsers.list_users
      MemoryEvents.record_request_event MemoryEvents.query_request_events
      MemoryEvents.list_recent_request_events MemoryEvents.count_request_events
      MemoryEvents.find_request_event_by_id MemoryEvents.summarize_request_events
      MemoryTags.record_tag_mapping MemoryTags.find_tag_mapping MemoryTags.list_tag_mappings
      MemoryTags.record_provenance Mappings.record_cache_bindings Mappings.list_cache_bindings
      MemoryBindings.record_cache_bindings MemoryBindings.list_cache_bindings lift ◌>>=◌ explained
      select checked
  done_call e (creates_user now u) plain = (refl, m)
  done_call e (updates_user now u expected) plain = (refl, m)
  done_call e (finds_user id) plain = (refl, m)
  done_call e (finds_username name) plain = (refl, m)
  done_call e lists_users plain = (refl, m)
  done_call e (records_event now event) plain = (refl, m)
  done_call e (queries_events q) plain = (refl, m)
  done_call e (lists_events limit) plain = (refl, m)
  done_call e (counts_events wanted) plain = (refl, m)
  done_call e (finds_event (pos (suc n))) plain = (refl, m)
  done_call e (finds_event (pos zero)) plain = absurd plain
  done_call e (finds_event (negsuc n)) plain = absurd plain
  done_call e (summarizes_events after) plain = (refl, m)
  done_call e (records_tag now mapping) plain = (refl, m)
  done_call e (finds_tag repository tag) plain = (refl, m)
  done_call e lists_tags plain = (refl, m)
  done_call e (records_provenance now p) plain = (refl, m)
  done_call e (records_bindings now bs) plain = (refl, m)
  done_call e (lists_bindings repository route digest) plain = (refl, m)

  pub call-Corresponds :
      (ctx : Context) (call : Call)
      → IsPlainCall call
      → Corresponds (sql_call ctx call db) (memory_call ctx call r)
  call-Corresponds none call plain = live_call call plain
  call-Corresponds (some e) call plain = done_call e call plain
