-- ===== src/Database/Mirror/Calls.antt =====
-- Calls that internal/metadata/sqlite_repository.go and internal/metadata/repository.go have in
-- common, made of the one and of the other. A database refuses what is asked of it with the error of
-- a context that is done, as database/sql documents it for QueryContext and ExecContext.
use regstair.Base.{ℕ, suc, ℤ, pos, Option, List, [], ◌∷◌, All}
use regstair.Strings.{Text}
use regstair.Errors.{Result, ok, err}
use regstair.Effects.{Exec}
use regstair.Metadata.Types.{
  Time, User, RequestEvent, RequestEventFilter, RequestEventQuery, RequestEventPage,
  RequestEventSummary, TagMapping, ProvenanceRecord, CacheBinding,
}
use regstair.Metadata.Memory.{Repository, Context}
use regstair.Metadata.Users as MemoryUsers
use regstair.Metadata.Events as MemoryEvents
use regstair.Metadata.Tags as MemoryTags
use regstair.Metadata.Bindings as MemoryBindings
use regstair.Metadata.TagLaws.{HasNoColon}
use regstair.Database.Tables.{Database, Faults}
use regstair.Database.Accounts
use regstair.Database.Users
use regstair.Database.Events
use regstair.Database.Mappings
use regstair.Database.Mirror.Keys.{IsPlainBinding}
use regstair.Database.Mirror.Relation.{Agree}

pub data Call : Type 0 where
  creates_user : Time → User → Call
  updates_user : Time → User → Time → Call
  finds_user : Text → Call
  finds_username : Text → Call
  lists_users : Call
  records_event : Time → RequestEvent → Call
  queries_events : RequestEventQuery → Call
  lists_events : ℤ → Call
  counts_events : RequestEventFilter → Call
  finds_event : ℤ → Call
  summarizes_events : Time → Call
  records_tag : Time → TagMapping → Call
  finds_tag : Text → Text → Call
  lists_tags : Call
  records_provenance : Time → ProvenanceRecord → Call
  records_bindings : Time → List CacheBinding → Call
  lists_bindings : Text → Text → Text → Call

pub data Answer : Type 0 where
  done : Unit {0} → Answer
  user : User → Answer
  found_user : Option User → Answer
  users : List User → Answer
  page : RequestEventPage → Answer
  events : List RequestEvent → Answer
  count : ℕ → Answer
  found_event : Option RequestEvent → Answer
  summary : Option RequestEventSummary → Answer
  found_tag : Option TagMapping → Answer
  tags : List TagMapping → Answer
  bindings : List CacheBinding → Answer

-- The answer of an operation.
unfoldable pub answered : {W A : Type 0} → (A → Answer) → Exec W A → Exec W Answer
answered f m w = let (r, w') = m w in (elim r [ ok a ↦ ok (f a) | err e ↦ err e ], w')

-- A statement whose context is done fails with the context's error.
abbrev pub faults_of : Context → Faults
faults_of ctx = record {
  begin_error = ctx;
  read_error = ctx;
  write_error = ctx;
  audit_error = ctx;
  commit_error = ctx;
}

unfoldable pub sql_call : Context → Call → Exec Database Answer
sql_call ctx (creates_user now u) = answered user (Users.create_user (faults_of ctx) ctx now u)
sql_call ctx (updates_user now u expected) =
    answered found_user (Users.update_user (faults_of ctx) ctx now u expected)
sql_call ctx (finds_user id) = answered found_user (Accounts.find_user_by_id (faults_of ctx) ctx id)
sql_call ctx (finds_username name) =
    answered found_user (Accounts.find_user_by_username (faults_of ctx) ctx name)
sql_call ctx lists_users = answered users (Accounts.list_users (faults_of ctx))
sql_call ctx (records_event now e) =
    answered done (Events.record_request_event (faults_of ctx) ctx now e)
sql_call ctx (queries_events query) =
    answered page (Events.query_request_events (faults_of ctx) ctx query)
sql_call ctx (lists_events limit) =
    answered events (Events.list_recent_request_events (faults_of ctx) ctx limit)
sql_call ctx (counts_events filter) =
    answered count (Events.count_request_events (faults_of ctx) filter)
sql_call ctx (finds_event id) =
    answered found_event (Events.find_request_event_by_id (faults_of ctx) id)
sql_call ctx (summarizes_events after) =
    answered summary (Events.summarize_request_events (faults_of ctx) ctx after)
sql_call ctx (records_tag now mapping) =
    answered done (Mappings.record_tag_mapping (faults_of ctx) ctx now mapping)
sql_call ctx (finds_tag repository tag) =
    answered found_tag (Mappings.find_tag_mapping (faults_of ctx) ctx repository tag)
sql_call ctx lists_tags = answered tags (Mappings.list_tag_mappings (faults_of ctx) ctx)
sql_call ctx (records_provenance now p) =
    answered done (Mappings.record_provenance (faults_of ctx) ctx now p)
sql_call ctx (records_bindings now bs) =
    answered done (Mappings.record_cache_bindings (faults_of ctx) ctx now bs)
sql_call ctx (lists_bindings repository route digest) =
    answered bindings (Mappings.list_cache_bindings (faults_of ctx) ctx repository route digest)

unfoldable pub memory_call : Context → Call → Exec Repository Answer
memory_call ctx (creates_user now u) = answered user (MemoryUsers.create_user ctx now u)
memory_call ctx (updates_user now u expected) =
    answered found_user (MemoryUsers.update_user ctx now u expected)
memory_call ctx (finds_user id) = answered found_user (MemoryUsers.find_user_by_id ctx id)
memory_call ctx (finds_username name) =
    answered found_user (MemoryUsers.find_user_by_username ctx name)
memory_call ctx lists_users = answered users (MemoryUsers.list_users ctx)
memory_call ctx (records_event now e) = answered done (MemoryEvents.record_request_event ctx now e)
memory_call ctx (queries_events query) = answered page (MemoryEvents.query_request_events ctx query)
memory_call ctx (lists_events limit) =
    answered events (MemoryEvents.list_recent_request_events ctx limit)
memory_call ctx (counts_events filter) =
    answered count (MemoryEvents.count_request_events ctx filter)
memory_call ctx (finds_event id) =
    answered found_event (MemoryEvents.find_request_event_by_id ctx id)
memory_call ctx (summarizes_events after) =
    answered summary (MemoryEvents.summarize_request_events ctx after)
memory_call ctx (records_tag now mapping) =
    answered done (MemoryTags.record_tag_mapping ctx now mapping)
memory_call ctx (finds_tag repository tag) =
    answered found_tag (MemoryTags.find_tag_mapping ctx repository tag)
memory_call ctx lists_tags = answered tags (MemoryTags.list_tag_mappings ctx)
memory_call ctx (records_provenance now p) = answered done (MemoryTags.record_provenance ctx now p)
memory_call ctx (records_bindings now bs) =
    answered done (MemoryBindings.record_cache_bindings ctx now bs)
memory_call ctx (lists_bindings repository route digest) =
    answered bindings (MemoryBindings.list_cache_bindings ctx repository route digest)

-- An id above 0, as every event has.
abbrev pub IsEventId : ℤ → Type 0
IsEventId (pos (suc n)) = Unit {0}
IsEventId _ = ⊥

-- The repositories of tag mappings have names without ":", the fields of cache bindings that make the
-- key have no rune 0, and an event is only asked for by an id above 0: SQLiteRepository refuses any
-- other id, and MemoryRepository finds nothing under it.
abbrev pub IsPlainCall : Call → Type 0
IsPlainCall (records_tag now mapping) = HasNoColon mapping.logical_repository
IsPlainCall (finds_tag repository tag) = HasNoColon repository
IsPlainCall (finds_event id) = IsEventId id
IsPlainCall (records_bindings now bs) = All IsPlainBinding bs
IsPlainCall _ = Unit {0}

-- The answers to calls that follow each other, each with its context.
unfoldable pub answers :
    {W : Type 0}
    → (Context → Call → Exec W Answer)
    → List (Context × Call)
    → W
    → List (Result Answer)
answers run [] w = []
answers run ((ctx, call) ∷ calls) w = let (r, w') = run ctx call w in r ∷ answers run calls w'

-- One answer after the other is the same.
abbrev pub AllAgree : List (Result Answer) → List (Result Answer) → Type 0
AllAgree [] [] = Unit {0}
AllAgree (a ∷ as') (b ∷ bs) = Agree a b × AllAgree as' bs
AllAgree _ _ = ⊥

-- What openSQLiteRepository makes of a new file.
abbrev pub new_database : Database
new_database = record {
  users = [];
  docker_tokens = [];
  web_sessions = [];
  registry_credentials = [];
  audit_events = [];
  next_audit_id = 1;
  request_events = [];
  last_event_id = 0;
  provenance_records = [];
  tag_mappings = [];
  cache_bindings = [];
}
