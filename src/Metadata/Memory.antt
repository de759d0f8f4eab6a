-- ===== src/Metadata/Memory.antt =====
-- MemoryRepository of internal/metadata/repository.go: its state, and what all operations begin
-- with. `now` of an operation is what `r.now()` gives; a context is the error of `ctx.Err()`.
use regstair.Base.{ℕ, ◌+◌, Option, none, some, List, [], ltb, if◌then◌else◌}
use regstair.Strings.{Text}
use regstair.Errors.{Error, Result, ok, err}
use regstair.Maps.{Map}
use regstair.Metadata.Types.{Time, RequestEvent, ProvenanceRecord, TagMapping, CacheBinding, User}

pub record Repository : Type 0 where
  pub events : List RequestEvent
  pub provenance : List ProvenanceRecord
  pub tags : Map Text TagMapping
  pub bindings : Map Text CacheBinding
  pub users : Map Text User
  pub usernames : Map Text Text
  pub next_event_id : ℕ

-- NewMemoryRepository
abbrev pub new_repository : Repository
new_repository = record {
  events = [];
  provenance = [];
  tags = [];
  bindings = [];
  users = [];
  usernames = [];
  next_event_id = 0;
}

abbrev pub Context : Type 0
Context = Option Error

-- if err := ctx.Err(); err != nil { return err }
abbrev pub check_context : Context → Result (Unit {0})
check_context none = ok tt
check_context (some e) = err e

-- A later time than `current`, `now` where it is one.
unfoldable pub next_updated_at : Time → Time → Time
next_updated_at now current = if ltb current now then now else current + 1
