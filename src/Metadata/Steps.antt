-- ===== src/Metadata/Steps.antt =====
-- What can happen to a MemoryRepository: a call of one of the methods that write to it. A call that
-- fails is such a step too.
use regstair.Base.{List}
use regstair.Metadata.Types.{Time, RequestEvent, ProvenanceRecord, TagMapping, CacheBinding, User}
use regstair.Metadata.Memory.{Repository, Context, new_repository}
use regstair.Metadata.Users.{create_user, bootstrap_admin, update_user}
use regstair.Metadata.Events.{record_request_event}
use regstair.Metadata.Tags.{record_provenance, record_tag_mapping}
use regstair.Metadata.Bindings.{record_cache_bindings}

pub data Step (r : Repository) : Repository → Type 0 where
  creates_user : (ctx : Context) (now : Time) (user : User) → Step r (create_user ctx now user r).1
  bootstraps :
      (ctx : Context) (now : Time) (user : User) → Step r (bootstrap_admin ctx now user r).1
  updates_user :
      (ctx : Context) (now : Time) (user : User) (expected : Time)
      → Step r (update_user ctx now user expected r).1
  records_event :
      (ctx : Context) (now : Time) (event : RequestEvent)
      → Step r (record_request_event ctx now event r).1
  records_provenance :
      (ctx : Context) (now : Time) (p : ProvenanceRecord) → Step r (record_provenance ctx now p r).1
  records_tag :
      (ctx : Context) (now : Time) (mapping : TagMapping)
      → Step r (record_tag_mapping ctx now mapping r).1
  records_bindings :
      (ctx : Context) (now : Time) (bindings : List CacheBinding)
      → Step r (record_cache_bindings ctx now bindings r).1

-- What a repository comes to from NewMemoryRepository on.
pub data Reachable : Repository → Type 0 where
  new : Reachable new_repository
  after : (r r' : Repository) → Reachable r → Step r r' → Reachable r'

-- What a new repository has and every step keeps, every repository has.
pub Reachable-invariant :
    (P : Repository → Type 0)
    → P new_repository
    → ((r r' : Repository) → P r → Step r r' → P r')
    → (r : Repository) → Reachable r
    → P r
Reachable-invariant P base keep _ new = base
Reachable-invariant P base keep _ (after r r' before step) =
    keep r r' (Reachable-invariant P base keep r before) step
