-- ===== src/Database/Mirror/Answers.antt =====
-- Sequences of calls of internal/metadata/sqlite_repository.go and of
-- internal/metadata/repository.go that begin with nothing stored.
use regstair.Strings.{text_eq}
use regstair.Base.{refl, List, [], ◌∷◌, All}
use regstair.Maps.{values}
use regstair.Metadata.Memory.{Repository, Context, new_repository}
use regstair.Metadata.UsersAgree.{new_repository-UsersAgree}
use regstair.Database.Tables.{Database}
use regstair.Database.Mirror.Relation.{Mirrors}
use regstair.Database.Mirror.Calls.{
  Call, sql_call, memory_call, IsPlainCall, answers, AllAgree, new_database,
}
use regstair.Database.Mirror.Operations.{call-Corresponds}

new_Mirrors : Mirrors new_database new_repository
unfolding values
new_Mirrors = record {
  users = refl;
  keyed = tt;
  agree = new_repository-UsersAgree;
  events = refl;
  last = refl;
  tags = refl;
  tags_keyed = tt;
  tags_plain = tt;
  provenance = refl;
  bindings = refl;
  bindings_keyed = tt;
  bindings_plain = tt;
}

answers-AllAgree :
    (calls : List (Context × Call)) (db : Database) (r : Repository)
    → Mirrors db r
    → All (λ (ctx, call). IsPlainCall call) calls
    → AllAgree (answers sql_call calls db) (answers memory_call calls r)
unfolding answers
answers-AllAgree [] db r m plain = tt
answers-AllAgree ((ctx, call) ∷ calls) db r m (here, plain) =
    let (same, mirrors) = call-Corresponds db r m ctx call here in
    (same, answers-AllAgree calls (sql_call ctx call db).1 (memory_call ctx call r).1 mirrors plain)

-- Whatever calls are made one after the other, each with its own context, a new SQLite repository
-- and a new repository in memory give the same answers, errors included up to the sentinel that
-- errors.Is finds, when no statement fails but for a context that is done, the repositories of the
-- tag mappings have names without ":", the fields of the cache bindings that make their keys have no
-- rune 0, and an event is only asked for by an id above 0. The calls are those that write and search
-- users, request events, tag mappings and cache bindings, and RecordProvenance; BootstrapAdmin and
-- the search for provenance are not among them.
pub answers_same :
    (calls : List (Context × Call))
    → All (λ (ctx, call). IsPlainCall call) calls
    → AllAgree (answers sql_call calls new_database) (answers memory_call calls new_repository)
answers_same calls plain = answers-AllAgree calls new_database new_repository new_Mirrors plain
