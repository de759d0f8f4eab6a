-- ===== src/Resolution/Assembly.antt =====
-- The services that the tests of internal/resolution assemble: a MemoryRepository, a FileStore on a
-- disk that works, and a FakeConnector for each source, which stands for itself by its name.
use regstair.Base.{◌+◌, Option, none, some}
use regstair.Strings.{Text, text_eq}
use regstair.Errors.{Result, ok, err, bare, unavailable}
use regstair.Effects.{Exec}
use regstair.Maps
use regstair.Maps.{Map}
use regstair.Registry.Types.{Bytes, Stream}
use regstair.Registry.Parse.{RawManifest}
use regstair.Registry.FakeConnector as F
use regstair.Registry.FakeConnector.{FakeConnector}
use regstair.Content.FileStore as C
use regstair.Content.FileStore.{Disk}
use regstair.Metadata.Types.{Time}
use regstair.Metadata.Memory.{Repository}
use regstair.Metadata.Events.{record_request_event}
use regstair.Metadata.Tags.{record_provenance, record_tag_mapping, find_tag_mapping}
use regstair.Metadata.Bindings.{record_cache_bindings, list_cache_bindings}
use regstair.Resolution.Services.{Services}

pub record World : Type 0 where
  pub clock : Time
  pub repository : Repository
  pub files : Map Text Bytes
  pub registries : Map Text FakeConnector

abbrev pub working_disk : Disk
working_disk = record {
  stat_error = none;
  size_error = none;
  create_error = none;
  write_error = none;
  close_error = none;
  rename_error = none;
  made_by_other = none;
  open_error = none;
}

-- Every reading of the clock is later than the one before.
abbrev pub read_clock : Exec World Time
read_clock w = (ok w.clock, record w { clock = w.clock + 1 })

-- A call of one component, on its part of the state.
abbrev pub on_repository : {A : Type 0} → (Time → Exec Repository A) → Exec World A
on_repository call w =
    let (r, repository) = call w.clock w.repository in (r, record w { repository = repository })

abbrev pub on_files : {A : Type 0} → Exec (Map Text Bytes) A → Exec World A
on_files call w = let (r, files) = call w.files in (r, record w { files = files })

abbrev pub on_registry : {A : Type 0} → Text → Exec FakeConnector A → Exec World A
on_registry name call w = elim (Maps.get w.registries name) [
  | none ↦ (err (bare unavailable), w)
  | some c ↦ let (r, c') = call c in (r, record w { registries = Maps.put w.registries name c' })
]

abbrev pub stream_only : {A : Type 0} → Result (Stream × A) → Result Stream
stream_only (ok (rc, d)) = ok rc
stream_only (err e) = err e

module _ (unmarshal : Bytes → Option RawManifest) (digest_bytes : Bytes → Text) where
  abbrev pub assembled : Services
  assembled = record {
    World = World;
    Connector = Text;
    now = read_clock;
    put_blob = λ digest body. on_files (C.put_blob digest_bytes none working_disk digest body);
    open_blob = λ digest. on_files (C.open_blob none working_disk digest);
    list_blobs = on_files (C.list_blobs none working_disk);
    record_request_event = λ event. on_repository (λ now. record_request_event none now event);
    record_provenance = λ p. on_repository (λ now. record_provenance none now p);
    record_tag_mapping = λ mapping. on_repository (λ now. record_tag_mapping none now mapping);
    find_tag_mapping =
        λ repository tag. on_repository (λ now. find_tag_mapping none repository tag);
    record_cache_bindings =
        λ bindings. on_repository (λ now. record_cache_bindings none now bindings);
    list_cache_bindings = λ repository route digest.
        on_repository (λ now. list_cache_bindings none repository route digest);
    connector_name = λ name. name;
    resolve_manifest = λ name repository reference.
        on_registry name (F.resolve_manifest none repository reference);
    open_source_blob = λ name repository digest w.
        let (r, w') = on_registry name (F.open_blob none repository digest) w in
        (stream_only r, w');
    put_source_blob = λ name repository digest body.
        on_registry name (F.put_blob digest_bytes none repository digest body);
    put_manifest = λ name repository reference manifest.
        on_registry name (F.put_manifest none repository reference manifest);
    unmarshal = unmarshal;
    digest_bytes = digest_bytes;
  }
