-- ===== src/Resolution/Services.antt =====
-- What the resolvers of internal/resolution call: the interfaces content.Store, metadata.Repository,
-- registry.Connector, ConnectorProvider and Authorizer, and the clock. A call takes the state of the
-- world and returns the state after it; a context that is done shows as an error of the call.
use regstair.Base.{Bool, List, Option}
use regstair.Strings.{Text}
use regstair.Effects.{Exec}
use regstair.Maps.{Map}
use regstair.Identity.{Principal}
use regstair.Registry.Types.{Bytes, Stream, Descriptor, Manifest}
use regstair.Content.Types.{BlobDescriptor}
use regstair.Registry.Parse.{RawManifest}
use regstair.Metadata.Types.{Time, RequestEvent, ProvenanceRecord, TagMapping, CacheBinding}
use regstair.Policy.Types.{Engine}

pub record Services : Type 1 where
  pub World : Type 0
  pub Connector : Type 0
  -- time.Now
  pub now : Exec World Time
  -- content.Store
  pub put_blob : Text → Stream → Exec World BlobDescriptor
  pub open_blob : Text → Exec World Stream
  pub list_blobs : Exec World (List BlobDescriptor)
  -- metadata.Repository
  pub record_request_event : RequestEvent → Exec World (Unit {0})
  pub record_provenance : ProvenanceRecord → Exec World (Unit {0})
  pub record_tag_mapping : TagMapping → Exec World (Unit {0})
  pub find_tag_mapping : Text → Text → Exec World (Option TagMapping)
  pub record_cache_bindings : List CacheBinding → Exec World (Unit {0})
  pub list_cache_bindings : Text → Text → Text → Exec World (List CacheBinding)
  -- registry.Connector
  pub connector_name : Connector → Text
  pub resolve_manifest : Connector → Text → Text → Exec World Manifest
  pub open_source_blob : Connector → Text → Text → Exec World Stream
  pub put_source_blob : Connector → Text → Text → Stream → Exec World Descriptor
  pub put_manifest : Connector → Text → Text → Manifest → Exec World Descriptor
  -- json.Unmarshal into the fields of a manifest, and the digest "sha256:…" of bytes
  pub unmarshal : Bytes → Option RawManifest
  pub digest_bytes : Bytes → Text

-- ConnectorProvider; a nil connector is `none`.
pub record Provider (s : Services) : Type 0 where
  pub connector_for : Principal → Text → Text → Exec s.World (Option s.Connector × Text)
  pub authorize_cache : Principal → CacheBinding → Text → Exec s.World Text

-- PullResolver and PushResolver, whose fields are the same.
pub record Resolver (s : Services) : Type 0 where
  pub policy : Engine
  pub connectors : Map Text s.Connector
  pub provider : Option (Provider s)
  pub authorizer : Option (Principal → Text → Text → Bool)
