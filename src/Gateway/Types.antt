-- ===== src/Gateway/Types.antt =====
-- The requests, the answers and the state of internal/gateway/server.go. What a handler calls is in `Backend`: the
-- interfaces Puller, BlobPuller, Pusher, content.Store and Authenticator, of which a nil one is
-- `none`, and the JSON codec and the hash of manifests.
use regstair.Base.{ℕ, Bool, Option, none, some, List, []}
use regstair.Strings.{Text, text_eq, codes}
use regstair.Errors.{Error, Result, Message}
use regstair.Effects.{Exec}
use regstair.Maps
use regstair.Maps.{Map}
use regstair.Identity.{Principal, anonymous}
use regstair.Registry.Types.{Bytes, Stream}
use regstair.Registry.Parse.{RawManifest}
use regstair.Content.Types.{BlobDescriptor}
use regstair.Metadata.Types.{Time}
use regstair.Resolution.Records.{PullRequest, PullResult, PushRequest, PushResult}
use regstair.Resolution.Pull.{BlobRequest, BlobResult}
use regstair.Security.FailureLimiter.{FailureLimiter}

pub record Authenticator (W : Type 0) : Type 0 where
  -- username, secret, repository and actions give a token and when it expires
  pub issue : Text → Text → Text → List Text → Exec W (Text × Time)
  -- token, repository and action give a principal, also next to an error
  pub authenticate : Text → Text → Text → W → (Principal × Option Error) × W

pub record Backend : Type 1 where
  pub World : Type 0
  pub puller : Option (PullRequest → Exec World PullResult)
  pub blob_puller : Option (BlobRequest → Exec World BlobResult)
  pub pusher : Option (PushRequest → Exec World PushResult)
  pub put_blob : Text → Stream → Exec World BlobDescriptor
  pub list_blobs : Exec World (List BlobDescriptor)
  pub authenticator : Option (Authenticator World)
  pub unmarshal : Bytes → Option RawManifest
  pub unmarshal_error : Bytes → Message
  pub digest_bytes : Bytes → Text

-- http.Request, as far as a handler reads it. A query value or a header that is not there is empty,
-- as Get gives it.
pub record Request : Type 0 where
  pub method : Text
  pub path : Text
  pub query : Map Text Text
  pub authorization : Text
  pub forwarded_proto : Text
  pub tls : Bool
  pub host : Text
  pub remote_address : Text
  -- BasicAuth
  pub basic_username : Text
  pub basic_secret : Text
  pub body : Stream

-- r.URL.Query().Get(key)
abbrev pub query_get : Request → Text → Text
query_get r key = elim (Maps.get r.query key) [ none ↦ [] | some value ↦ value ]

abbrev pub Headers : Type 0
Headers = Map Text Text

-- The body of an answer: the JSON texts of the gateway by what they hold.
pub data Body : Type 0 where
  empty : Body
  content : Bytes → Body
  -- code and message
  oci_error : Text → Message → Body
  -- token, expires_in and issued_at
  token : Text → ℕ → Time → Body

-- A status that is not written is 200.
pub record Response : Type 0 where
  pub status : ℕ
  pub headers : Headers
  pub body : Body

pub record UploadSession : Type 0 where
  pub repository : Text
  pub body : Bytes

-- What changes in a Server, with the state of what it calls.
pub record State (W : Type 0) : Type 0 where
  pub uploads : Map Text UploadSession
  pub next_id : ℕ
  pub limiter : Option FailureLimiter
  pub world : W

module _ {W A : Type 0} where
  -- A call of the backend.
  abbrev pub call : Exec W A → State W → Result A × State W
  call m st = let (r, w) = m st.world in (r, record st { world = w })

-- The times that a handler reads from the clock: of Allow, of Failure, of time.Until and time.Now.
pub record Instants : Type 0 where
  pub allowed_at : Time
  pub failed_at : Time
  pub until_at : Time
  pub issued_at : Time

-- requestPrincipal: the context has a principal if authenticate has put one there.
unfoldable pub request_principal : Option Principal → Principal
request_principal none = anonymous
request_principal (some principal) = principal

abbrev pub method_get : Text
method_get = codes "GET"

abbrev pub method_head : Text
method_head = codes "HEAD"

abbrev pub method_post : Text
method_post = codes "POST"

abbrev pub method_put : Text
method_put = codes "PUT"

abbrev pub method_patch : Text
method_patch = codes "PATCH"
