-- ===== src/Lib.antt =====
-- Verification of the regstair registry gateway: a proxy before OCI registries that routes pulls
-- and pushes by policy, caches what it pulls, and keeps a record of what it does.
--
-- Parts and files. Base, Strings, Sorting, Maps and Errors are shared: Boolean tests and lists over
-- native numbers, Go's `strings` over code points, stable sorting, maps, and error values with the
-- sentinels that errors.Is finds in them. Effects is code with state and errors, a function from a
-- state to a result and the state after it; Effects/Rules has the rules to reason about it,
-- Effects/Keeps those for what it does to the state. Strings/Search looks for separators, folds
-- case and prints numbers.
--
-- Policy (internal/policy/policy.go) has the routing policy: Types its data, Normalize
-- NormalizeRepository, Patterns matchRepository, patternsOverlap and Rewrite.Apply, Validate
-- validateRoutes and its callees, Engine NewEngine, MatchRoute, ResolvePull and ResolvePush. A route
-- keeps its fields, `precedence` as a signed number.
--
-- Resolution (internal/resolution/pull.go, push.go) has the two resolvers. Services is the interface
-- of what they call: the content store, the metadata repository, the connectors and the clock. Records
-- has the events and records that Recording, the record… functions, writes, Cache tryCache, cacheManifest,
-- recordCacheBindings and authorizeCachedObject, Pull Pull and OpenBlob, Push Push. The body of a long
-- Go function is cut into named steps in the order of the code; a loop is a recursion over the list
-- that it ranges over, and `break`, `continue` and `return` are the three answers of its round.
-- Assembly fills Services by the components below, as the program's own tests do.
--
-- Metadata (internal/metadata/repository.go, cache_bindings.go) has MemoryRepository: Memory its
-- state, Users, Events, Tags and Bindings its methods, Steps what can happen to it.
--
-- Registry (internal/registry/connector.go, manifest.go) has FakeConnector and ParseManifest, Content
-- (internal/content/store.go) FileStore on the files of one directory, Identity
-- (internal/identity/principal.go) principals, and Auth (internal/auth/runtime_credentials.go,
-- auth.go) the selector that the resolvers ask for connectors and for leave to use the cache.
--
-- Gateway (internal/gateway/server.go) has the HTTP handlers: Types the request, the response and
-- the state with its upload sessions, Paths the paths and scopes, Answers what is written, Access the
-- bearer token and the token endpoint, Uploads and Server the handlers, ServeHTTP among them.
-- `gateway_over` puts the handlers on the resolvers as New of internal/app/app.go does. A body is the
-- chunks that its reader gives, and the error behind them if there is one.
--
-- Database (internal/metadata/sqlite_repository.go, sqlite_security.go, sqlite_cache_bindings.go,
-- security.go, internal/security/safe.go) has SQLiteRepository on its tables: Tables the rows and the
-- statements, Records the checks, Accounts, Users, Tokens, Sessions, Credentials and Audit the
-- operations on users and their credentials, Events the request events, Mappings the tag mappings,
-- provenance records and cache bindings, History sequences of the operations that write. There is one
-- connection, so that a transaction is one step, which leaves the tables alone unless it commits. A
-- statement filters, counts, orders or changes the rows that its WHERE picks; UNIQUE and FOREIGN KEY
-- constraints refuse it; that it fails for any other reason is the argument `Faults`. Columns that
-- hold JSON keep the lists and maps themselves.
--
-- Database/Selecting, Durations and Summing are about the queries of events next to the loops in
-- memory. Database/Mirror puts SQLiteRepository next to MemoryRepository: Relation says when the tables hold
-- what the maps hold, and when two answers are the same; Keyed is a map next to the table of its
-- values; Users, Insertion, Changes, Update, Renewal and Modification are about the users, Events about
-- the request events, Tags and Recording about tag mappings and provenance, Keys, Bindings and Caching
-- about the cache bindings; Calls has the calls as data, and what each repository answers to them,
-- Operations and Answers their proofs. The search for provenance is left out, since the two differ
-- where records have the same time, and so is BootstrapAdmin, which SQLiteRepository audits; and an
-- event is only asked for by an id above 0, since for others SQLiteRepository answers ErrInvalidRecord
-- and MemoryRepository neither an event nor an error.
--
-- Auth also has the services of internal/auth/accounts.go and oci_tokens.go over the interface
-- `SecurityRepository`, which the tables fill: DockerTokens, WebSessions, Administration, OciTokens.
-- SHA-256, the base64, JSON and HMAC of the tokens, the password hasher and the bytes of the random
-- reader are arguments, and so is each reading of the clock.
--
-- Security (internal/security/rate_limit.go) has the failure limiter of the logins: FailureLimiter its
-- methods, LimiterLaws what one call does, Operations calls one after the other, Waiting what they
-- leave of a wait, Window what those in one window leave of the entry of a key, Blocking those in a block.
--
-- Conventions. Strings are lists of code points, that is, texts of valid UTF-8. The tables of the
-- package `unicode` beyond Latin-1 are the argument `Unicode`; SHA-256, json.Unmarshal, the keyring and
-- the answers of the operating system are arguments too. Maps are association lists; where the code
-- ranges over a map, it sorts what it finds. Times are numbers of nanoseconds, 0 the zero time; a
-- duration is the difference of two readings of a clock that does not run backwards. A context shows as
-- the error of `ctx.Err()` where it is checked. The counters and sums of type int64 are numbers without
-- a bound, which they do not reach. Methods under a lock are atomic. Only the printing of a number has
-- fuel, the number itself, which is at least the count of its digits. Where ValidateAuditDetails
-- finds more than one fault, the order of the list decides which one is reported.
--
-- Not modelled: how the SQLite repository opens and migrates its file; the HTTP connector, which
-- stands behind its interface; the administration server, TLS, the keyring, the configuration file,
-- and the command.
pub mod Auth
pub mod Base
pub mod Content
pub mod Database
pub mod Effects
pub mod Errors
pub mod Gateway
pub mod Identity
pub mod Maps
pub mod Metadata
pub mod Policy
pub mod Registry
pub mod Resolution
pub mod Security
pub mod Sorting
pub mod Strings
