-- ===== src/Database/Tables.antt =====
-- The tables, and what the statements are made of. The database has one connection, so that a
-- transaction is one step; one that does not commit leaves the tables alone. What the database
-- itself may answer to a statement is in `Faults`.
use regstair.Base.{
  ℕ, ◌+◌, Bool, ◌&&◌, ◌||◌, not, Option, none, some, List, [], ◌∷◌, ◌++◌, ◌==◌, any, if◌then◌else◌,
}
use regstair.Strings.{Text, text_eq}
use regstair.Errors.{Error, Result, ok, err, Message, plain_error, prefixed, lit}
use regstair.Effects.{Exec}
use regstair.Metadata.Types.{
  User, RequestEvent, ProvenanceRecord, TagMapping, CacheBinding, access_admin,
}
use regstair.Auth.Selector.{RegistryCredential}
use regstair.Database.Records.{DockerToken, WebSession, AuditEvent}

pub record Database : Type 0 where
  pub users : List User
  pub docker_tokens : List DockerToken
  pub web_sessions : List WebSession
  pub registry_credentials : List RegistryCredential
  pub audit_events : List AuditEvent
  pub next_audit_id : ℕ
  pub request_events : List RequestEvent
  pub last_event_id : ℕ
  pub provenance_records : List ProvenanceRecord
  pub tag_mappings : List TagMapping
  pub cache_bindings : List CacheBinding

-- The errors of BEGIN, of a SELECT, of a change of a table, of the INSERT of an audit event and of
-- COMMIT, where they fail for a reason outside the tables.
pub record Faults : Type 0 where
  pub begin_error : Option Error
  pub read_error : Option Error
  pub write_error : Option Error
  pub audit_error : Option Error
  pub commit_error : Option Error

-- An empty label adds nothing.
abbrev pub labelled : Message → Error → Error
labelled [] e = e
labelled (part ∷ parts) e = prefixed (part ∷ parts) e

module _ {W A : Type 0} where
  -- if err != nil { return fmt.Errorf("…: %w", err) }
  unfoldable pub explained : Message → Exec W A → Exec W A
  explained label m w =
      let (r, w') = m w in (elim r [ ok a ↦ ok a | err e ↦ err (prefixed label e) ], w')

  -- A statement that may fail.
  unfoldable pub checked : Option Error → Exec W A → Exec W A
  checked none m w = m w
  checked (some e) m w = (err e, w)

  -- A statement that a constraint refuses in some states.
  unfoldable pub constrained : (W → Bool) → Error → Exec W A → Exec W A
  constrained refuses e m w = if refuses w then (err e, w) else m w

  -- What a transaction leaves of what it did.
  unfoldable pub settle : Option Error → Message → W → Result A × W → Result A × W
  settle failed label w (err e, w') = (err e, w)
  settle none label w (ok a, w') = (ok a, w')
  settle (some e) label w (ok a, w') = (err (labelled label e), w)

  -- BeginTx, the body, Commit; Rollback behind any error.
  unfoldable pub transact : Faults → Message → Message → Exec W A → Exec W A
  transact faults begin commit m w = elim faults.begin_error [
    | some e ↦ (err (labelled begin e), w)
    | none ↦ settle faults.commit_error commit w (m w)
  ]

-- SELECT
unfoldable pub select : {A : Type 0} → Faults → (Database → A) → Exec Database A
select faults f db = checked faults.read_error (λ db. (ok (f db), db)) db

-- A change that returns what it gives.
unfoldable pub change : Faults → (Database → Database) → Exec Database (Unit {0})
change faults f db = checked faults.write_error (λ db. (ok tt, f db)) db

module _ {A : Type 0} where
  -- The first row of a SELECT.
  unfoldable pub first_where : (A → Bool) → List A → Option A
  first_where p [] = none
  first_where p (row ∷ rows) = if p row then some row else first_where p rows

  -- UPDATE … SET f WHERE p
  unfoldable pub update_where : (A → Bool) → (A → A) → List A → List A
  update_where p f [] = []
  update_where p f (row ∷ rows) =
      let rest = update_where p f rows in (if p row then f row else row) ∷ rest

  -- SELECT COUNT(*) … WHERE p
  unfoldable pub count_where : (A → Bool) → List A → ℕ
  count_where p [] = 0
  count_where p (row ∷ rows) = let rest = count_where p rows in if p row then rest + 1 else rest

-- enabled = 1 AND access = 'admin'
abbrev pub is_enabled_admin : User → Bool
is_enabled_admin user = user.enabled && user.access == access_admin

abbrev pub unique_failed : Error
unique_failed = plain_error (lit "UNIQUE constraint failed" ∷ [])

abbrev pub foreign_failed : Error
foreign_failed = plain_error (lit "FOREIGN KEY constraint failed" ∷ [])

-- The constraints that a row of each table meets. The CHECKs hold by the validations.
abbrev pub user_clash : User → User → Bool
user_clash user row = row.id == user.id || row.username == user.username

abbrev pub has_user : Text → Database → Bool
has_user id db = any (λ (row : User). row.id == id) db.users

-- INSERT INTO users
unfoldable pub insert_user : Faults → User → Exec Database (Unit {0})
insert_user faults user =
    constrained (λ db. any (user_clash user) db.users) unique_failed
      (change faults λ db. record db { users = db.users ++ user ∷ [] })

-- The fields of a user that an UPDATE sets.
abbrev pub set_user : User → User → User
set_user user row = record user { id = row.id; created_at = row.created_at }

-- An UPDATE of the users that are asked for keeps the username unique.
unfoldable pub write_user : Faults → (User → Bool) → User → Exec Database (Unit {0})
write_user faults p user =
    constrained
      (λ db.
        any (λ (row : User). row.username == user.username && not (p row)) db.users
        && any p db.users)
      unique_failed
      (change faults λ db. record db { users = update_where p (set_user user) db.users })
