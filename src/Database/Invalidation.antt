-- ===== src/Database/Invalidation.antt =====
-- What ChangeUserPassword of internal/metadata/sqlite_security.go leaves of the sessions
-- and tokens of the user.
use regstair.Base.{
  ◌≡◌, refl, subst, sym, ◌∙◌, inl, inr, Bool, true, false, Option, none, some, List, [], ◌∷◌, ◌==◌,
  arith, Bool-cases, Option-cases, if◌then◌else◌,
}
use regstair.Strings.{Text, text_eq, text_beq_iff}
use regstair.Errors.{ok, err, Message, prefixed, Result-cases}
use regstair.Effects.{if_found}
use regstair.Effects.Keeps.{
  Keeps, Leaves, Leaves-first, Leaves-bind, Leaves-rest, Leaves-pure, Stays, stays_order,
  Keeps-then, Keeps-pure,
}
use regstair.Registry.Types.{Bytes}
use regstair.Metadata.Types.{Time, User, is_zero}
use regstair.Metadata.Memory.{next_updated_at}
use regstair.Database.Records.{DockerToken, WebSession, AuditEvent}
use regstair.Database.Tables.{
  Database, Faults, explained, checked, select, change, first_where, update_where,
}
use regstair.Database.Rules.{Keeps-explained, Keeps-checked, Leaves-checked, Leaves-transact}
use regstair.Database.Audit.{insert_audit_event}
use regstair.Database.Accounts.{
  change_user_password, change_found, revoke_all, revoke_session, revoke_token,
}

-- A row that a search behind an update finds has what the update gives every row.
first_where_update_all :
    {A : Type 0}
    → (Q : A → Type 0) (p q : A → Bool) (f : A → A) (rows : List A) (row : A)
    → ((r : A) → Q (if q r then f r else r))
    → first_where p (update_where q f rows) ≡ some row
    → Q row
unfolding first_where update_where
first_where_update_all Q p q f [] row all h = absurd (cc)
first_where_update_all Q p q f (r ∷ rows) row all h =
    elim (Bool-cases (p (if q r then f r else r))) [
      | inl e ↦
          let same : some (if q r then f r else r) ≡ some row = rw e at h in
          let here : (if q r then f r else r) ≡ row = cc in subst Q here (all r)
      | inr e ↦ first_where_update_all Q p q f rows row all (rw e at h)
    ]

abbrev pub session_of : Database → Bytes → Option WebSession
session_of db hash = first_where (λ (row : WebSession). row.token_hash == hash) db.web_sessions

abbrev pub token_of : Database → Bytes → Option DockerToken
token_of db hash = first_where (λ (row : DockerToken). row.token_hash == hash) db.docker_tokens

-- Every session and every token of the user that can be found is revoked.
pub record AllRevoked (user_id : Text) (db : Database) : Type 0 where
  pub sessions :
      (hash : Bytes) (session : WebSession)
      → session_of db hash ≡ some session
      → session.user_id ≡ user_id
      → is_zero session.revoked_at ≡ false
  pub tokens :
      (hash : Bytes) (token : DockerToken)
      → token_of db hash ≡ some token
      → token.user_id ≡ user_id
      → is_zero token.revoked_at ≡ false

revoke_all-AllRevoked :
    (user_id : Text) (at : Time) (db : Database)
    → is_zero at ≡ false
    → AllRevoked user_id (revoke_all user_id at db)
unfolding revoke_all
revoke_all-AllRevoked user_id at db later = record {
  sessions = λ hash session h.
      first_where_update_all
        (λ (s : WebSession). s.user_id ≡ user_id → is_zero s.revoked_at ≡ false) _ _
        (revoke_session at) db.web_sessions session
        (λ s own. ground (arith, later, own, text_beq_iff s.user_id user_id)) h;
  tokens = λ hash token h.
      first_where_update_all
        (λ (t : DockerToken). t.user_id ≡ user_id → is_zero t.revoked_at ≡ false) _ _
        (revoke_token at) db.docker_tokens token
        (λ t own. ground (arith, later, own, text_beq_iff t.user_id user_id)) h;
}

next_updated_at_later : (now current : Time) → is_zero (next_updated_at now current) ≡ false
unfolding next_updated_at
next_updated_at_later now current = ground arith

audit-Keeps :
    (user_id : Text) (faults : Faults) (audit : AuditEvent) (at : Time)
    → Keeps (Stays (AllRevoked user_id)) (insert_audit_event faults audit at)
unfolding insert_audit_event
audit-Keeps user_id faults audit at = Keeps-explained _ _ (
    Keeps-checked faults.audit_error _ (record {
      at = λ db a h revoked. record { sessions = revoked.sessions; tokens = revoked.tokens };
    }))

-- A user that was changed has nothing left that is not revoked.
abbrev Ended : Text → Option User → Database → Type 0
Ended user_id none db = Unit {0}
Ended user_id (some user) db = AllRevoked user_id db

change-Leaves :
    (faults : Faults) (user_id : Text) (at : Time)
    → is_zero at ≡ false
    → Leaves (λ a db. AllRevoked user_id db) (change faults (revoke_all user_id at))
unfolding change
change-Leaves faults user_id at later =
    Leaves-checked _ faults.write_error _
      (record { at = λ db a h. revoke_all-AllRevoked user_id at db later })

change_found-AllRevoked :
    (faults : Faults) (now expected : Time) (hash : Text) (audit : AuditEvent) (user : User)
    → Leaves (λ a db. AllRevoked user.id db) (change_found faults now expected hash audit user)
unfolding change_found
change_found-AllRevoked faults now expected hash audit user = Leaves-rest _ _ _ λ a.
    Leaves-rest _ _ _ λ a.
      Leaves-first (AllRevoked user.id) _ _
        (change-Leaves faults user.id _ (next_updated_at_later now user.updated_at))
        λ a.
          Keeps-then (stays_order (AllRevoked user.id)) _ _ (audit-Keeps user.id faults audit _)
            λ stored. Keeps-pure (stays_order (AllRevoked user.id)) _

pub first_where_holds :
    {A : Type 0}
    → (p : A → Bool) (rows : List A) (row : A) → first_where p rows ≡ some row
    → p row ≡ true
unfolding first_where
first_where_holds p [] row h = absurd (cc)
first_where_holds p (r ∷ rows) row h = ground (arith, first_where_holds p rows row, h)

pub select_value :
    {A : Type 0}
    → (faults : Faults) (f : Database → A) (db : Database) (a : A) → (select faults f db).0 ≡ ok a
    → a ≡ f db
unfolding select checked
select_value faults f db a h = elim (Option-cases faults.read_error) [
  | inl e ↦ let k : ok (f db) ≡ ok a = rw (select, e) at h in cc
  | inr (failed, e) ↦ let k : err failed ≡ ok a = rw (select, e) at h in absurd (cc)
]

-- What a search returns is what is there.
pub search_value :
    {A : Type 0}
    → (faults : Faults) (label : Message) (f : Database → A) (db : Database) (a : A)
    → (explained label (select faults f) db).0 ≡ ok a
    → a ≡ f db
unfolding explained
search_value faults label f db a h = elim (Result-cases (select faults f db).0) [
  | inl (b, e) ↦
      let k : ok b ≡ ok a = rw (explained, e) at h in
      let same : a ≡ b = cc in same ∙ select_value faults f db b e
  | inr (failed, e) ↦
      let k : err (prefixed label failed) ≡ ok a = rw (explained, e) at h in absurd (cc)
]

module _ (faults : Faults) (now : Time) (user_id : Text) (expected : Time) (hash : Text)
    (audit : AuditEvent) where
  found_Ended :
      (found : Option User)
      → ((user : User) → found ≡ some user → user.id ≡ user_id)
      → Leaves (Ended user_id) (if_found found (change_found faults now expected hash audit))
  unfolding if_found
  found_Ended none own = Leaves-pure _ none (λ db. tt)
  found_Ended (some user) own = record {
    at = λ db a h. ended a (
        subst (λ id. AllRevoked id (change_found faults now expected hash audit user db).1)
          (own user refl)
          ((change_found-AllRevoked faults now expected hash audit user).at db a h));
  }
    where
      ended : {db : Database} → (a : Option User) → AllRevoked user_id db → Ended user_id a db
      ended none revoked = tt
      ended (some u) revoked = revoked

  -- A change of the password that finds the user leaves no session and no token of the user that is
  -- not revoked.
  pub change_user_password-AllRevoked :
      (db : Database) (user : User)
      → (change_user_password faults now user_id expected hash audit db).0 ≡ ok (some user)
      → AllRevoked user_id (change_user_password faults now user_id expected hash audit db).1
  unfolding change_user_password
  change_user_password-AllRevoked db user h = leaves.at db (some user) h
    where
      leaves : Leaves (Ended user_id) (change_user_password faults now user_id expected hash audit)
      leaves = Leaves-rest _ _ _ λ a. Leaves-rest _ _ _ λ a. Leaves-transact _ faults _ _ _ (
          Leaves-bind _ _ _ λ db found e. found_Ended found λ user same.
            let searched = sym same ∙ select_value faults _ db found e in
            let p = first_where_holds _ db.users user (sym searched) in
            (text_beq_iff user.id user_id).0 (ground (arith, p)))
