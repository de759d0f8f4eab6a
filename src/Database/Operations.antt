-- ===== src/Database/Operations.antt =====
-- What the operations on the users of internal/metadata/sqlite_security.go do to
-- revocations.
use regstair.Base.{Bool}
use regstair.Strings.{Text, text_eq}
use regstair.Errors.{Error, Result, Message}
use regstair.Effects.{Exec, pure, lift, refuse, ◌>>=◌}
use regstair.Effects.Keeps.{
  Keeps, KeepsAlways, Keeps-then, Keeps-refuse, Keeps-when, Keeps-if_found, KeepsAlways-lift,
  KeepsAlways-refuse, KeepsAlways-then,
}
use regstair.Metadata.Types.{Time, User}
use regstair.Database.Records.{AuditEvent}
use regstair.Database.Tables.{Database, Faults, explained, select}
use regstair.Database.Rules.{Keeps-explained, KeepsAlways-transact}
use regstair.Database.Growth.{
  Grows, Grows-order, Grows-select, Grows-change, insert_user-Grows, write_user-Grows,
  revoke_all-Grows,
}
use regstair.Database.Accounts.{
  require_enabled_admin, create_user_with_audit, bootstrap_admin, bootstrap_body,
  keep_administrator, update_version, update_current, update_user_security, change_found,
  change_user_password,
}
use regstair.Database.Audit.{insert_audit_event}
use regstair.Database.Audit.{insert_audit_event}
use regstair.Database.Statements.{audit-kept}

-- A step that only reads, a guard, or the end.
reads_only :
    {A : Type 0}
    → (faults : Faults) (label : Message) (f : Database → A)
    → Keeps Grows (explained label (select faults f))
reads_only faults label f = Keeps-explained _ _ (Grows-select faults f)

module _ {A B : Type 0} where
  -- The next step of a block.
  then-Grows :
      (m : Exec Database A) (f : A → Exec Database B)
      → Keeps Grows m
      → ((a : A) → Keeps Grows (f a))
      → Keeps Grows (m >>= f)
  then-Grows = Keeps-then Grows-order

  then_always :
      (m : Exec Database A) (f : A → Exec Database B)
      → KeepsAlways Grows m
      → ((a : A) → KeepsAlways Grows (f a))
      → KeepsAlways Grows (m >>= f)
  then_always = KeepsAlways-then Grows-order

module _ {B : Type 0} where
  guard-Grows :
      (bad : Bool) (e : Error) (f : Unit {0} → Exec Database B)
      → ((a : Unit {0}) → Keeps Grows (f a))
      → Keeps Grows (refuse bad e >>= f)
  guard-Grows bad e f rest = then-Grows _ f (Keeps-refuse Grows-order bad e) rest

  check_always :
      {A : Type 0}
      → (r : Result A) (f : A → Exec Database B) → ((a : A) → KeepsAlways Grows (f a))
      → KeepsAlways Grows (lift r >>= f)
  check_always r f rest = then_always _ f (KeepsAlways-lift Grows-order r) rest

module _ (faults : Faults) (now : Time) where
  audit-Grows :
      {A : Type 0}
      → (audit : AuditEvent) (at : Time) (a : A)
      → Keeps Grows (insert_audit_event faults audit at >>= λ stored. pure a)
  audit-Grows audit at a = audit-kept Grows-order (λ u v grows users. grows) faults audit at a

  require_enabled_admin-Grows : (id : Text) → Keeps Grows (require_enabled_admin faults id)
  unfolding require_enabled_admin
  require_enabled_admin-Grows id =
      then-Grows _ _ (reads_only faults _ _) λ count. Keeps-refuse Grows-order _ _

  pub create_user_with_audit-Grows :
      (user : User) (audit : AuditEvent)
      → KeepsAlways Grows (create_user_with_audit faults now user audit)
  unfolding create_user_with_audit
  create_user_with_audit-Grows user audit = check_always _ _ λ a. check_always _ _ λ a.
      KeepsAlways-transact Grows-order faults _ _ _ (
        then-Grows _ _ (require_enabled_admin-Grows _) λ a.
          then-Grows _ _ (Keeps-explained _ _ (insert_user-Grows faults _))
            λ a. audit-Grows audit now _)

  pub bootstrap_admin-Grows :
      (user : User) (audit : AuditEvent) → KeepsAlways Grows (bootstrap_admin faults now user audit)
  unfolding bootstrap_admin bootstrap_body
  bootstrap_admin-Grows user audit = check_always _ _ λ a.
      then_always _ _ (KeepsAlways-refuse Grows-order _ _) λ a. check_always _ _ λ a.
        KeepsAlways-transact Grows-order faults _ _ _ (
          then-Grows _ _ (reads_only faults _ _) λ count. guard-Grows _ _ _ λ a.
            then-Grows _ _ (Keeps-explained _ _ (insert_user-Grows faults _))
              λ a. audit-Grows audit now _)

  keep_administrator-Grows :
      (current user : User) → Keeps Grows (keep_administrator faults current user)
  unfolding keep_administrator
  keep_administrator-Grows current user =
      Keeps-when Grows-order _ _
        (then-Grows _ _ (Grows-select faults _) λ admins. Keeps-refuse Grows-order _ _)

  update_version-Grows :
      (user : User) (expected : Time) → Keeps Grows (update_version faults user expected)
  unfolding update_version
  update_version-Grows user expected = then-Grows _ _ (Grows-select _ _) λ changed.
      then-Grows _ _ (Keeps-explained _ _ (write_user-Grows faults _ _))
        λ a. Keeps-refuse Grows-order _ _

  update_current-Grows :
      (user : User) (expected : Time) (invalidate : Bool) (audit : AuditEvent) (current : User)
      → Keeps Grows (update_current faults now user expected invalidate audit current)
  unfolding update_current
  update_current-Grows user expected invalidate audit current = guard-Grows _ _ _ λ a.
      then-Grows _ _ (keep_administrator-Grows current user) λ a.
        then-Grows _ _ (update_version-Grows _ expected) λ a.
          then-Grows _ _
            (Keeps-when Grows-order _ _ (Grows-change faults _ (revoke_all-Grows user.id _)))
            λ a. audit-Grows audit _ _

  pub update_user_security-Grows :
      (user : User) (expected : Time) (invalidate : Bool) (audit : AuditEvent)
      → KeepsAlways Grows (update_user_security faults now user expected invalidate audit)
  unfolding update_user_security
  update_user_security-Grows user expected invalidate audit = check_always _ _ λ a.
      check_always _ _ λ a. KeepsAlways-transact Grows-order faults _ _ _ (
        then-Grows _ _ (require_enabled_admin-Grows _) λ a.
          then-Grows _ _ (reads_only faults _ _) λ found.
            Keeps-if_found Grows-order _ _
              λ current. update_current-Grows user expected invalidate audit current)

  change_found-Grows :
      (expected : Time) (hash : Text) (audit : AuditEvent) (user : User)
      → Keeps Grows (change_found faults now expected hash audit user)
  unfolding change_found
  change_found-Grows expected hash audit user = guard-Grows _ _ _ λ a.
      then-Grows _ _ (write_user-Grows faults _ _) λ a.
        then-Grows _ _ (Grows-change faults _ (revoke_all-Grows user.id _))
          λ a. audit-Grows audit _ _

  pub change_user_password-Grows :
      (id : Text) (expected : Time) (hash : Text) (audit : AuditEvent)
      → KeepsAlways Grows (change_user_password faults now id expected hash audit)
  unfolding change_user_password
  change_user_password-Grows id expected hash audit =
      then_always _ _ (KeepsAlways-refuse Grows-order _ _) λ a. check_always _ _ λ a.
        KeepsAlways-transact Grows-order faults _ _ _ (
          then-Grows _ _ (Grows-select faults _) λ found.
            Keeps-if_found Grows-order _ _ λ user. change_found-Grows expected hash audit user)
