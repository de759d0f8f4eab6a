-- ===== src/Database/Audit.antt =====
-- The audit events of internal/metadata/sqlite_security.go.
use regstair.Base.{
  ℕ, ◌+◌, ◌&&◌, ◌||◌, Bool, List, [], ◌∷◌, ◌++◌, ◌==◌, nat_eq, ltb, take, if◌then◌else◌,
}
use regstair.Errors.{ok, wrap, lit, invalid_record}
use regstair.Effects.{Exec, fail, lift, ◌>>◌}
use regstair.Sorting.{sort}
use regstair.Metadata.Types.{Time, is_zero}
use regstair.Database.Records.{AuditEvent, validate_audit_event}
use regstair.Database.Tables.{Database, Faults, explained, checked, select}

-- The event as it is stored; its details are kept as JSON, which gives them back.
unfoldable pub dated_event : AuditEvent → Time → ℕ → AuditEvent
dated_event event fallback_time id = record event {
  id = id;
  timestamp = if is_zero event.timestamp then fallback_time else event.timestamp;
}

unfoldable pub insert_audit_event : Faults → AuditEvent → Time → Exec Database AuditEvent
insert_audit_event faults event fallback_time = explained (lit "insert audit event" ∷ []) (
    checked faults.audit_error λ db.
      let stored = dated_event event fallback_time db.next_audit_id in
      (
        ok stored,
        record db {
          audit_events = db.audit_events ++ stored ∷ [];
          next_audit_id = db.next_audit_id + 1;
        },
      ))

unfoldable pub record_audit_event : Faults → Time → AuditEvent → Exec Database AuditEvent
record_audit_event faults now event = do
  lift (validate_audit_event event)
  insert_audit_event faults event now

-- ORDER BY timestamp_nanos DESC, id DESC
abbrev pub newer : AuditEvent → AuditEvent → Bool
newer a b = ltb b.timestamp a.timestamp || a.timestamp == b.timestamp && ltb b.id a.id

-- For a limit of `int`, as a number where it is in range.
unfoldable pub list_audit_events : Faults → ℕ → Exec Database (List AuditEvent)
list_audit_events faults limit =
    if ltb limit 1 || ltb 100 limit
    then fail (wrap invalid_record (lit "audit limit must be between 1 and 100" ∷ []))
    else explained (lit "list audit events" ∷ [])
        (select faults λ db. take limit (sort newer db.audit_events))
