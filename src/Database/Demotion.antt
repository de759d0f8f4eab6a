-- ===== src/Database/Demotion.antt =====
-- What UpdateUserSecurity and ChangeUserPassword of internal/metadata/sqlite_security.go
-- do to the enabled administrators.
use regstair.Base.{
  ◌≤◌, ◌≡◌, refl, sym, subst, ap, ◌∙◌, ◌&&◌, ◌||◌, Bool, true, Option, some, ◌==◌, nat_eq, arith,
  Option-cases, inl, inr,
}
use regstair.Strings.{Text, text_eq, text_beq_iff}
use regstair.Errors.{ok}
use regstair.Effects.{Exec, pure, when, if_found, ◌>>=◌}
use regstair.Effects.Keeps.{
  Keeps, KeepsAlways, Stays, Keeps-then, Keeps-when, KeepsAlways-lift, KeepsAlways-refuse,
  KeepsAlways-then,
}
use regstair.Metadata.Types.{Time, User}
use regstair.Database.Records.{AuditEvent}
use regstair.Database.Tables.{Database, Faults, change, first_where, count_where, is_enabled_admin}
use regstair.Database.Rules.{KeepsAlways-transact}
use regstair.Database.Growth.{revoke_all-Grows}
use regstair.Database.Audit.{insert_audit_event}
use regstair.Database.Counting.{count-le, count-first}
use regstair.Database.Statements.{change-kept, always, audit-kept}
use regstair.Database.Invalidation.{first_where_holds}
use regstair.Database.Reading.{
  bind_at, guard_at, IsSearch, select-IsSearch, explained-IsSearch, keep_administrator_ok,
  update_version_ok,
}
use regstair.Database.Administrators.{
  Governed, order, quiet_Governed, write_user-Governed, require_kept,
}
use regstair.Database.Accounts.{
  has_id, is_version, update_current, update_user_security, change_found, change_user_password,
  demotes, revoke_all,
}

-- A block that works on what a search finds.
found_kept :
    {A B : Type 0}
    → (m : Exec Database (Option A)) (f : Database → Option A) (g : A → Exec Database (Option B))
    → IsSearch m f
    → ((db : Database) (x : A) (b : Option B)
        → f db ≡ some x
        → (g x db).0 ≡ ok b
        → Governed db
        → Governed (g x db).1)
    → Keeps (Stays Governed) (m >>= λ found. if_found found g)
unfolding if_found pure
found_kept m f g search rest = record {
  at = λ db b h wf.
      bind_at Governed m (λ found. if_found found g) db b h
        λ found e k.
          let (value, same) = search db found e in
          let before = subst Governed (sym same) wf in
          elim (Option-cases found) [
            | inl n ↦ rw (n) before
            | inr (x, y) ↦
                rw (y) (rest (m db).1 x b (ap f same ∙ sym value ∙ y) (rw (y) at k) before)
          ];
}

module _ (faults : Faults) (now : Time) (audit : AuditEvent) where
  revoke_kept :
      (user_id : Text) (at : Time) → Keeps (Stays Governed) (change faults (revoke_all user_id at))
  unfolding revoke_all
  revoke_kept user_id at = always order quiet_Governed _ (
      change-kept order quiet_Governed faults _
        λ db. quiet_Governed db _ (revoke_all-Grows user_id at db) refl)

  -- What follows the UPDATE of a user.
  ending_kept :
      {A : Type 0}
      → (again : Bool) (user_id : Text) (at : Time) (a : A)
      → Keeps (Stays Governed) (
          when again (change faults (revoke_all user_id at)) >>= λ t.
          insert_audit_event faults audit at >>= λ stored. pure a)
  ending_kept again user_id at a =
      Keeps-then order _ _ (Keeps-when order _ _ (revoke_kept user_id at))
        λ t. audit-kept order quiet_Governed faults audit at a

  update_current-Governed :
      (user current : User) (expected : Time) (invalidate : Bool) (db : Database) (a : Option User)
      → first_where (has_id user.id) db.users ≡ some current
      → (update_current faults now user expected invalidate audit current db).0 ≡ ok a
      → Governed db
      → Governed (update_current faults now user expected invalidate audit current db).1
  unfolding update_current
  update_current-Governed user current expected invalidate db a there h wf =
      guard_at Governed _ _ _ db a h λ fresh h1. bind_at Governed _ _ db a h1 λ t kept h2.
        let (still, spared) = keep_administrator_ok faults current user db t kept in
        let found =
          subst (λ d. first_where (has_id user.id) d.users ≡ some current) (sym still) there in
        let spares =
          subst (λ d. demotes current user ≡ true → 2 ≤ count_where is_enabled_admin d.users)
            (sym still) spared in
        let before = subst Governed (sym still) wf in
        let hit : is_version user.id expected current ≡ true =
          ground (arith, fresh, first_where_holds (has_id user.id) db.users current there) in
        bind_at Governed _ _ _ a h2 λ u written h3.
          let (one, (b, write), state) = update_version_ok faults _ expected _ u written in
          let after =
            write_user-Governed faults _ (has_id user.id) _ current _ b write found hit one spares
              before in
          (ending_kept invalidate user.id _ _).at _ a h3 (subst Governed (sym state) after)

  change_found-Governed :
      (user_id : Text) (open_too : Bool) (user : User) (expected : Time) (hash : Text)
      (db : Database) (a : Option User)
      → first_where (λ (row : User). row.id == user_id && (open_too || row.enabled)) db.users
        ≡ some user
      → (change_found faults now expected hash audit user db).0 ≡ ok a
      → Governed db
      → Governed (change_found faults now expected hash audit user db).1
  unfolding change_found
  change_found-Governed user_id open_too user expected hash db a there h wf =
      guard_at Governed _ _ _ db a h λ fresh h1. bind_at Governed _ _ db a h1 λ t write h2.
        let hit : is_version user.id expected user ≡ true =
          ground (arith, fresh, (text_beq_iff user.id user.id).1 refl) in
        let most : count_where (is_version user.id expected) db.users
            ≤ count_where (has_id user.id) db.users =
          count-le _ _ db.users (λ r k. ground (arith, k)) in
        let least : 1 ≤ count_where (is_version user.id expected) db.users =
          count-first _ _ db.users user there hit in
        let one : count_where (is_version user.id expected) db.users ≡ 1 =
          ground (arith, most, least, wf.unique user.id) in
        let after =
          write_user-Governed faults _ _ _ user db t write there hit one
            (λ k. absurd (ground (arith, k))) wf in
        (Keeps-then order _ _ (revoke_kept user.id _)
            λ u. audit-kept order quiet_Governed faults audit _ _).at
          _ a h2 after

  pub update_user_security-Governed :
      (user : User) (expected : Time) (invalidate : Bool)
      → KeepsAlways
          (Stays Governed)
          (update_user_security faults now user expected invalidate audit)
  unfolding update_user_security
  update_user_security-Governed user expected invalidate =
      KeepsAlways-then order _ _ (KeepsAlways-lift order _) λ a.
        KeepsAlways-then order _ _ (KeepsAlways-lift order _) λ a.
          KeepsAlways-transact order faults _ _ _ (
            Keeps-then order _ _ (require_kept faults now _) λ a.
              found_kept _ _ _ (explained-IsSearch _ _ _ (select-IsSearch faults _))
                λ db current b found.
                  update_current-Governed user current expected invalidate db b found)

  pub change_user_password-Governed :
      (id : Text) (expected : Time) (hash : Text)
      → KeepsAlways (Stays Governed) (change_user_password faults now id expected hash audit)
  unfolding change_user_password
  change_user_password-Governed id expected hash =
      KeepsAlways-then order _ _ (KeepsAlways-refuse order _ _) λ a.
        KeepsAlways-then order _ _ (KeepsAlways-lift order _) λ a.
          KeepsAlways-transact order faults _ _ _ (
            found_kept _ _ _ (select-IsSearch faults _)
              λ db user b found. change_found-Governed id _ user expected hash db b found)
