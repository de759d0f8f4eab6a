-- ===== src/Database/Administrators.antt =====
-- What the operations of internal/metadata/sqlite_security.go that add a user do
-- to the enabled administrators.
use regstair.Base.{
  ◌≤◌, ◌≡◌, refl, sym, subst, Bool, true, false, some, List, [], ◌∷◌, ◌++◌, nat_eq, arith, any,
  Bool-cases, inl, inr,
}
use regstair.Strings.{Text, text_eq, text_beq, text_beq_iff}
use regstair.Errors.{ok}
use regstair.Effects.Keeps.{
  IsPreorder, Keeps, KeepsAlways, Stays, stays_order, Keeps-then, Keeps-refuse, KeepsAlways-lift,
  KeepsAlways-refuse, KeepsAlways-then,
}
use regstair.Metadata.Types.{Time, User}
use regstair.Database.Records.{AuditEvent}
use regstair.Database.Tables.{
  Database, Faults, first_where, update_where, count_where, is_enabled_admin, user_clash, set_user,
  insert_user, write_user,
}
use regstair.Database.Rules.{Keeps-explained, KeepsAlways-transact, constrained_ok}
use regstair.Database.Growth.{Grows}
use regstair.Database.Counting.{count-append, count-none, count-update, count-update_one}
use regstair.Database.Statements.{select-kept, always, audit-kept}
use regstair.Database.Accounts.{
  has_id, require_enabled_admin, create_user_with_audit, bootstrap_admin, bootstrap_body, demotes,
}

-- Each id is of one user at most, and a user is an enabled administrator.
pub record IsGoverned (users : List User) : Type 0 where
  pub unique : (id : Text) → count_where (has_id id) users ≤ 1
  pub governed : 1 ≤ count_where is_enabled_admin users

abbrev pub Governed : Database → Type 0
Governed db = IsGoverned db.users

abbrev pub order : IsPreorder (Stays Governed)
order = stays_order Governed

pub quiet_Governed : (u v : Database) → Grows u v → v.users ≡ u.users → Stays Governed u v
quiet_Governed u v grows same wf = subst IsGoverned (sym same) wf

-- A user is added whose id no other has.
added_IsGoverned :
    (users : List User) (user : User)
    → any (user_clash user) users ≡ false
    → IsGoverned users
    → IsGoverned (users ++ user ∷ [])
added_IsGoverned users user new wf = record {
  unique = λ id. elim (Bool-cases (text_beq user.id id)) [
    | inl e ↦
        let same : user.id ≡ id = (text_beq_iff user.id id).0 e in
        let none_has : count_where (has_id user.id) users ≡ 0 =
          count-none (has_id user.id) (user_clash user) users (λ r h. ground (arith, h)) new in
        subst (λ i. count_where (has_id i) (users ++ user ∷ []) ≤ 1) same
          (ground (arith, none_has, count-append (has_id user.id) users user))
    | inr e ↦ ground (arith, e, wf.unique id, count-append (has_id id) users user)
  ];
  governed = ground (arith, wf.governed, count-append is_enabled_admin users user);
}

-- One user is updated: the ids stay, and an administrator who is demoted is not the last.
updated_IsGoverned :
    (users : List User) (p q : User → Bool) (user current : User)
    → first_where q users ≡ some current
    → p current ≡ true
    → count_where p users ≡ 1
    → (demotes current user ≡ true → 2 ≤ count_where is_enabled_admin users)
    → IsGoverned users
    → IsGoverned (update_where p (set_user user) users)
updated_IsGoverned users p q user current there hit one spared wf = record {
  unique = λ id.
      subst (λ n. n ≤ 1) (sym (count-update (has_id id) p (set_user user) users (λ r. refl)))
        (wf.unique id);
  governed =
      let counted =
        count-update_one is_enabled_admin p q (set_user user) (is_enabled_admin user) users current
          (λ r. refl) there hit one in
      ground (arith, counted, spared, wf.governed);
}

insert_user-Governed :
    (faults : Faults) (user : User) → Keeps (Stays Governed) (insert_user faults user)
unfolding insert_user
insert_user-Governed faults user = record {
  at = λ db a h wf.
      let (new, added) = constrained_ok _ _ faults _ db a h in
      subst Governed (sym added) (added_IsGoverned db.users user new wf);
}

-- An UPDATE of one user, where the one who is there is spared if need be.
pub write_user-Governed :
    (faults : Faults) (p q : User → Bool) (user current : User) (db : Database) (a : Unit {0})
    → (write_user faults p user db).0 ≡ ok a
    → first_where q db.users ≡ some current
    → p current ≡ true
    → count_where p db.users ≡ 1
    → (demotes current user ≡ true → 2 ≤ count_where is_enabled_admin db.users)
    → Governed db
    → Governed (write_user faults p user db).1
unfolding write_user
write_user-Governed faults p q user current db a h there hit one spared wf =
    let (_, changed) = constrained_ok _ _ faults _ db a h in
    subst Governed (sym changed)
      (updated_IsGoverned db.users p q user current there hit one spared wf)

module _ (faults : Faults) (now : Time) where
  pub require_kept : (id : Text) → Keeps (Stays Governed) (require_enabled_admin faults id)
  unfolding require_enabled_admin
  require_kept id =
      Keeps-then order _ _
        (Keeps-explained _ _
          (always order quiet_Governed _ (select-kept order quiet_Governed faults _)))
        λ count. Keeps-refuse order _ _

  pub create_user_with_audit-Governed :
      (user : User) (audit : AuditEvent)
      → KeepsAlways (Stays Governed) (create_user_with_audit faults now user audit)
  unfolding create_user_with_audit
  create_user_with_audit-Governed user audit =
      KeepsAlways-then order _ _ (KeepsAlways-lift order _) λ a.
        KeepsAlways-then order _ _ (KeepsAlways-lift order _) λ a.
          KeepsAlways-transact order faults _ _ _ (
            Keeps-then order _ _ (require_kept _) λ a.
              Keeps-then order _ _ (Keeps-explained _ _ (insert_user-Governed faults _))
                λ a. audit-kept order quiet_Governed faults audit now _)

  pub bootstrap_admin-Governed :
      (user : User) (audit : AuditEvent)
      → KeepsAlways (Stays Governed) (bootstrap_admin faults now user audit)
  unfolding bootstrap_admin bootstrap_body
  bootstrap_admin-Governed user audit = KeepsAlways-then order _ _ (KeepsAlways-lift order _) λ a.
      KeepsAlways-then order _ _ (KeepsAlways-refuse order _ _) λ a.
        KeepsAlways-then order _ _ (KeepsAlways-lift order _) λ a.
          KeepsAlways-transact order faults _ _ _ (
            Keeps-then order _ _
              (Keeps-explained _ _
                (always order quiet_Governed _ (select-kept order quiet_Governed faults _)))
              λ count. Keeps-then order _ _ (Keeps-refuse order _ _) λ a.
                Keeps-then order _ _ (Keeps-explained _ _ (insert_user-Governed faults _))
                  λ a. audit-kept order quiet_Governed faults audit now _)
