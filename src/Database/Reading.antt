-- ===== src/Database/Reading.antt =====
-- How a block of internal/metadata/sqlite_security.go runs behind the steps that only
-- read, and what the checks of an update say.
use regstair.Base.{
  ◌≤◌, ◌≡◌, refl, sym, subst, ap, ◌∙◌, Bool, true, false, none, nat_eq, arith, Bool-cases,
  Option-cases, inl, inr,
}
use regstair.Strings.{text_eq}
use regstair.Errors.{Error, ok, err, Message, prefixed, Result-cases}
use regstair.Effects.{Exec, pure, fail, refuse, when, ◌>>=◌}
use regstair.Effects.Rules.{>>=_ok, >>=_run}
use regstair.Metadata.Types.{Time, User}
use regstair.Database.Tables.{
  Database, Faults, explained, checked, select, count_where, is_enabled_admin, write_user,
}
use regstair.Database.Invalidation.{select_value}
use regstair.Database.Accounts.{is_version, keep_administrator, update_version, demotes}

pub refuse_ok :
    (bad : Bool) (e : Error) (db : Database) (a : Unit {0})
    → (refuse bad e db).0 ≡ ok a
    → bad ≡ false
unfolding refuse fail pure
refuse_ok true e db a h = absurd (cc)
refuse_ok false e db a h = refl

pub refuse_state : (bad : Bool) (e : Error) (db : Database) → (refuse bad e db).1 ≡ db
unfolding refuse fail pure
refuse_state true e db = refl
refuse_state false e db = refl

pub select_state :
    {A : Type 0}
    → (faults : Faults) (f : Database → A) (db : Database) → (select faults f db).1 ≡ db
unfolding select checked
select_state faults f db = elim (Option-cases faults.read_error) [
  | inl e ↦ rw (select, e) refl
  | inr (failed, e) ↦ rw (select, e) refl
]

-- A block that returns behind a read goes on with what is there.
pub select_run :
    {A B : Type 0}
    → (faults : Faults) (f : Database → A) (g : A → Exec Database B) (db : Database) (b : B)
    → ((select faults f >>= g) db).0 ≡ ok b
    → (select faults f >>= g) db ≡ g (f db) db
select_run faults f g db b h =
    let (a, e, _) = >>=_ok (select faults f) g db b h in
    let value = select_value faults f db a e in
    >>=_run (select faults f) g db a e
    ∙ ap (g a) (select_state faults f db)
    ∙ ap (λ x. g x db) value

-- A block that returns behind a guard goes on, and the guard did not refuse.
pub refuse_run :
    {B : Type 0}
    → (bad : Bool) (e : Error) (g : Unit {0} → Exec Database B) (db : Database) (b : B)
    → ((refuse bad e >>= g) db).0 ≡ ok b
    → ((refuse bad e >>= g) db ≡ g tt db) × (bad ≡ false)
refuse_run bad e g db b h =
    let (a, k, _) = >>=_ok (refuse bad e) g db b h in
    (>>=_run (refuse bad e) g db a k ∙ ap (g a) (refuse_state bad e db), refuse_ok bad e db a k)

pub explained_ok :
    {A : Type 0}
    → (label : Message) (m : Exec Database A) (db : Database) (a : A)
    → (explained label m db).0 ≡ ok a
    → ((m db).0 ≡ ok a) × ((explained label m db).1 ≡ (m db).1)
unfolding explained
explained_ok label m db a h = elim (Result-cases (m db).0) [
  | inl (b, e) ↦ let k : ok b ≡ ok a = rw (explained, e) at h in (e ∙ k, refl)
  | inr (failed, e) ↦
      let k : err (prefixed label failed) ≡ ok a = rw (explained, e) at h in absurd (cc)
]

-- What a block leaves that returns, from what its rest leaves.
pub bind_at :
    {A B : Type 0}
    → (Q : Database → Type 0) (m : Exec Database A) (f : A → Exec Database B) (db : Database)
      (b : B)
    → ((m >>= f) db).0 ≡ ok b
    → ((a : A) → (m db).0 ≡ ok a → (f a (m db).1).0 ≡ ok b → Q (f a (m db).1).1)
    → Q ((m >>= f) db).1
bind_at Q m f db b h rest =
    let (a, e, k) = >>=_ok m f db b h in subst (λ o. Q o.1) (sym (>>=_run m f db a e)) (rest a e k)

-- The same behind a guard.
pub guard_at :
    {B : Type 0}
    → (Q : Database → Type 0) (bad : Bool) (e : Error) (g : Unit {0} → Exec Database B)
      (db : Database) (b : B)
    → ((refuse bad e >>= g) db).0 ≡ ok b
    → (bad ≡ false → (g tt db).0 ≡ ok b → Q (g tt db).1)
    → Q ((refuse bad e >>= g) db).1
guard_at Q bad e g db b h rest =
    let (run, fresh) = refuse_run bad e g db b h in
    subst (λ o. Q o.1) (sym run) (rest fresh (sym (ap (λ o. o.0) run) ∙ h))

-- A step that gives what a search finds and changes nothing.
abbrev pub IsSearch : {A : Type 0} → Exec Database A → (Database → A) → Type 0
IsSearch {A} m f = (db : Database) (a : A) → (m db).0 ≡ ok a → (a ≡ f db) × ((m db).1 ≡ db)

pub select-IsSearch :
    {A : Type 0} → (faults : Faults) (f : Database → A) → IsSearch (select faults f) f
select-IsSearch faults f db a h = (select_value faults f db a h, select_state faults f db)

pub explained-IsSearch :
    {A : Type 0}
    → (label : Message) (m : Exec Database A) (f : Database → A) → IsSearch m f
    → IsSearch (explained label m) f
explained-IsSearch label m f search db a h =
    let (returned, state) = explained_ok label m db a h in
    let (value, same) = search db a returned in (value, state ∙ same)

module _ (faults : Faults) where
  -- The check of the last administrator reads, and lets a demotion through if there are two.
  pub keep_administrator_ok :
      (current user : User) (db : Database) (a : Unit {0})
      → (keep_administrator faults current user db).0 ≡ ok a
      → ((keep_administrator faults current user db).1 ≡ db)
        × (demotes current user ≡ true → 2 ≤ count_where is_enabled_admin db.users)
  unfolding keep_administrator when pure
  keep_administrator_ok current user db a h = elim (Bool-cases (demotes current user)) [
    | inr e ↦ (rw (keep_administrator, when, e) refl, λ k. absurd (ground (arith, e, k)))
    | inl e ↦
        let run = select_run faults _ _ db a (rw (keep_administrator, when, e) at h) in
        let passed =
          refuse_ok _ _ db a
            (sym (ap (λ outcome. outcome.0) run) ∙ rw (keep_administrator, when, e) at h) in
        (
          rw (keep_administrator, when, e) (ap (λ outcome. outcome.1) run ∙ refuse_state _ _ db),
          λ k. ground (arith, passed),
        )
  ]

  -- The UPDATE that changes one row.
  pub update_version_ok :
      (user : User) (expected : Time) (db : Database) (a : Unit {0})
      → (update_version faults user expected db).0 ≡ ok a
      → (count_where (is_version user.id expected) db.users ≡ 1)
        × ((b : Unit {0}) × ((write_user faults (is_version user.id expected) user db).0 ≡ ok b))
        × ((update_version faults user expected db).1
            ≡ (write_user faults (is_version user.id expected) user db).1)
  unfolding update_version
  update_version_ok user expected db a h =
      let run = select_run (record faults { read_error = none }) _ _ db a h in
      let h' = sym (ap (λ outcome. outcome.0) run) ∙ h in
      let (b, written, passed) = >>=_ok _ _ db a h' in
      let (write, state) = explained_ok _ _ db b written in
      let one = refuse_ok _ _ _ a passed in
      (
        ground (arith, one),
        (b, write),
        ap (λ outcome. outcome.1) run
            ∙ ap (λ outcome. outcome.1) (>>=_run _ _ db b written)
            ∙ refuse_state _ _ _
            ∙ state,
      )
