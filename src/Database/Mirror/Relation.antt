-- ===== src/Database/Mirror/Relation.antt =====
-- When the tables of internal/metadata/sqlite_repository.go hold what the repository of
-- internal/metadata/repository.go holds, and when two answers are the same.
use regstair.Base.{
  ◌≡◌, refl, ap, sym, subst, Bool, true, false, Option, none, some, List, [], ◌∷◌, All, arith, any,
  In, inl, inr, Bool-cases, Option-cases,
}
use regstair.Strings.{Text, text_eq}
use regstair.Errors.{Result, ok, err, ◌>>◌}
use regstair.Effects.{Exec, lift, ◌>>=◌}
use regstair.Maps.{Map, get, has, values}
use regstair.Metadata.Types.{User, TagMapping}
use regstair.Metadata.Memory.{Repository}
use regstair.Metadata.Tags.{tag_key}
use regstair.Metadata.TagLaws.{HasNoColon}
use regstair.Metadata.UsersAgree.{UsersAgree}
use regstair.Database.Tables.{Database, Faults, first_where}
use regstair.Metadata.Bindings.{cache_binding_key}
use regstair.Database.Mirror.Keyed.{IsKeyed}
use regstair.Database.Mirror.Keys.{IsPlainBinding}

abbrev pub user_key : User → Text
user_key user = user.id

abbrev pub mapping_key : TagMapping → Text
mapping_key mapping = tag_key mapping.logical_repository mapping.tag

pub record Mirrors (db : Database) (r : Repository) : Type 0 where
  pub users : db.users ≡ values r.users
  pub keyed : IsKeyed user_key r.users
  pub agree : UsersAgree r
  pub events : db.request_events ≡ r.events
  pub last : db.last_event_id ≡ r.next_event_id
  pub tags : db.tag_mappings ≡ values r.tags
  pub tags_keyed : IsKeyed mapping_key r.tags
  pub tags_plain : All (λ mapping. HasNoColon mapping.logical_repository) (values r.tags)
  pub provenance : db.provenance_records ≡ r.provenance
  pub bindings : db.cache_bindings ≡ values r.bindings
  pub bindings_keyed : IsKeyed cache_binding_key r.bindings
  pub bindings_plain : All IsPlainBinding (values r.bindings)

-- The same value, or errors in which errors.Is finds the same.
abbrev pub Agree : {A : Type 0} → Result A → Result A → Type 0
Agree (ok a) (ok b) = a ≡ b
Agree (err e) (err f) = e.wraps ≡ f.wraps
Agree (ok a) (err f) = ⊥
Agree (err e) (ok b) = ⊥

pub Agree-refl : {A : Type 0} → (r : Result A) → Agree r r
Agree-refl (ok a) = refl
Agree-refl (err e) = refl

pub Agree-same : {A : Type 0} → (r s : Result A) → r ≡ s → Agree r s
Agree-same r s e = subst (Agree r) e (Agree-refl r)

-- Statements that do not fail by themselves.
abbrev pub no_faults : Faults
no_faults = record {
  begin_error = none;
  read_error = none;
  write_error = none;
  audit_error = none;
  commit_error = none;
}

-- An operation behind its checks.
abbrev pub after_checks : {W A : Type 0} → Result (Unit {0}) → W → Result A × W → Result A × W
after_checks (err e) w o = (err e, w)
after_checks (ok a) w o = o

pub lift_twice :
    {A : Type 0}
    → (first second : Result (Unit {0})) (m : Exec Database A) (db : Database)
    → (lift first >>= λ a. lift second >>= λ b. m) db ≡ after_checks (first >> second) db (m db)
unfolding lift ◌>>=◌
lift_twice (err e) second m db = refl
lift_twice (ok a) (err e) m db = refl
lift_twice (ok a) (ok b) m db = refl

abbrev pub is_some : {A : Type 0} → Option A → Bool
is_some none = false
is_some (some a) = true

-- Two operations with the same answer that leave the same behind.
abbrev pub Corresponds : {A : Type 0} → Result A × Database → Result A × Repository → Type 0
Corresponds (answer, db) (answer', r) = Agree answer answer' × Mirrors db r

pub Corresponds-subst :
    {A : Type 0}
    → {o p : Result A × Database} {o' p' : Result A × Repository} → o ≡ p
    → o' ≡ p'
    → Corresponds p p'
    → Corresponds o o'
Corresponds-subst {A} {o} {p} {o'} {p'} e e' h =
    subst (λ x. Corresponds x o') (sym e) (subst (Corresponds p) (sym e') h)

pub after_checks-Corresponds :
    {A : Type 0}
    → (checks : Result (Unit {0})) (db : Database) (r : Repository) (o : Result A × Database)
      (o' : Result A × Repository)
    → Mirrors db r
    → (checks ≡ ok tt → Corresponds o o')
    → Corresponds (after_checks checks db o) (after_checks checks r o')
after_checks-Corresponds (err e) db r o o' m rest = (refl, m)
after_checks-Corresponds (ok a) db r o o' m rest = rest refl

pub has-get : {V : Type 0} → (m : Map Text V) (k : Text) → has m k ≡ is_some (get m k)
has-get m k = elim (Option-cases (get m k)) [
  | inl e ↦ rw (has, e) refl
  | inr (v, e) ↦ rw (has, e) refl
]

module _ {A : Type 0} (p : A → Bool) where
  pub first_where_only :
      (rows : List A) (row : A)
      → In row rows
      → p row ≡ true
      → ((w : A) → In w rows → p w ≡ true → w ≡ row)
      → first_where p rows ≡ some row
  unfolding first_where
  first_where_only [] row there hit only = absurd there
  first_where_only (w ∷ rows) row there hit only = elim (Bool-cases (p w)) [
    | inl e ↦ rw e (ap some (only w (inl refl) e))
    | inr e ↦ rw e (elim there [
      | inl here ↦ absurd (ground (arith, here, hit, e))
      | inr later ↦ first_where_only rows row later hit (λ v m. only v (inr m))
    ])
  ]

  pub first_where_missing :
      (rows : List A) → ((w : A) → In w rows → p w ≡ false) → first_where p rows ≡ none
  unfolding first_where
  first_where_missing [] none_there = refl
  first_where_missing (w ∷ rows) none_there =
      rw (none_there w (inl refl)) (first_where_missing rows (λ v m. none_there v (inr m)))

  pub any-first_where : (rows : List A) → any p rows ≡ is_some (first_where p rows)
  unfolding first_where
  any-first_where [] = refl
  any-first_where (w ∷ rows) = ground (arith, any-first_where rows)
