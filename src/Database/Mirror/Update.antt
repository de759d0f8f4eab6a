-- ===== src/Database/Mirror/Update.antt =====
-- UpdateUser of internal/metadata/sqlite_repository.go and of internal/metadata/repository.go, for the
-- rows of the one and the maps of the other.
use regstair.Base.{
  ◌≡◌, refl, ap, sym, ◌∙◌, Bool, true, false, Option, none, some, nat_eq, nat_beq, arith, any, In,
  inl, inr, Bool-cases, Option-cases,
}
use regstair.Strings.{Text, text_eq, text_beq, text_beq_iff}
use regstair.Errors.{ok, err}
use regstair.Effects.{Exec, pure, fail}
use regstair.Maps
use regstair.Maps.{values, get-put}
use regstair.Metadata.Types.{Time, User}
use regstair.Metadata.Memory.{Repository}
use regstair.Metadata.Users as M
use regstair.Database.Tables.{Database, first_where, update_where, count_where}
use regstair.Database.Accounts.{has_id}
use regstair.Database.Users as U
use regstair.Database.Mirror.Keyed.{In-get}
use regstair.Database.Mirror.Relation.{Mirrors, Corresponds, Corresponds-subst, user_key}
use regstair.Database.Mirror.Users.{first_id, row_owner}
use regstair.Database.Mirror.Changes.{
  any_none, count_none, update_none, any_one, version, written, other_owner, update_rows,
  behind_update, update_passed,
}

-- The update in memory behind its checks.
unfoldable pub memory_update : Time → User → Time → Exec Repository (Option User)
memory_update now user expected r = elim (Maps.get r.users user.id) [
  | none ↦ (ok none, r)
  | some current ↦ M.update_found now user expected current r
]

module _ (now : Time) (user : User) (expected : Time) (db : Database) (r : Repository)
    (m : Mirrors db r) where
  abbrev q : User → Bool
  q = version now user expected

  same_rows :
      update_where q (written now user expected) (values r.users) ≡ values r.users
      → Mirrors (behind_update now user expected db) r
  same_rows same = record {
    users = ap (update_where q (written now user expected)) m.users ∙ same;
    keyed = m.keyed;
    agree = m.agree;
    events = m.events;
    last = m.last;
    tags = m.tags;
    tags_keyed = m.tags_keyed;
    tags_plain = m.tags_plain;
    provenance = m.provenance;
    bindings = m.bindings;
    bindings_keyed = m.bindings_keyed;
    bindings_plain = m.bindings_plain;
  }

  -- Where no row has the version asked for.
  module _ (other : (w : User) → In w (values r.users) → q w ≡ false) where
    unchanged_rows : update_where q (written now user expected) (values r.users) ≡ values r.users
    unchanged_rows = update_none q (written now user expected) (values r.users) other

    update_other :
        update_rows now user expected db
        ≡ U.not_changed user (Maps.get r.users user.id) (behind_update now user expected db)
    update_other =
        let rows = values r.users in
        let none_has : any q db.users ≡ false = ap (any q) m.users ∙ any_none q rows other in
        let zero : nat_beq (count_where q db.users) 0 ≡ true =
          ap (λ us. nat_beq (count_where q us) 0) m.users
          ∙ ap (λ n. nat_beq n 0) (count_none q rows other) in
        let found : first_where (has_id user.id) (behind_update now user expected db).users
            ≡ Maps.get r.users user.id =
          first_id (behind_update now user expected db) r (same_rows unchanged_rows) user.id in
        update_passed now user expected db (ground (arith, none_has)) ∙ rw (zero, found) refl

  row_of_id : (w : User) → In w (values r.users) → q w ≡ true → Maps.get r.users user.id ≡ some w
  row_of_id w there hit =
      let same : w.id ≡ user.id = (text_beq_iff w.id user.id).0 (ground (arith, hit)) in
      ap (Maps.get r.users) (sym same) ∙ In-get user_key r.users w m.keyed there

  pub update_missing :
      Maps.get r.users user.id ≡ none
      → Corresponds (update_rows now user expected db) (memory_update now user expected r)
  unfolding memory_update U.not_changed pure
  update_missing e =
      let other : (w : User) → In w (values r.users) → q w ≡ false = λ w there.
        elim (Bool-cases (q w)) [
          | inr f ↦ f
          | inl f ↦ let clash : none ≡ some w = sym e ∙ row_of_id w there f in absurd (cc)
        ] in
      Corresponds-subst {p' = (ok none, r)}
        (update_other other ∙ ap (λ o. U.not_changed user o (behind_update now user expected db)) e)
        (rw (memory_update, e) refl) (refl, same_rows (unchanged_rows other))

  pub update_modified :
      (current : User)
      → Maps.get r.users user.id ≡ some current
      → nat_beq current.updated_at expected ≡ false
      → Corresponds (update_rows now user expected db) (memory_update now user expected r)
  unfolding memory_update M.update_found U.not_changed fail
  update_modified current e old =
      let other : (w : User) → In w (values r.users) → q w ≡ false = λ w there.
        elim (Bool-cases (q w)) [
          | inr f ↦ f
          | inl f ↦
              let same : some current ≡ some w = sym e ∙ row_of_id w there f in
              let here : current ≡ w = cc in
              let again : current.updated_at ≡ w.updated_at =
                ap (λ (u : User). u.updated_at) here in
              let hit : nat_beq w.updated_at expected ≡ true = ground (arith, f) in
              absurd (ground (arith, old, hit, again))
        ] in
      Corresponds-subst {p' = (err (M.modified user), r)}
        (update_other other ∙ ap (λ o. U.not_changed user o (behind_update now user expected db)) e)
        (rw (memory_update, e, M.update_found, old) refl) (refl, same_rows (unchanged_rows other))

  -- Where the row has the version asked for.
  module _ (current : User) (here : Maps.get r.users user.id ≡ some current)
      (fits : nat_beq current.updated_at expected ≡ true) where
    pub current_id : current.id ≡ user.id
    current_id = m.agree.keyed user.id current here

    pub current_fits : q current ≡ true
    current_fits = ground (arith, fits, text_beq_iff current.id user.id, current_id)

    pub current_there : In current (values r.users)
    current_there = Maps.get-In r.users user.id current here

    pub only_current : (w : User) → In w (values r.users) → q w ≡ true → w ≡ current
    only_current w there hit =
        let same : some w ≡ some current = sym (row_of_id w there hit) ∙ here in cc

    -- The rows with the username that are not to be written belong to another owner.
    others_free :
        Maps.get r.usernames user.username ≡ none
        → any (other_owner now user expected) (values r.users) ≡ false
    others_free free = any_none (other_owner now user expected) (values r.users) λ w there.
        elim (Bool-cases (text_beq w.username user.username)) [
          | inr e ↦ ground (arith, e)
          | inl e ↦
              let clash : none ≡ some w.id = sym free ∙ row_owner db r m user.username w there e in
              absurd (cc)
        ]

    others_own :
        Maps.get r.usernames user.username ≡ some user.id
        → any (other_owner now user expected) (values r.users) ≡ false
    others_own own = any_none (other_owner now user expected) (values r.users) λ w there.
        elim (Bool-cases (text_beq w.username user.username)) [
          | inr e ↦ ground (arith, e)
          | inl e ↦
              let owner : some w.id ≡ some user.id =
                sym (row_owner db r m user.username w there e) ∙ own in
              let stored : some w ≡ some current =
                sym (In-get user_key r.users w m.keyed there) ∙ ap (Maps.get r.users) (cc) ∙ here in
              let same : w ≡ current = cc in
              let hit : q w ≡ true = ap q same ∙ current_fits in ground (arith, hit)
        ]

    others_other :
        (owner : Text)
        → Maps.get r.usernames user.username ≡ some owner
        → text_beq owner user.id ≡ false
        → any (other_owner now user expected) (values r.users) ≡ true
    others_other owner e other =
        let (u, found, named) = m.agree.known user.username owner e in
        let id : u.id ≡ owner = m.agree.keyed owner u found in
        any_one (other_owner now user expected) (values r.users) u
          (Maps.get-In r.users owner u found)
          (ground (arith, other, id, text_beq_iff u.username user.username, named))

    pub others : any (other_owner now user expected) (values r.users) ≡ M.owned_by_other r user
    others = elim (Option-cases (Maps.get r.usernames user.username)) [
      | inl e ↦ others_free e ∙ sym (rw (M.owned_by_other, e) refl)
      | inr (owner, e) ↦ elim (Bool-cases (text_beq owner user.id)) [
        | inr f ↦ others_other owner e f ∙ sym (rw (M.owned_by_other, e, f) refl)
        | inl f ↦
            others_own (e ∙ ap some ((text_beq_iff owner user.id).0 f))
            ∙ sym (rw (M.owned_by_other, e, f) refl)
      ]
    ]
