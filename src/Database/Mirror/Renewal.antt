-- ===== src/Database/Mirror/Renewal.antt =====
-- UpdateUser of internal/metadata/sqlite_repository.go and of internal/metadata/repository.go, for the
-- version of the user that is there.
use regstair.Base.{
  ◌≡◌, refl, ap, sym, ◌∙◌, ◌&&◌, Bool, true, false, some, nat_eq, nat_beq, nat_beq_iff, arith, any,
}
use regstair.Strings.{text_eq, text_beq_iff}
use regstair.Errors.{ok, err}
use regstair.Effects.{pure}
use regstair.Maps
use regstair.Maps.{values, get-put}
use regstair.Metadata.Types.{Time, User}
use regstair.Metadata.Memory.{Repository, next_updated_at}
use regstair.Metadata.Users as M
use regstair.Metadata.UsersAgree.{UsersAgree}
use regstair.Database.Tables.{Database, update_where, count_where}
use regstair.Database.Mirror.Keyed.{put-IsKeyed, values-put_old}
use regstair.Database.Mirror.Relation.{Mirrors, Corresponds, Corresponds-subst, user_key}
use regstair.Database.Mirror.Users.{first_id}
use regstair.Database.Mirror.Changes.{
  any_one, count_one, version, written, other_owner, update_rows, behind_update, update_refused,
  update_passed,
}
use regstair.Database.Mirror.Update.{memory_update, current_id, current_fits, current_there, others}

module _ (now : Time) (user : User) (expected : Time) (db : Database) (r : Repository)
    (m : Mirrors db r) (current : User) (here : Maps.get r.users user.id ≡ some current)
    (fits : nat_beq current.updated_at expected ≡ true) where
  abbrev q : User → Bool
  q = version now user expected

  -- What is stored for the user.
  abbrev renewed : User
  renewed = record user {
    created_at = current.created_at;
    updated_at = next_updated_at now current.updated_at;
  }

  renewed_row : written now user expected current ≡ renewed
  renewed_row =
      let id : current.id ≡ user.id = current_id now user expected db r m current here fits in
      let time : current.updated_at ≡ expected = (nat_beq_iff current.updated_at expected).0 fits in
      λ i. record user {
        id = id i;
        created_at = current.created_at;
        updated_at = next_updated_at now (sym time i);
      }

  owned_or_not : any q db.users ≡ true
  owned_or_not =
      ap (any q) m.users
      ∙ any_one q (values r.users) current
          (current_there now user expected db r m current here fits)
          (current_fits now user expected db r m current here fits)

  one_row : nat_beq (count_where q db.users) 0 ≡ false
  one_row =
      ap (λ us. nat_beq (count_where q us) 0) m.users
      ∙ count_one q (values r.users) current
          (current_there now user expected db r m current here fits)
          (current_fits now user expected db r m current here fits)

  clash_or_not :
      (any (other_owner now user expected) db.users && any q db.users) ≡ M.owned_by_other r user
  clash_or_not =
      ap (λ b. any (other_owner now user expected) db.users && b) owned_or_not
      ∙ ground arith
      ∙ ap (any (other_owner now user expected)) m.users
      ∙ others now user expected db r m current here fits

  renewed_rows :
      update_where q (written now user expected) (values r.users)
      ≡ values (Maps.put r.users user.id renewed)
  renewed_rows = sym (
      ap (λ (u : User). values (Maps.put r.users user.id u)) (sym renewed_row)
      ∙ values-put_old user_key (written now user expected) q user.id
          (λ w hit. (text_beq_iff w.id user.id).0 (ground (arith, hit))) r.users current m.keyed
          here (current_fits now user expected db r m current here fits))

  -- The repository in memory behind the update.
  abbrev behind_renewal : Repository
  behind_renewal = (M.replace_user now current user r).1

  renewed_Mirrors :
      UsersAgree behind_renewal → Mirrors (behind_update now user expected db) behind_renewal
  unfolding M.replace_user M.store_user
  renewed_Mirrors agree = record {
    users = ap (update_where q (written now user expected)) m.users ∙ renewed_rows;
    keyed = put-IsKeyed user_key r.users renewed m.keyed;
    agree = agree;
    events = m.events;
    last = m.last;
    tags = m.tags;
    tags_keyed = m.tags_keyed;
    tags_plain = m.tags_plain;
    provenance = m.provenance;
    bindings = m.bindings;
    bindings_keyed = m.bindings_keyed;
    bindings_plain = m.bindings_plain;
  }

  renewed_user : Maps.get behind_renewal.users user.id ≡ some renewed
  unfolding M.replace_user M.store_user
  renewed_user =
      ground (arith, get-put r.users user.id user.id renewed, text_beq_iff user.id user.id)

  pub update_conflict :
      M.owned_by_other r user ≡ true
      → Corresponds (update_rows now user expected db) (memory_update now user expected r)
  unfolding memory_update M.update_found
  update_conflict clash =
      Corresponds-subst {p' = (err (M.username_taken user), r)}
        (update_refused now user expected db (clash_or_not ∙ clash))
        (rw (memory_update, here, M.update_found, fits, clash) refl) (refl, m)

  pub update_renewed :
      M.owned_by_other r user ≡ false
      → UsersAgree behind_renewal
      → Corresponds (update_rows now user expected db) (memory_update now user expected r)
  unfolding memory_update M.update_found M.replace_user M.store_user pure
  update_renewed free agree =
      let mirrors = renewed_Mirrors agree in
      let found = first_id (behind_update now user expected db) behind_renewal mirrors user.id in
      Corresponds-subst {p = (ok (some renewed), behind_update now user expected db)}
        {p' = (ok (some renewed), behind_renewal)}
        (update_passed now user expected db (clash_or_not ∙ free)
          ∙ rw (one_row, found ∙ renewed_user) refl)
        (rw (memory_update, here, M.update_found, fits, free) refl) (refl, mirrors)
