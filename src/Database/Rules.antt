-- ===== src/Database/Rules.antt =====
-- What the pieces of a statement and a transaction keep.
use regstair.Base.{◌≡◌, refl, Bool, false, Bool-cases, inl, inr, Option, none, some, Option-cases}
use regstair.Errors.{Error, Result, ok, err, Message, prefixed, Result-cases}
use regstair.Effects.{Exec}
use regstair.Effects.Keeps.{IsPreorder, Keeps, KeepsAlways, Leaves}
use regstair.Database.Tables.{
  Database, Faults, explained, checked, labelled, constrained, settle, transact, change,
}

module _ {W A : Type 0} {R : W → W → Type 0} where
  pub Keeps-explained : (label : Message) (m : Exec W A) → Keeps R m → Keeps R (explained label m)
  unfolding explained
  Keeps-explained label m kept = record {
    at = λ w a h. elim (Result-cases (m w).0) [
      | inl (b, e) ↦ kept.at w b e
      | inr (failed, e) ↦
          let k : err (prefixed label failed) ≡ ok a = rw (explained, e) at h in absurd (cc)
    ];
  }

  pub Keeps-checked :
      (failed : Option Error) (m : Exec W A) → Keeps R m → Keeps R (checked failed m)
  unfolding checked
  Keeps-checked none m kept = kept
  Keeps-checked (some e) m kept = record { at = λ w a h. absurd (cc) }

  pub Keeps-constrained :
      (refuses : W → Bool) (e : Error) (m : Exec W A)
      → Keeps R m
      → Keeps R (constrained refuses e m)
  unfolding constrained
  Keeps-constrained refuses e m kept = record {
    at = λ w a h. elim (Bool-cases (refuses w)) [
      | inl k ↦ let failed : err e ≡ ok a = rw (constrained, k) at h in absurd (cc)
      | inr k ↦ rw (constrained, k) (kept.at w a (rw (constrained, k) at h))
    ];
  }

module _ {W A : Type 0} {R : W → W → Type 0} (order : IsPreorder R) where
  pub KeepsAlways-explained :
      (label : Message) (m : Exec W A) → KeepsAlways R m → KeepsAlways R (explained label m)
  unfolding explained
  KeepsAlways-explained label m kept = record { at = λ w. kept.at w }

  pub KeepsAlways-checked :
      (failed : Option Error) (m : Exec W A) → KeepsAlways R m → KeepsAlways R (checked failed m)
  unfolding checked
  KeepsAlways-checked none m kept = kept
  KeepsAlways-checked (some e) m kept = record { at = λ w. order.reflexive w }

  pub KeepsAlways-constrained :
      (refuses : W → Bool) (e : Error) (m : Exec W A)
      → KeepsAlways R m
      → KeepsAlways R (constrained refuses e m)
  unfolding constrained
  KeepsAlways-constrained refuses e m kept = record {
    at = λ w. elim (Bool-cases (refuses w)) [
      | inl k ↦ rw (constrained, k) (order.reflexive w)
      | inr k ↦ rw (constrained, k) (kept.at w)
    ];
  }

  settle_keeps :
      (failed : Option Error) (label : Message) (w : W) (r : Result A) (w' : W)
      → ((a : A) → r ≡ ok a → R w w')
      → R w (settle failed label w (r, w')).1
  unfolding settle
  settle_keeps failed label w (err e) w' kept = order.reflexive w
  settle_keeps none label w (ok a) w' kept = kept a refl
  settle_keeps (some e) label w (ok a) w' kept = order.reflexive w

  -- A transaction only has to keep what it keeps where its body returns.
  pub KeepsAlways-transact :
      (faults : Faults) (begin commit : Message) (m : Exec W A)
      → Keeps R m
      → KeepsAlways R (transact faults begin commit m)
  unfolding transact
  KeepsAlways-transact faults begin commit m kept = record {
    at = λ w. elim (Option-cases faults.begin_error) [
      | inr (e, h) ↦ rw (transact, h) (order.reflexive w)
      | inl h ↦
          rw (transact, h)
            (settle_keeps faults.commit_error commit w (m w).0 (m w).1 λ a k. kept.at w a k)
    ];
  }

module _ {W A : Type 0} (P : A → W → Type 0) where
  settle_leaves :
      (failed : Option Error) (label : Message) (w : W) (r : Result A) (w' : W) (a : A)
      → (settle failed label w (r, w')).0 ≡ ok a
      → (r ≡ ok a → P a w')
      → P a (settle failed label w (r, w')).1
  unfolding settle
  settle_leaves failed label w (err e) w' a h rest = absurd (cc)
  settle_leaves none label w (ok b) w' a h rest = rest h
  settle_leaves (some e) label w (ok b) w' a h rest = absurd (cc)

  pub Leaves-transact :
      (faults : Faults) (begin commit : Message) (m : Exec W A)
      → Leaves P m
      → Leaves P (transact faults begin commit m)
  unfolding transact
  Leaves-transact faults begin commit m leaves = record {
    at = λ w a h. elim (Option-cases faults.begin_error) [
      | inr (e, k) ↦
          let failed : err (labelled begin e) ≡ ok a = rw (transact, k) at h in absurd (cc)
      | inl k ↦
          rw (transact, k)
            (settle_leaves faults.commit_error commit w (m w).0 (m w).1 a (rw (transact, k) at h)
              λ e. leaves.at w a e)
    ];
  }

  pub Leaves-checked :
      (failed : Option Error) (m : Exec W A) → Leaves P m → Leaves P (checked failed m)
  unfolding checked
  Leaves-checked none m leaves = leaves
  Leaves-checked (some e) m leaves = record { at = λ w a h. absurd (cc) }

-- A constrained change that returns was not refused, and was made.
pub constrained_ok :
    (refuses : Database → Bool) (e : Error) (faults : Faults) (f : Database → Database)
    (db : Database) (a : Unit {0})
    → (constrained refuses e (change faults f) db).0 ≡ ok a
    → (refuses db ≡ false) × ((constrained refuses e (change faults f) db).1 ≡ f db)
unfolding constrained change checked
constrained_ok refuses e faults f db a h = elim (Bool-cases (refuses db)) [
  | inl k ↦ let failed : err e ≡ ok a = rw (constrained, k) at h in absurd (cc)
  | inr k ↦ elim (Option-cases faults.write_error) [
    | inl p ↦ (k, rw (constrained, k, change, p) refl)
    | inr (failed, p) ↦
        let refused : err failed ≡ ok a = rw (constrained, k, change, p) at h in absurd (cc)
  ]
]
