-- ===== src/Security/Operations.antt =====
-- What happens to a limiter of internal/security/rate_limit.go: calls of its methods, one after the
-- other.
use regstair.Base.{
  ℕ, ◌+◌, ◌≡◌, ◌≢◌, refl, ap, sym, ◌∙◌, Option, some, List, [], ◌∷◌, inl, inr, Bool-cases, true,
  false, ◌==◌, nat_eq, if◌then◌else◌, In,
}
use regstair.Strings.{Text, text_eq, text_beq, text_beq_iff}
use regstair.Maps
use regstair.Maps.{Map, get-put, get-put_self, get-delete}
use regstair.Metadata.Types.{Time}
use regstair.Security.FailureLimiter.{
  FailureEntry, FailureLimiter, entry_at, allow, failure, success, delete_all, is_stale,
  delete_stale, is_off, record_failures,
}
use regstair.Security.LimiterLaws.{entry_of}

-- Allow, Failure and Success, with the time that a method reads and the keys.
pub data Operation : Type 0 where
  asks : Time → List Text → Operation
  fails : Time → List Text → Operation
  succeeds : List Text → Operation

-- What an operation leaves of the limiter.
abbrev pub step : Operation → Option FailureLimiter → Option FailureLimiter
step (asks now keys) l = (allow now keys l).1
step (fails now keys) l = failure now keys l
step (succeeds keys) l = success keys l

abbrev pub run : List Operation → Option FailureLimiter → Option FailureLimiter
run [] l = l
run (op ∷ ops) l = run ops (step op l)

-- How often a key is among others.
abbrev pub count : Text → List Text → ℕ
count key [] = 0
count key (k ∷ ks) = let rest = count key ks in if k == key then rest + 1 else rest

module _ (entries : Map Text FailureEntry) (key : Text) where
  pub entry_at-put_other :
      (k : Text) (e : FailureEntry)
      → text_beq k key ≡ false
      → entry_at (Maps.put entries k e) key ≡ entry_at entries key
  entry_at-put_other k e other =
      entry_of (Maps.put entries k e) entries key (get-put entries k key e ∙ rw other refl)

  pub entry_at-put_self : (e : FailureEntry) → entry_at (Maps.put entries key e) key ≡ e
  entry_at-put_self e = rw (get-put_self entries key e, entry_at) refl

  pub entry_at-delete_other :
      (k : Text)
      → text_beq k key ≡ false
      → entry_at (Maps.delete entries k) key ≡ entry_at entries key
  entry_at-delete_other k other =
      entry_of (Maps.delete entries k) entries key (get-delete entries k key ∙ rw other refl)

apart : (key k : Text) → key ≢ k → text_beq k key ≡ false
apart key k other = elim (Bool-cases (text_beq k key)) [
  | inl e ↦ absurd (other (sym ((text_beq_iff k key).0 e)))
  | inr e ↦ e
]

-- A success of other keys leaves the entry alone.
pub delete_all-entry_at :
    (keys : List Text) (entries : Map Text FailureEntry) (key : Text)
    → (In key keys → ⊥)
    → entry_at (delete_all keys entries) key ≡ entry_at entries key
unfolding delete_all
delete_all-entry_at [] entries key other = refl
delete_all-entry_at (k ∷ keys) entries key other =
    delete_all-entry_at keys (Maps.delete entries k) key (λ m. other (inr m))
    ∙ entry_at-delete_other entries key k (apart key k (λ e. other (inl e)))

-- An entry that is not stale is not deleted.
pub delete_stale-entry_at :
    (now : Time) (retention : ℕ) (keys : List Text) (entries : Map Text FailureEntry) (key : Text)
    → is_stale now retention (entry_at entries key) ≡ false
    → entry_at (delete_stale now retention keys entries) key ≡ entry_at entries key
unfolding delete_stale
delete_stale-entry_at now retention [] entries key live = refl
delete_stale-entry_at now retention (k ∷ keys) entries key live =
    elim (Bool-cases (is_stale now retention (entry_at entries k))) [
      | inr e ↦ rw e (delete_stale-entry_at now retention keys entries key live)
      | inl e ↦
          let other : text_beq k key ≡ false = apart key k (λ same.
            let clash : false ≡ true =
              sym live ∙ ap (λ x. is_stale now retention (entry_at entries x)) same ∙ e in
            absurd (cc)) in
          let same = entry_at-delete_other entries key k other in
          rw e (
            delete_stale-entry_at now retention keys (Maps.delete entries k) key
              (ap (is_stale now retention) same ∙ live)
            ∙ same)
    ]

module _ (now : Time) (keys : List Text) (l : FailureLimiter) where
  pub failure_off : is_off (some l) ≡ true → failure now keys (some l) ≡ some l
  unfolding failure
  failure_off off = rw (off, failure) refl

  pub failure_on :
      is_off (some l) ≡ false → failure now keys (some l) ≡ some (record_failures now keys l)
  unfolding failure
  failure_on on = rw (on, failure) refl
