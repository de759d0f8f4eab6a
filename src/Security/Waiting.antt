-- ===== src/Security/Waiting.antt =====
-- Waiting for as long as Allow of internal/security/rate_limit.go says.
use regstair.Base.{
  ℕ, ◌+◌, ◌≤◌, ◌≡◌, refl, ap, sym, subst, ◌∙◌, inl, inr, true, false, Option, none, some, List, [],
  ◌∷◌, nat_eq, arith, Bool-cases, In, All,
}
use regstair.Strings.{Text, text_eq, text_beq, text_beq_iff}
use regstair.Maps
use regstair.Maps.{Map, get-delete}
use regstair.Metadata.Types.{Time}
use regstair.Security.FailureLimiter.{
  FailureEntry, FailureLimiter, entry_at, keys_of, is_stale, delete_stale, cleanup, is_off, allow,
  failed_entry, record_failures, failure, delete_all, success,
}
use regstair.Security.LimiterLaws.{wait, allow_lem, allow_cleaned, allow_off, delete_stale-wait}
use regstair.Security.Operations.{
  Operation, asks, fails, succeeds, step, run, entry_at-put_other, entry_at-delete_other,
  failure_off, failure_on,
}

module _ (later : Time) (keys : List Text) where
  -- No block of the keys lasts longer.
  abbrev HaveEnded : Map Text FailureEntry → Type 0
  HaveEnded entries = (key : Text) → In key keys → (entry_at entries key).blocked_until ≤ later

  abbrev HasEnded : Option FailureLimiter → Type 0
  HasEnded none = Unit {0}
  HasEnded (some l) = HaveEnded l.entries

  -- A failure is one of other clients: it has none of the keys.
  abbrev pub IsOfOthers : Operation → Type 0
  IsOfOthers (fails now others) = (key : Text) → In key keys → In key others → ⊥
  IsOfOthers _ = Unit {0}

  delete-HaveEnded :
      (k : Text) (entries : Map Text FailureEntry)
      → HaveEnded entries
      → HaveEnded (Maps.delete entries k)
  delete-HaveEnded k entries h key m = elim (Bool-cases (text_beq k key)) [
    | inr e ↦ rw (entry_at-delete_other entries key k e) (h key m)
    | inl e ↦
        let gone : Maps.get (Maps.delete entries k) key ≡ none =
          get-delete entries k key ∙ rw e refl in
        rw (gone, entry_at) (omega arith)
  ]

  delete_all-HaveEnded :
      (ks : List Text) (entries : Map Text FailureEntry)
      → HaveEnded entries
      → HaveEnded (delete_all ks entries)
  unfolding delete_all
  delete_all-HaveEnded [] entries h = h
  delete_all-HaveEnded (k ∷ ks) entries h =
      delete_all-HaveEnded ks (Maps.delete entries k) (delete-HaveEnded k entries h)

  delete_stale-HaveEnded :
      (now : Time) (retention : ℕ) (ks : List Text) (entries : Map Text FailureEntry)
      → HaveEnded entries
      → HaveEnded (delete_stale now retention ks entries)
  unfolding delete_stale
  delete_stale-HaveEnded now retention [] entries h = h
  delete_stale-HaveEnded now retention (k ∷ ks) entries h =
      elim (Bool-cases (is_stale now retention (entry_at entries k))) [
        | inr e ↦ rw e (delete_stale-HaveEnded now retention ks entries h)
        | inl e ↦ rw e (
            delete_stale-HaveEnded now retention ks (Maps.delete entries k)
              (delete-HaveEnded k entries h))
      ]

  record_failures-HaveEnded :
      (now : Time) (ks : List Text) (l : FailureLimiter)
      → ((key : Text) → In key keys → In key ks → ⊥)
      → HaveEnded l.entries
      → HaveEnded (record_failures now ks l).entries
  unfolding record_failures
  record_failures-HaveEnded now [] l other h = h
  record_failures-HaveEnded now (k ∷ ks) l other h =
      record_failures-HaveEnded now ks _ (λ key m n. other key m (inr n))
        λ key m. elim (Bool-cases (text_beq k key)) [
          | inl e ↦ absurd (other key m (inl (sym ((text_beq_iff k key).0 e))))
          | inr e ↦
              rw (entry_at-put_other l.entries key k (failed_entry l now (entry_at l.entries k)) e)
                (h key m)
        ]

  step-HasEnded :
      (op : Operation) (l : Option FailureLimiter)
      → IsOfOthers op
      → HasEnded l
      → HasEnded (step op l)
  unfolding allow failure success
  step-HasEnded (asks now ks) none o h = tt
  step-HasEnded (fails now ks) none o h = tt
  step-HasEnded (succeeds ks) none o h = tt
  step-HasEnded (succeeds ks) (some l) o h = delete_all-HaveEnded ks l.entries h
  step-HasEnded (asks now ks) (some l) o h = elim (Bool-cases (is_off (some l))) [
    | inl off ↦ subst HasEnded (sym (ap (λ a. a.1) (allow_off now ks l off))) h
    | inr on ↦ subst HasEnded (sym (allow_cleaned now ks l on)) (
        unfold cleanup in
        delete_stale-HaveEnded now (l.window + l.block) (keys_of l.entries) l.entries h)
  ]
  step-HasEnded (fails now ks) (some l) o h = elim (Bool-cases (is_off (some l))) [
    | inl off ↦ subst HasEnded (sym (failure_off now ks l off)) h
    | inr on ↦
        subst HasEnded (sym (failure_on now ks l on)) (record_failures-HaveEnded now ks l o h)
  ]

  run-HasEnded :
      (ops : List Operation) (l : Option FailureLimiter)
      → All IsOfOthers ops
      → HasEnded l
      → HasEnded (run ops l)
  run-HasEnded [] l o h = h
  run-HasEnded (op ∷ ops) l (here, o) h = run-HasEnded ops (step op l) o (step-HasEnded op l here h)

  allow_ended : (l : Option FailureLimiter) → HasEnded l → (allow later keys l).0 ≡ (true, 0)
  unfolding allow
  allow_ended none h = refl
  allow_ended (some l) h = elim (Bool-cases (is_off (some l))) [
    | inl off ↦ ap (λ o. o.0) (allow_off later keys l off)
    | inr on ↦
        let (retry_after, answer, _, which) = allow_lem later keys l on in
        let nothing : retry_after ≡ 0 = elim which [
          | inl e ↦ e
          | inr (key, m, e) ↦ omega (arith, e, h key m)
        ] in
        answer ∙ rw nothing refl
  ]

  -- What Allow said is enough.
  told-HasEnded :
      (now : Time) (l : FailureLimiter)
      → is_off (some l) ≡ false
      → now + (allow now keys (some l)).0.1 ≤ later
      → HasEnded (allow now keys (some l)).1
  unfolding cleanup
  told-HasEnded now l on waited =
      let (retry_after, answer, bound, _) = allow_lem now keys l on in
      let enough : now + retry_after ≤ later = rw answer at waited in
      subst HasEnded (sym (allow_cleaned now keys l on)) λ key m.
        let same : wait now (cleanup now l).entries key ≡ wait now l.entries key =
          delete_stale-wait now (l.window + l.block) (keys_of l.entries) l.entries key in
        omega (arith, same, bound key m, enough)

step_off :
    (op : Operation) (l : Option FailureLimiter) → is_off l ≡ true → is_off (step op l) ≡ true
unfolding allow failure success
step_off (asks now ks) none off = refl
step_off (fails now ks) none off = refl
step_off (succeeds ks) none off = refl
step_off (succeeds ks) (some l) off = off
step_off (asks now ks) (some l) off = ap (λ a. is_off a.1) (allow_off now ks l off) ∙ off
step_off (fails now ks) (some l) off = ap is_off (failure_off now ks l off) ∙ off

run_off :
    (ops : List Operation) (l : Option FailureLimiter) → is_off l ≡ true → is_off (run ops l) ≡ true
run_off [] l off = off
run_off (op ∷ ops) l off = run_off ops (step op l) (step_off op l off)

off_allows :
    (now : Time) (keys : List Text) (l : Option FailureLimiter)
    → is_off l ≡ true
    → (allow now keys l).0 ≡ (true, 0)
unfolding allow
off_allows now keys none off = refl
off_allows now keys (some l) off = ap (λ a. a.0) (allow_off now keys l off)

-- Who waits for as long as Allow said is let through then, whatever is done with the limiter
-- meanwhile, at whatever times, where no failure meanwhile has one of the keys.
pub allow_again :
    (now later : Time) (keys : List Text) (meanwhile : List Operation) (l : Option FailureLimiter)
    → now + (allow now keys l).0.1 ≤ later
    → All (IsOfOthers later keys) meanwhile
    → (allow later keys (run meanwhile (allow now keys l).1)).0 ≡ (true, 0)
unfolding allow
allow_again now later keys meanwhile none waited others =
    off_allows later keys (run meanwhile none) (run_off meanwhile none refl)
allow_again now later keys meanwhile (some l) waited others = elim (Bool-cases (is_off (some l))) [
  | inl off ↦
      off_allows later keys (run meanwhile (allow now keys (some l)).1)
        (run_off meanwhile (allow now keys (some l)).1 (step_off (asks now keys) (some l) off))
  | inr on ↦ allow_ended later keys (run meanwhile (allow now keys (some l)).1) (
      run-HasEnded later keys meanwhile (allow now keys (some l)).1 others
        (told-HasEnded later keys now l on waited))
]
