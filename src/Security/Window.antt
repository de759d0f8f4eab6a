-- ===== src/Security/Window.antt =====
-- Calls of internal/security/rate_limit.go in one window of a key: what they leave of its entry.
use regstair.Base.{
  int_ltb, ℕ, pos, ◌+◌, ◌<◌, ◌≤◌, ◌≡◌, refl, ap, sym, subst, ◌∙◌, ◌⊎◌, inl, inr, true, false, not,
  Option, none, some, List, [], ◌∷◌, nat_eq, nat_beq, arith, In, Bool-cases,
}
use regstair.Strings.{Text, text_eq, text_beq, text_beq_iff}
use regstair.Maps
use regstair.Metadata.Types.{Time}
use regstair.Security.FailureLimiter.{
  FailureEntry, FailureLimiter, entry_at, keys_of, is_off, is_stale, cleanup, reached, failed_entry,
  record_failures, success,
}
use regstair.Security.LimiterLaws.{allow_cleaned}
use regstair.Security.Operations.{
  asks, fails, succeeds, step, count, entry_at-put_self, entry_at-put_other, delete_all-entry_at,
  delete_stale-entry_at, failure_on,
}

module _ (key : Text) (limits : FailureLimiter) (start : Time) where
  abbrev pub HasLimits : FailureLimiter → Type 0
  HasLimits l =
      (l.max_failures ≡ limits.max_failures) × (l.window ≡ limits.window) × (l.block ≡ limits.block)

  -- An entry with `n` failures in the window, the last one at `s`.
  abbrev pub HasFailed : ℕ → Time → FailureEntry → Type 0
  HasFailed n s e =
      (e.window_start ≡ start)
      × (e.failures ≡ n)
      × (e.last_seen ≡ s)
      × (start ≤ s)
      × (reached limits n ≡ true → e.blocked_until ≡ s + limits.block)

  pub failed_first :
      (l : FailureLimiter) (e : FailureEntry)
      → HasLimits l
      → e.window_start ≡ 0
      → HasFailed 1 start (failed_entry l start e)
  unfolding failed_entry
  failed_first l e (same_max, same_window, same_block) closed =
      let same : reached l 1 ≡ reached limits 1 = ap (λ m. not (int_ltb (pos 1) m)) same_max in
      ground (arith, closed, same, same_block)

  pub failed_again :
      (t : Time) (l : FailureLimiter) (e : FailureEntry) (n : ℕ) (s : Time)
      → HasLimits l
      → nat_beq start 0 ≡ false
      → (start ≤ t) × (t < start + limits.window)
      → HasFailed n s e
      → HasFailed (n + 1) t (failed_entry l t e)
  unfolding failed_entry
  failed_again t l e n s (same_max, same_window, same_block) not_zero (later, within)
        (opened, failed, _, _, _) =
      let same : reached l (n + 1) ≡ reached limits (n + 1) =
        ap (λ m. not (int_ltb (pos (n + 1)) m)) same_max in
      ground (arith, opened, failed, not_zero, later, within, same, same_block, same_window)

  pub failed_still :
      (t until : Time) (l : FailureLimiter) (e : FailureEntry)
      → until ≤ t + l.block
      → until ≤ e.blocked_until
      → until ≤ (failed_entry l t e).blocked_until
  unfolding failed_entry
  failed_still t until l e more until_then = ground (arith, more, until_then)

  -- One round of Failure, with a key that is counted and with another one.
  module _ (P : ℕ → FailureEntry → Type 0) (t : Time)
      (hit : (n : ℕ) (l : FailureLimiter) (e : FailureEntry)
        → HasLimits l
        → P n e
        → P (n + 1) (failed_entry l t e)) where
    record_failures_keeps :
        (ks : List Text) (n : ℕ) (l : FailureLimiter)
        → HasLimits l
        → P n (entry_at l.entries key)
        → HasLimits (record_failures t ks l)
          × P (n + count key ks) (entry_at (record_failures t ks l).entries key)
    unfolding record_failures
    record_failures_keeps [] n l like h =
        (like, subst (λ m. P m (entry_at l.entries key)) (omega arith) h)
    record_failures_keeps (k ∷ ks) n l like h = elim (Bool-cases (text_beq k key)) [
      | inr other ↦
          let same =
            entry_at-put_other l.entries key k (failed_entry l t (entry_at l.entries k)) other in
          rw other (record_failures_keeps ks n _ like (subst (P n) (sym same) h))
      | inl here ↦
          let at_key : k ≡ key = (text_beq_iff k key).0 here in
          let new : FailureEntry = failed_entry l t (entry_at l.entries key) in
          let put_here : P (n + 1) (entry_at (Maps.put l.entries key new) key) =
            subst (P (n + 1)) (sym (entry_at-put_self l.entries key new))
              (hit n l (entry_at l.entries key) like h) in
          let put_k : P (n + 1)
              (entry_at (Maps.put l.entries k (failed_entry l t (entry_at l.entries k))) key) =
            subst
              (λ x.
                P (n + 1)
                  (entry_at (Maps.put l.entries x (failed_entry l t (entry_at l.entries x))) key))
              (sym at_key) put_here in
          let (like_then, rest) = record_failures_keeps ks (n + 1) _ like put_k in
          let more : n + 1 + count key ks ≡ n + (count key ks + 1) = omega arith in
          rw here (
            like_then,
            subst
                (λ m. P m (
                  entry_at
                    (record_failures t ks (record l {
                      entries = Maps.put l.entries k (failed_entry l t (entry_at l.entries k));
                    })).entries
                    key))
                more rest,
          )
    ]

  -- The entry of a limiter that is on.
  abbrev pub Holds : (FailureEntry → Type 0) → Option FailureLimiter → Type 0
  Holds P none = ⊥
  Holds P (some l) = HasLimits l × P (entry_at l.entries key)

  module _ (on : is_off (some limits) ≡ false) where
    pub still_on : (l : FailureLimiter) → HasLimits l → is_off (some l) ≡ false
    still_on l (same_max, _, _) = ap (λ m. not (int_ltb (pos 0) m)) same_max ∙ on

    pub allow-Holds :
        (P : FailureEntry → Type 0) (t : Time) (ks : List Text) (l : Option FailureLimiter)
        → ((l : FailureLimiter)
            → HasLimits l
            → P (entry_at l.entries key)
            → is_stale t (l.window + l.block) (entry_at l.entries key) ≡ false)
        → Holds P l
        → Holds P (step (asks t ks) l)
    allow-Holds P t ks none live h = absurd h
    allow-Holds P t ks (some l) live (like, h) =
        subst (Holds P) (sym (allow_cleaned t ks l (still_on l like))) (
          unfold cleanup in
          (
            like,
            subst P
                (sym (
                  delete_stale-entry_at t (l.window + l.block) (keys_of l.entries) l.entries key
                    (live l like h)))
                h,
          ))

    pub success-Holds :
        (P : FailureEntry → Type 0) (ks : List Text) (l : Option FailureLimiter)
        → (In key ks → ⊥)
        → Holds P l
        → Holds P (step (succeeds ks) l)
    unfolding success
    success-Holds P ks none other h = absurd h
    success-Holds P ks (some l) other (like, h) =
        (like, subst P (sym (delete_all-entry_at ks l.entries key other)) h)

    pub failure-Holds :
        (P : ℕ → FailureEntry → Type 0) (t : Time) (ks : List Text) (n : ℕ)
        (l : Option FailureLimiter)
        → ((n : ℕ) (l : FailureLimiter) (e : FailureEntry)
            → HasLimits l
            → P n e
            → P (n + 1) (failed_entry l t e))
        → Holds (P n) l
        → Holds (P (n + count key ks)) (step (fails t ks) l)
    failure-Holds P t ks n none hit h = absurd h
    failure-Holds P t ks n (some l) hit (like, h) =
        subst (Holds (P (n + count key ks))) (sym (failure_on t ks l (still_on l like)))
          (record_failures_keeps P t hit ks n l like h)

    pub Holds-weaken :
        (P Q : FailureEntry → Type 0) (l : Option FailureLimiter)
        → ((e : FailureEntry) → P e → Q e)
        → Holds P l
        → Holds Q l
    Holds-weaken P Q none more h = absurd h
    Holds-weaken P Q (some l) more (like, h) = (like, more (entry_at l.entries key) h)

    -- A failure in the window: `Q` holds before the first round with the key.
    pub fails-Holds :
        (Q : FailureEntry → Type 0) (t : Time) (ks : List Text) (n : ℕ) (l : Option FailureLimiter)
        → nat_beq start 0 ≡ false
        → (start ≤ t) × (t < start + limits.window)
        → ((l : FailureLimiter) (e : FailureEntry)
            → HasLimits l
            → Q e
            → HasFailed (n + 1) t (failed_entry l t e))
        → Holds Q l
        → Holds
            (λ e.
              ((count key ks ≡ 0) × Q e) ⊎ ((0 < count key ks) × HasFailed (n + count key ks) t e))
            (step (fails t ks) l)
    fails-Holds Q t ks n l not_zero within first h =
        let P : ℕ → FailureEntry → Type 0 =
          λ m e. ((m ≡ 0) × Q e) ⊎ ((0 < m) × HasFailed (n + m) t e) in
        let hit : (m : ℕ) (l : FailureLimiter) (e : FailureEntry)
            → HasLimits l
            → P m e
            → P (m + 1) (failed_entry l t e) =
          λ m l e like before. elim before [
            | inl (z, q) ↦
                let one : n + 1 ≡ n + (m + 1) = omega (arith, z) in
                inr (
                  omega arith,
                  subst (λ x. HasFailed x t (failed_entry l t e)) one (first l e like q),
                )
            | inr (_, again) ↦
                let more : n + m + 1 ≡ n + (m + 1) = omega arith in
                inr (
                  omega arith,
                  subst (λ x. HasFailed x t (failed_entry l t e)) more
                      (failed_again t l e (n + m) t like not_zero within again),
                )
          ] in
        let all : 0 + count key ks ≡ count key ks = omega arith in
        subst (λ m. Holds (P m) (step (fails t ks) l)) all
          (failure-Holds P t ks 0 l hit (Holds-weaken Q (P 0) l (λ e q. inl (refl, q)) h))
