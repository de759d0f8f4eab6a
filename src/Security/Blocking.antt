-- ===== src/Security/Blocking.antt =====
-- Failures in one window block a key of internal/security/rate_limit.go.
use regstair.Base.{
  ℕ, ◌+◌, ◌<◌, ◌≤◌, ◌≡◌, refl, ap, sym, subst, ◌∙◌, ◌⊎◌, inl, inr, true, false, Option, none, some,
  List, [], ◌∷◌, nat_eq, nat_beq, arith, All, In, ◌==◌, if◌then◌else◌,
}
use regstair.Strings.{Text, text_eq}
use regstair.Maps
use regstair.Metadata.Types.{Time}
use regstair.Security.FailureLimiter.{
  FailureEntry, FailureLimiter, entry_at, is_off, is_stale, allow, reached, failure,
}
use regstair.Security.LimiterLaws.{wait, allow_lem}
use regstair.Security.Operations.{Operation, asks, fails, succeeds, step, run, count}
use regstair.Security.Window.{
  HasFailed, Holds, failed_first, failed_again, failed_still, allow-Holds, success-Holds,
  failure-Holds, Holds-weaken, fails-Holds, still_on,
}

-- How many failures of a key there are in calls of the limiter.
abbrev pub failures_in : Text → List Operation → ℕ
failures_in key [] = 0
failures_in key (fails t ks ∷ ops) = count key ks + failures_in key ops
failures_in key (asks _ _ ∷ ops) = failures_in key ops
failures_in key (succeeds _ ∷ ops) = failures_in key ops

-- The time of the last of them, where there is one.
abbrev pub last_failure : Text → List Operation → Time → Time
last_failure key [] s = s
last_failure key (fails t ks ∷ ops) s = last_failure key ops (if count key ks == 0 then s else t)
last_failure key (asks _ _ ∷ ops) s = last_failure key ops s
last_failure key (succeeds _ ∷ ops) s = last_failure key ops s

module _ (key : Text) (limits : FailureLimiter) (start : Time) where
  -- What the calls are in the window that opens at `start`: no success has the key.
  abbrev pub IsWithin : Operation → Type 0
  IsWithin (asks t _) = t < start + limits.window
  IsWithin (fails t _) = (start ≤ t) × (t < start + limits.window)
  IsWithin (succeeds ks) = In key ks → ⊥

  -- What they are in a block behind a failure at `s`.
  abbrev pub IsDuring : Time → Operation → Type 0
  IsDuring s (asks t _) = t < s + limits.block
  IsDuring s (fails t _) = s ≤ t
  IsDuring s (succeeds ks) = In key ks → ⊥

module _ (key : Text) (limits : FailureLimiter) (start : Time)
    (on : is_off (some limits) ≡ false) where
  -- The failures with which the window opens.
  opened-Holds :
      (keys : List Text)
      → nat_beq start 0 ≡ false
      → 0 < limits.window
      → Maps.get limits.entries key ≡ none
      → 0 < count key keys
      → Holds key limits start
          (HasFailed key limits start (count key keys) start)
          (failure start keys (some limits))
  opened-Holds keys not_zero opens fresh has_key =
      let Closed : FailureEntry → Type 0 = λ e. e.window_start ≡ 0 in
      let none_yet : Holds key limits start Closed (some limits) =
        ((refl, refl, refl), rw (fresh, entry_at) refl) in
      let n = count key keys in
      Holds-weaken key limits start on
        (λ e. ((n ≡ 0) × Closed e) ⊎ ((0 < n) × HasFailed key limits start (0 + n) start e))
        (HasFailed key limits start n start) (failure start keys (some limits))
        (λ e which. elim which [
          | inl (z, _) ↦ absurd (omega (arith, z, has_key))
          | inr (_, failed) ↦
              let same : 0 + n ≡ n = omega arith in
              subst (λ x. HasFailed key limits start x start e) same failed
        ])
        (fails-Holds key limits start on Closed start keys 0 (some limits) not_zero
          (omega arith, omega (arith, opens))
          (λ l e like closed. failed_first key limits start l e like closed) none_yet)

  -- What the calls in the window leave.
  within-Holds :
      (ops : List Operation) (n : ℕ) (s : Time) (l : Option FailureLimiter)
      → nat_beq start 0 ≡ false
      → All (IsWithin key limits start) ops
      → Holds key limits start (HasFailed key limits start n s) l
      → Holds key limits start
          (HasFailed key limits start (n + failures_in key ops) (last_failure key ops s))
          (run ops l)
  within-Holds [] n s l not_zero within h =
      let none_more : n ≡ n + 0 = omega arith in
      subst (λ m. Holds key limits start (HasFailed key limits start m s) l) none_more h
  within-Holds (asks t ks ∷ ops) n s l not_zero (here, within) h =
      within-Holds ops n s (step (asks t ks) l) not_zero within (
        allow-Holds key limits start on (HasFailed key limits start n s) t ks l
          (λ l like e. unfold is_stale in ground (arith, like, e, here)) h)
  within-Holds (succeeds ks ∷ ops) n s l not_zero (here, within) h =
      within-Holds ops n s (step (succeeds ks) l) not_zero within
        (success-Holds key limits start on (HasFailed key limits start n s) ks l here h)
  within-Holds (fails t ks ∷ ops) n s l not_zero (here, within) h =
      let m = n + count key ks in
      let s' = if count key ks == 0 then s else t in
      let sum : m + failures_in key ops ≡ n + (count key ks + failures_in key ops) = omega arith in
      let failed =
        fails-Holds key limits start on (HasFailed key limits start n s) t ks n l not_zero here
          (λ l e like. failed_again key limits start t l e n s like not_zero here) h in
      let then_failed : Holds key limits start (HasFailed key limits start m s')
          (step (fails t ks) l) =
        Holds-weaken key limits start on
          (λ e.
            ((count key ks ≡ 0) × HasFailed key limits start n s e)
            ⊎ ((0 < count key ks) × HasFailed key limits start m t e))
          (HasFailed key limits start m s') (step (fails t ks) l)
          (λ e which. elim which [
            | inl (z, same) ↦
                let none_more : n ≡ n + 0 = omega arith in
                subst (λ c. HasFailed key limits start (n + c) (if c == 0 then s else t) e) (sym z)
                  (subst (λ x. HasFailed key limits start x s e) none_more same)
            | inr (more, new) ↦
                let some_more : nat_beq (count key ks) 0 ≡ false = ground (arith, more) in
                subst (λ b. HasFailed key limits start m (if b then s else t) e) (sym some_more) new
          ])
          failed in
      subst
        (λ x.
          Holds key limits start (HasFailed key limits start x (last_failure key ops s'))
            (run ops (step (fails t ks) l)))
        sum (within-Holds ops m s' (step (fails t ks) l) not_zero within then_failed)

  -- What the calls in the block leave.
  during-Holds :
      (ops : List Operation) (s : Time) (l : Option FailureLimiter)
      → All (IsDuring key limits start s) ops
      → Holds key limits start (λ e. s + limits.block ≤ e.blocked_until) l
      → Holds key limits start (λ e. s + limits.block ≤ e.blocked_until) (run ops l)
  during-Holds [] s l during h = h
  during-Holds (asks t ks ∷ ops) s l (here, during) h =
      during-Holds ops s (step (asks t ks) l) during (
        allow-Holds key limits start on (λ e. s + limits.block ≤ e.blocked_until) t ks l
          (λ l like until. unfold is_stale in ground (arith, until, here)) h)
  during-Holds (succeeds ks ∷ ops) s l (here, during) h =
      during-Holds ops s (step (succeeds ks) l) during
        (success-Holds key limits start on (λ e. s + limits.block ≤ e.blocked_until) ks l here h)
  during-Holds (fails t ks ∷ ops) s l (here, during) h =
      during-Holds ops s (step (fails t ks) l) during (
        failure-Holds key limits start on (λ _ e. s + limits.block ≤ e.blocked_until) t ks 0 l
          (λ n l e like until.
            let enough : s + limits.block ≤ t + l.block = omega (arith, like.2, here) in
            failed_still key limits start t (s + limits.block) l e enough until)
          h)

  blocks :
      (now : Time) (asked : List Text) (l : Option FailureLimiter)
      → In key asked
      → Holds key limits start (λ e. now < e.blocked_until) l
      → (allow now asked l).0.0 ≡ false
  blocks now asked none m h = absurd h
  blocks now asked (some l) m (like, until) =
      let (retry_after, answer, longest, _) =
        allow_lem now asked l (still_on key limits start on l like) in
      let waits : wait now l.entries key ≤ retry_after = longest key m in
      ap (λ a. a.0) answer ∙ ground (arith, waits, until)

-- A limiter that is on, with a window that is not empty, does not know a key. Then there are
-- failures of the key, as many as the limiter allows or more, whatever other keys they have, all in
-- the window that the first of them opens at a time that is not the zero time, and between them any
-- calls of Allow before its end, failures of other keys in it, and successes without the key. Until
-- the block behind the last failure of the key is over, no request that has the key is let through,
-- whatever calls are made meanwhile: of Allow at times before the end of the block, of Failure at
-- times from that last failure on, and of Success without the key.
pub allow_blocked :
    (key : Text) (limits : FailureLimiter) (start : Time) (keys : List Text)
    (before after : List Operation) (asked : List Text) (now : Time)
    → is_off (some limits) ≡ false
    → Maps.get limits.entries key ≡ none
    → nat_beq start 0 ≡ false
    → 0 < limits.window
    → 0 < count key keys
    → All (IsWithin key limits start) before
    → reached limits (count key keys + failures_in key before) ≡ true
    → All (IsDuring key limits start (last_failure key before start)) after
    → In key asked
    → now < last_failure key before start + limits.block
    → (allow now asked (run after (run before (failure start keys (some limits))))).0.0 ≡ false
allow_blocked key limits start keys before after asked now on fresh not_zero opens has_key within
      enough during m early =
    let last = last_failure key before start in
    let total = count key keys + failures_in key before in
    let all_failed =
      within-Holds key limits start on before (count key keys) start
        (failure start keys (some limits)) not_zero within
        (opened-Holds key limits start on keys not_zero opens fresh has_key) in
    let until : Holds key limits start (λ e. last + limits.block ≤ e.blocked_until)
        (run before (failure start keys (some limits))) =
      Holds-weaken key limits start on (HasFailed key limits start total last)
        (λ e. last + limits.block ≤ e.blocked_until) (run before (failure start keys (some limits)))
        (λ e (_, _, _, _, block). omega (arith, block enough)) all_failed in
    let still =
      during-Holds key limits start on after last (run before (failure start keys (some limits)))
        during until in
    blocks key limits start on now asked (run after (run before (failure start keys (some limits))))
      m
      (Holds-weaken key limits start on (λ e. last + limits.block ≤ e.blocked_until)
        (λ e. now < e.blocked_until) (run after (run before (failure start keys (some limits))))
        (λ e then_blocked. omega (arith, then_blocked, early)) still)
