-- ===== src/Security/Tests.antt =====
-- Runs of the failure limiter, and its theorems at these runs.
use regstair.Base.{
  ℕ, ◌≤◌, pos, ◌≡◌, refl, sym, ap, ◌∙◌, ◌⊎◌, inl, inr, true, false, Option, some, List, [], ◌∷◌,
  nat_beq, In, arith,
}
use regstair.Strings.{Text, codes, text_beq}
use regstair.Maps.{get, put, delete}
use regstair.Security.FailureLimiter.{
  FailureLimiter, new_failure_limiter, longer_wait, longest_wait, is_stale, delete_stale, cleanup,
  allow, failed_entry, record_failures, failure, delete_all, success,
}
use regstair.Security.Operations.{Operation, asks, fails, succeeds, run}
use regstair.Security.Blocking.{allow_blocked}
use regstair.Security.Waiting.{allow_again}
use regstair.Security.LimiterLaws.{wait, allow_lem, allow-success}

abbrev keys : List Text
keys = codes "a" ∷ codes "b" ∷ []

-- Two failures block for 10.
abbrev limiter : FailureLimiter
limiter = new_failure_limiter (pos 2) 60 10

abbrev failed_once : Option FailureLimiter
failed_once = failure 5 keys (some limiter)

abbrev failed_twice : Option FailureLimiter
failed_twice = failure 7 keys failed_once

-- A proof by running the limiter names this.
limiter_runs : Unit {0}
unfolding text_beq get put delete longer_wait longest_wait is_stale delete_stale cleanup allow
    failed_entry record_failures failure delete_all success
limiter_runs = tt

runs :
    ((allow 6 keys failed_once).0 ≡ (true, 0))
    × ((allow 8 keys failed_twice).0 ≡ (false, 9))
    × ((allow 17 keys failed_twice).0 ≡ (true, 0))
unfolding limiter_runs
runs = (refl, refl, refl)

abbrev blocked : FailureLimiter
blocked = record limiter {
  entries =
      (codes "a", record { window_start = 5; blocked_until = 17; last_seen = 7; failures = 2 })
      ∷ [];
}

allow_lem_example :
    (retry_after : ℕ) × ((allow 8 keys (some blocked)).0 ≡ (nat_beq retry_after 0, retry_after))
    × ((key : Text) → In key keys → wait 8 blocked.entries key ≤ retry_after)
    × ((retry_after ≡ 0)
        ⊎ ((key : Text) × In key keys × (retry_after ≡ wait 8 blocked.entries key)))
allow_lem_example = allow_lem 8 keys blocked refl

allow-success_example : (allow 8 keys (success keys (some blocked))).0 ≡ (true, 0)
allow-success_example = allow-success 8 keys (some blocked)

-- A key of other clients.
abbrev other_key : Text
other_key = codes "c"

abbrev others : List Text
others = other_key ∷ []

is_other : (key : Text) → In key keys → In key others → ⊥
is_other key (inl e) (inl f) =
    let clash : false ≡ true = unfold limiter_runs in ap (λ k. text_beq k other_key) (sym e ∙ f) in
    absurd (cc)
is_other key (inr (inl e)) (inl f) =
    let clash : false ≡ true = unfold limiter_runs in ap (λ k. text_beq k other_key) (sym e ∙ f) in
    absurd (cc)
is_other key m (inr n) = absurd n
is_other key (inr (inr m)) (inl f) = absurd m

abbrev meanwhile : List Operation
meanwhile = fails 9 others ∷ asks 10 others ∷ succeeds others ∷ []

allow_again_example : (allow 17 keys (run meanwhile (allow 8 keys (some blocked)).1)).0 ≡ (true, 0)
allow_again_example =
    allow_again 8 17 keys meanwhile (some blocked) (unfold limiter_runs in omega arith)
      (is_other, (tt, (tt, tt)))

abbrev first_key : Text
first_key = codes "a"

abbrev before : List Operation
before = asks 6 keys ∷ succeeds others ∷ fails 7 (first_key ∷ others) ∷ []

abbrev after : List Operation
after = asks 8 keys ∷ fails 9 others ∷ succeeds others ∷ []

allow_blocked_example :
    (allow 15 keys (run after (run before (failure 5 keys (some limiter))))).0.0 ≡ false
allow_blocked_example =
    allow_blocked first_key limiter 5 keys before after keys 15 refl (unfold limiter_runs in refl)
      refl (omega arith) (unfold limiter_runs in omega arith)
      ((omega arith), ((is_other first_key (inl refl)), (((omega arith, omega arith)), tt)))
      (unfold limiter_runs in refl)
      (
        (unfold limiter_runs in omega arith),
        ((unfold limiter_runs in omega arith), ((is_other first_key (inl refl)), tt)),
      )
      (inl refl) (unfold limiter_runs in omega arith)
