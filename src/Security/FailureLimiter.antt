-- ===== src/Security/FailureLimiter.antt =====
-- FailureLimiter of internal/security/rate_limit.go. A limiter may be nil; `now` of a method is what
-- `l.now()` gives. The window and the block are not negative.
use regstair.Base.{
  ℕ, ℤ, pos, ◌+◌, ◌-◌, ◌&&◌, ◌||◌, Bool, true, not, Option, none, some, List, [], ◌∷◌, ◌==◌, nat_eq,
  ltb, leb, int_ltb, if◌then◌else◌,
}
use regstair.Strings.{Text, text_eq}
use regstair.Maps
use regstair.Maps.{Map}
use regstair.Metadata.Types.{Time, is_zero}

pub record FailureEntry : Type 0 where
  pub window_start : Time
  pub blocked_until : Time
  pub last_seen : Time
  pub failures : ℕ

pub record FailureLimiter : Type 0 where
  pub max_failures : ℤ
  pub window : ℕ
  pub block : ℕ
  pub entries : Map Text FailureEntry

abbrev pub new_failure_limiter : ℤ → ℕ → ℕ → FailureLimiter
new_failure_limiter max_failures window block = record {
  max_failures = max_failures;
  window = window;
  block = block;
  entries = [];
}

-- l.entries[key], the zero entry where there is none
abbrev pub entry_at : Map Text FailureEntry → Text → FailureEntry
entry_at entries key = elim (Maps.get entries key) [
  | none ↦ record { window_start = 0; blocked_until = 0; last_seen = 0; failures = 0 }
  | some entry ↦ entry
]

abbrev pub keys_of : Map Text FailureEntry → List Text
keys_of [] = []
keys_of ((key, _) ∷ entries) = key ∷ keys_of entries

-- Whether cleanup deletes an entry.
unfoldable pub is_stale : Time → ℕ → FailureEntry → Bool
is_stale now retention entry =
    not (is_zero entry.last_seen)
    && ltb retention (now - entry.last_seen)
    && not (ltb now entry.blocked_until)

-- The loop of cleanup over the keys.
unfoldable pub delete_stale : Time → ℕ → List Text → Map Text FailureEntry → Map Text FailureEntry
delete_stale now retention [] entries = entries
delete_stale now retention (key ∷ keys) entries =
    delete_stale now retention keys
      (if is_stale now retention (entry_at entries key) then Maps.delete entries key else entries)

unfoldable pub cleanup : Time → FailureLimiter → FailureLimiter
cleanup now l = record l {
  entries = delete_stale now (l.window + l.block) (keys_of l.entries) l.entries;
}

-- One round of Allow: the wait until a time, if it is the longest so far.
unfoldable pub longer_wait : Time → ℕ → Time → ℕ
longer_wait now retry_after until =
    if ltb now until && ltb retry_after (until - now) then until - now else retry_after

-- The loop of Allow, with the longest wait so far.
unfoldable pub longest_wait : Time → Map Text FailureEntry → List Text → ℕ → ℕ
longest_wait now entries [] retry_after = retry_after
longest_wait now entries (key ∷ keys) retry_after =
    longest_wait now entries keys (longer_wait now retry_after (entry_at entries key).blocked_until)

-- l == nil || l.maxFailures <= 0
abbrev pub is_off : Option FailureLimiter → Bool
is_off none = true
is_off (some l) = not (int_ltb (pos 0) l.max_failures)

unfoldable pub allow : Time → List Text → Option FailureLimiter → (Bool × ℕ) × Option FailureLimiter
allow now keys none = ((true, 0), none)
allow now keys (some l) =
    if is_off (some l)
    then ((true, 0), some l)
    else let cleaned = cleanup now l in
      let retry_after = longest_wait now cleaned.entries keys 0 in
      ((retry_after == 0, retry_after), some cleaned)

-- entry.failures >= l.maxFailures
abbrev pub reached : FailureLimiter → ℕ → Bool
reached l failures = not (int_ltb (pos failures) l.max_failures)

-- One round of Failure.
unfoldable pub failed_entry : FailureLimiter → Time → FailureEntry → FailureEntry
failed_entry l now entry =
    let renewed = is_zero entry.window_start || leb l.window (now - entry.window_start) in
    let failures = (if renewed then 0 else entry.failures) + 1 in
    record {
      window_start = if renewed then now else entry.window_start;
      failures = failures;
      last_seen = now;
      blocked_until = if reached l failures then now + l.block else entry.blocked_until;
    }

unfoldable pub record_failures : Time → List Text → FailureLimiter → FailureLimiter
record_failures now [] l = l
record_failures now (key ∷ keys) l =
    record_failures now keys
      (record l { entries = Maps.put l.entries key (failed_entry l now (entry_at l.entries key)) })

unfoldable pub failure : Time → List Text → Option FailureLimiter → Option FailureLimiter
failure now keys none = none
failure now keys (some l) = if is_off (some l) then some l else some (record_failures now keys l)

-- The loop of Success.
unfoldable pub delete_all : List Text → Map Text FailureEntry → Map Text FailureEntry
delete_all [] entries = entries
delete_all (key ∷ keys) entries = delete_all keys (Maps.delete entries key)

unfoldable pub success : List Text → Option FailureLimiter → Option FailureLimiter
success keys none = none
success keys (some l) = some (record l { entries = delete_all keys l.entries })
