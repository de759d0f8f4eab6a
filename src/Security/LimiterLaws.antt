-- ===== src/Security/LimiterLaws.antt =====
-- When the limiter blocks a key.
use regstair.Base.{
  ℕ, ◌+◌, ◌-◌, ◌≤◌, ◌≡◌, refl, sym, ap, ◌∙◌, ◌⊎◌, inl, inr, true, false, Option, none, some, List,
  [], ◌∷◌, nat_eq, nat_beq, ltb, arith, Bool-cases, In,
}
use regstair.Strings.{Text, text_eq, text_beq, text_beq_iff}
use regstair.Maps
use regstair.Maps.{Map, get-delete, get-put, get-put_self}
use regstair.Metadata.Types.{Time}
use regstair.Security.FailureLimiter.{
  FailureEntry, FailureLimiter, entry_at, keys_of, is_stale, delete_stale, cleanup, longest_wait,
  longer_wait, is_off, allow, delete_all, success,
}

-- A key is blocked at a time by the entry that it has.
abbrev pub IsBlocked : Time → FailureLimiter → Text → Type 0
IsBlocked now l key = ltb now (entry_at l.entries key).blocked_until ≡ true

-- How long a key waits.
abbrev pub wait : Time → Map Text FailureEntry → Text → ℕ
wait now entries key = (entry_at entries key).blocked_until - now

-- The entry of what a map has under a key.
pub entry_of :
    (entries entries' : Map Text FailureEntry) (key : Text)
    → Maps.get entries key ≡ Maps.get entries' key
    → entry_at entries key ≡ entry_at entries' key
entry_of entries entries' key same = rw (same, entry_at) refl

stale_over :
    (now : Time) (retention : ℕ) (entry : FailureEntry)
    → is_stale now retention entry ≡ true
    → entry.blocked_until - now ≡ 0
unfolding is_stale
stale_over now retention entry stale = ground (arith, stale)

delete-wait :
    (now : Time) (retention : ℕ) (entries : Map Text FailureEntry) (key other : Text)
    → is_stale now retention (entry_at entries other) ≡ true
    → wait now (Maps.delete entries other) key ≡ wait now entries key
delete-wait now retention entries key other stale = elim (Bool-cases (text_beq other key)) [
  | inr e ↦
      ap (λ entry. entry.blocked_until - now)
        (entry_of (Maps.delete entries other) entries key
          (get-delete entries other key ∙ rw e refl))
  | inl e ↦
      let gone : Maps.get (Maps.delete entries other) key ≡ none =
        get-delete entries other key ∙ rw e refl in
      let over = stale_over now retention (entry_at entries other) stale in
      let ended : wait now entries key ≡ 0 = rw ((text_beq_iff other key).0 e) at over in
      rw (gone, entry_at) (omega (arith, ended))
]

pub delete_stale-wait :
    (now : Time) (retention : ℕ) (keys : List Text) (entries : Map Text FailureEntry) (key : Text)
    → wait now (delete_stale now retention keys entries) key ≡ wait now entries key
unfolding delete_stale
delete_stale-wait now retention [] entries key = refl
delete_stale-wait now retention (k ∷ keys) entries key =
    elim (Bool-cases (is_stale now retention (entry_at entries k))) [
      | inr e ↦ rw e (delete_stale-wait now retention keys entries key)
      | inl e ↦ rw e (
          delete_stale-wait now retention keys (Maps.delete entries k) key
          ∙ delete-wait now retention entries key k e)
    ]

longer_wait_lem :
    (now n until : ℕ)
    → (n ≤ longer_wait now n until)
      × (until - now ≤ longer_wait now n until)
      × ((longer_wait now n until ≡ n) ⊎ (longer_wait now n until ≡ until - now))
unfolding longer_wait
longer_wait_lem now n until = ground arith

longest_wait_least :
    (now : Time) (entries : Map Text FailureEntry) (keys : List Text) (n : ℕ)
    → n ≤ longest_wait now entries keys n
unfolding longest_wait
longest_wait_least now entries [] n = omega arith
longest_wait_least now entries (k ∷ keys) n =
    let until = (entry_at entries k).blocked_until in
    let (more, _, _) = longer_wait_lem now n until in
    omega (arith, more, longest_wait_least now entries keys (longer_wait now n until))

-- The longest wait is at least that of each key.
longest_wait_bound :
    (now : Time) (entries : Map Text FailureEntry) (keys : List Text) (n : ℕ) (key : Text)
    → In key keys
    → wait now entries key ≤ longest_wait now entries keys n
unfolding longest_wait
longest_wait_bound now entries [] n key m = absurd m
longest_wait_bound now entries (k ∷ keys) n key (inl e) =
    let until = (entry_at entries k).blocked_until in
    let (_, enough, _) = longer_wait_lem now n until in
    rw e (omega (arith, enough, longest_wait_least now entries keys (longer_wait now n until)))
longest_wait_bound now entries (k ∷ keys) n key (inr m) =
    longest_wait_bound now entries keys _ key m

-- And is that of one of them, if it is not the one at the start.
longest_wait_found :
    (now : Time) (entries : Map Text FailureEntry) (keys : List Text) (n : ℕ)
    → (longest_wait now entries keys n ≡ n)
      ⊎ ((key : Text) × In key keys × (longest_wait now entries keys n ≡ wait now entries key))
unfolding longest_wait
longest_wait_found now entries [] n = inl refl
longest_wait_found now entries (k ∷ keys) n =
    let until = (entry_at entries k).blocked_until in
    let (_, _, which) = longer_wait_lem now n until in
    elim (longest_wait_found now entries keys (longer_wait now n until)) [
      | inr (key, m, e) ↦ inr (key, inr m, e)
      | inl same ↦ elim which [
        | inl kept ↦ inl (same ∙ kept)
        | inr here ↦ inr (k, inl refl, same ∙ here)
      ]
    ]

-- A limiter that is on makes a request wait for the longest wait of its keys: each key's block is
-- over by then, and the request is let through exactly if there is nothing to wait for.
pub allow_lem :
    (now : Time) (keys : List Text) (l : FailureLimiter)
    → is_off (some l) ≡ false
    → (retry_after : ℕ) × ((allow now keys (some l)).0 ≡ (nat_beq retry_after 0, retry_after))
      × ((key : Text) → In key keys → wait now l.entries key ≤ retry_after)
      × ((retry_after ≡ 0) ⊎ ((key : Text) × In key keys × (retry_after ≡ wait now l.entries key)))
unfolding allow cleanup
allow_lem now keys l on =
    let cleaned = delete_stale now (l.window + l.block) (keys_of l.entries) l.entries in
    let same = delete_stale-wait now (l.window + l.block) (keys_of l.entries) l.entries in
    (
      longest_wait now cleaned keys 0,
      rw (on, allow) refl,
      (λ key m. rw (sym (same key)) (longest_wait_bound now cleaned keys 0 key m)),
      elim (longest_wait_found now cleaned keys 0) [
        | inl e ↦ inl e
        | inr (key, m, e) ↦ inr (key, m, e ∙ same key)
      ],
    )

delete_all-none :
    (keys : List Text) (entries : Map Text FailureEntry) (key : Text)
    → Maps.get entries key ≡ none
    → Maps.get (delete_all keys entries) key ≡ none
unfolding delete_all
delete_all-none [] entries key e = e
delete_all-none (k ∷ keys) entries key e =
    delete_all-none keys (Maps.delete entries k) key (ground (arith, e, get-delete entries k key))

delete_all_gone :
    (keys : List Text) (entries : Map Text FailureEntry) (key : Text)
    → In key keys
    → Maps.get (delete_all keys entries) key ≡ none
unfolding delete_all
delete_all_gone [] entries key m = absurd m
delete_all_gone (k ∷ keys) entries key (inl e) =
    delete_all-none keys (Maps.delete entries k) key
      (ground (arith, e, get-delete entries k key, text_beq_iff k key))
delete_all_gone (k ∷ keys) entries key (inr m) = delete_all_gone keys (Maps.delete entries k) key m

-- A success lets a request with the same keys through at once, whatever failures were before it.
pub allow-success :
    (now : Time) (keys : List Text) (l : Option FailureLimiter)
    → (allow now keys (success keys l)).0 ≡ (true, 0)
unfolding allow success
allow-success now keys none = refl
allow-success now keys (some l) = elim (Bool-cases (is_off (some l))) [
  | inl off ↦ rw (off, allow) refl
  | inr on ↦
      let forgotten : FailureLimiter = record l { entries = delete_all keys l.entries } in
      let (retry_after, answer, _, which) = allow_lem now keys forgotten on in
      let nothing : retry_after ≡ 0 = elim which [
        | inl e ↦ e
        | inr (key, m, e) ↦ e ∙ rw (delete_all_gone keys l.entries key m, entry_at) (omega arith)
      ] in
      answer ∙ rw nothing refl
]

-- What Allow leaves behind, where the limiter is on.
pub allow_cleaned :
    (now : Time) (keys : List Text) (l : FailureLimiter)
    → is_off (some l) ≡ false
    → (allow now keys (some l)).1 ≡ some (cleanup now l)
unfolding allow
allow_cleaned now keys l on = rw (on, allow) refl

pub allow_off :
    (now : Time) (keys : List Text) (l : FailureLimiter)
    → is_off (some l) ≡ true
    → allow now keys (some l) ≡ ((true, 0), some l)
unfolding allow
allow_off now keys l off = rw (off, allow) refl
