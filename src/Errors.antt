-- ===== src/Errors.antt =====
-- Go's error values and the messages that the program formats. A message is the list of the parts
-- that `fmt` joins; an error is its message with the sentinels that `errors.Is` finds in it.
use Prim.Native.String.{String}
use regstair.Base.{
  if◌then◌else◌, arith, ℕ, ℤ, ◌≡◌, refl, ◌⊎◌, inl, inr, Bool, false, List, [], ◌∷◌, ◌++◌, any,
  nat_beq,
}
use regstair.Strings.{Text}

-- The variables of the program that `errors.New` makes, and the errors of a context.
pub data Sentinel : Type 0 where
  -- internal/policy
  invalid_repository no_route push_denied : Sentinel
  -- internal/registry
  digest_mismatch not_found authentication authorization unavailable : Sentinel
  credential_required credential_unavailable : Sentinel
  -- internal/content
  blob_not_found blob_digest_mismatch unsupported_digest : Sentinel
  -- internal/resolution
  resolution_not_found source_unavailable unauthorized : Sentinel
  manifest_digest_mismatch staged_blob_missing : Sentinel
  -- internal/metadata
  invalid_record conflict : Sentinel
  -- internal/auth
  invalid_credentials invalid_access_token : Sentinel
  invalid_session invalid_csrf forbidden last_administrator : Sentinel
  password_policy secret_unavailable : Sentinel
  upstream_credentials upstream_permission upstream_unavailable : Sentinel
  verification_config upstream_failure : Sentinel
  -- internal/security
  unsafe_detail : Sentinel
  -- context.Canceled or context.DeadlineExceeded
  context_done : Sentinel

pub data Part : Type 0 where
  lit : String → Part
  -- %s, %q, %d of an int, %q of a rune, %d of an index
  plain quoted : Text → Part
  integer : ℤ → Part
  rune number : ℕ → Part

abbrev pub Message : Type 0
Message = List Part

pub record Error : Type 0 where
  pub wraps : List Sentinel
  pub message : Message

-- The number of a sentinel, to compare two.
abbrev index : Sentinel → ℕ
index invalid_repository = 0
index no_route = 1
index push_denied = 2
index digest_mismatch = 3
index not_found = 4
index authentication = 5
index authorization = 6
index unavailable = 7
index credential_required = 8
index credential_unavailable = 9
index blob_not_found = 10
index blob_digest_mismatch = 11
index unsupported_digest = 12
index resolution_not_found = 13
index source_unavailable = 14
index unauthorized = 15
index manifest_digest_mismatch = 16
index staged_blob_missing = 17
index invalid_record = 18
index conflict = 19
index invalid_credentials = 20
index invalid_access_token = 21
index context_done = 22
index invalid_session = 23
index invalid_csrf = 24
index forbidden = 25
index last_administrator = 26
index password_policy = 27
index secret_unavailable = 28
index upstream_credentials = 29
index upstream_permission = 30
index upstream_unavailable = 31
index verification_config = 32
index upstream_failure = 33
index unsafe_detail = 34

-- errors.Is(err, target): `target` is what `err` wraps, at any depth.
unfoldable pub errors_is : Error → Sentinel → Bool
errors_is e target = any (λ s. nat_beq (index s) (index target)) e.wraps

-- Whether one of several targets is found.
abbrev pub errors_is_any : Error → List Sentinel → Bool
errors_is_any e targets = any (errors_is e) targets

abbrev sentinel_text : Sentinel → String
sentinel_text invalid_repository = "invalid repository"
sentinel_text no_route = "no matching route"
sentinel_text push_denied = "push denied by route policy"
sentinel_text digest_mismatch = "digest mismatch"
sentinel_text not_found = "registry object not found"
sentinel_text authentication = "registry authentication failed"
sentinel_text authorization = "registry authorization failed"
sentinel_text unavailable = "registry unavailable"
sentinel_text credential_required = "registry credential required"
sentinel_text credential_unavailable = "registry credential unavailable"
sentinel_text blob_not_found = "blob not found"
sentinel_text blob_digest_mismatch = "digest mismatch"
sentinel_text unsupported_digest = "unsupported digest"
sentinel_text resolution_not_found = "resolution not found"
sentinel_text source_unavailable = "source unavailable"
sentinel_text unauthorized = "unauthorized"
sentinel_text manifest_digest_mismatch = "manifest digest mismatch"
sentinel_text staged_blob_missing = "staged blob missing"
sentinel_text invalid_record = "invalid metadata record"
sentinel_text conflict = "metadata conflict"
sentinel_text invalid_credentials = "invalid credentials"
sentinel_text invalid_access_token = "invalid OCI access token"
sentinel_text context_done = "context canceled"
sentinel_text invalid_session = "invalid session"
sentinel_text invalid_csrf = "invalid CSRF token"
sentinel_text forbidden = "forbidden"
sentinel_text last_administrator = "last enabled administrator cannot be disabled or demoted"
sentinel_text password_policy = "password does not meet policy"
sentinel_text secret_unavailable = "credential secret unavailable"
sentinel_text upstream_credentials = "upstream credentials rejected"
sentinel_text upstream_permission = "upstream permission insufficient"
sentinel_text upstream_unavailable = "upstream registry unavailable"
sentinel_text verification_config = "credential verification configuration invalid"
sentinel_text upstream_failure = "upstream registry verification failed"
sentinel_text unsafe_detail = "unsafe audit detail"

-- The sentinel itself, returned bare.
abbrev pub bare : Sentinel → Error
bare s = record { wraps = s ∷ []; message = lit (sentinel_text s) ∷ [] }

-- errors.New(text), or fmt.Errorf without %w
abbrev pub plain_error : Message → Error
plain_error m = record { wraps = []; message = m }

-- fmt.Errorf("%w: …", sentinel, …)
abbrev pub wrap : Sentinel → Message → Error
wrap s m = record { wraps = s ∷ []; message = lit (sentinel_text s) ∷ lit ": " ∷ m }

-- fmt.Errorf("…: %w", …, err)
abbrev pub prefixed : Message → Error → Error
prefixed m e = record { wraps = e.wraps; message = m ++ lit ": " ∷ e.message }

-- A function that returns a value and an error.
pub data Result {ℓ} (A : Type ℓ) : Type ℓ where
  ok : A → Result A
  err : Error → Result A

-- if bad { return err }
abbrev pub refuse_if : Bool → Error → Result (Unit {0})
refuse_if bad failure = if bad then err failure else ok tt

pub refuse_if-eq-ok : (bad : Bool) (failure : Error) → refuse_if bad failure ≡ ok tt → bad ≡ false
refuse_if-eq-ok bad failure passed = ground arith

module _ {ℓ} {A : Type ℓ} where
  pub Result-cases : (r : Result A) → ((value : A) × (r ≡ ok value)) ⊎ ((e : Error) × (r ≡ err e))
  Result-cases (err failure) = inr (failure, refl)
  Result-cases (ok value) = inl (value, refl)

-- if err != nil { return …, err }
infixl 5 ◌>>=◌ ◌>>◌
abbrev pub ◌>>=◌ {ℓ κ} : {A : Type ℓ} {B : Type κ} → Result A → (A → Result B) → Result B
r >>= rest = elim r [ err failure ↦ err failure | ok value ↦ rest value ]

abbrev pub ◌>>◌ {ℓ κ} : {A : Type ℓ} {B : Type κ} → Result A → Result B → Result B
first >> second = first >>= λ _. second

-- Where the whole succeeds, so did the first step.
pub >>-eq-ok {ℓ} :
    {B : Type ℓ} (first : Result (Unit {0})) (second : Result B) {b : B}
    → (first >> second) ≡ ok b
    → (first ≡ ok tt) × (second ≡ ok b)
>>-eq-ok (err failure) second h = absurd (cc)
>>-eq-ok (ok done) second h = (refl, h)

pub >>=-eq-ok {ℓ κ} :
    {A : Type ℓ} {B : Type κ} (first : Result A) (rest : A → Result B) {b : B}
    → (first >>= rest) ≡ ok b
    → (value : A) × (first ≡ ok value) × (rest value ≡ ok b)
>>=-eq-ok (err failure) rest h = absurd (cc)
>>=-eq-ok (ok value) rest h = (value, refl, h)
