-- ===== src/Retry/Errors.antt =====
-- internal/retry/policy.go: which errors are worth another attempt. Errors are modelled by what the
-- code inspects: the two values of the `context` package, a breaker's rejection, and any other by
-- its text; `wrapped p e` is `fmt.Errorf(p + ": %w", e)`.
use agent_brain.Base.{
  ◌≡◌, refl, Bool, true, false, Option, none, some, List, [], ◌∷◌, ◌++◌, arith, if◌then◌else◌,
  Bool-cases, inl, inr,
}
use agent_brain.Base.Bytes.{Bytes, codes}
use agent_brain.Retry.Contains.{contains, contains-prefix}

-- circuit_breaker.go: `State`.
pub data State : Type 0 where
  closed opened half_open : State

unfoldable pub state_text : State → Bytes
state_text closed = codes "CLOSED"
state_text opened = codes "OPEN"
state_text half_open = codes "HALF_OPEN"

pub data Error : Type 0 where
  canceled deadline_exceeded : Error
  breaker_error : Bytes → State → Error
  message : Bytes → Error
  wrapped : Bytes → Error → Error

-- What a Go function with results `(T, error)` returns; the zero value beside an error is left out.
pub data Result {ℓ} (T : Type ℓ) : Type ℓ where
  ok : T → Result T
  err : Error → Result T

abbrev pub is_err {ℓ} : {T : Type ℓ} → Result T → Bool
is_err (ok _) = false
is_err (err _) = true

-- `err.Error()`
unfoldable pub error_text : Error → Bytes
unfolding state_text
error_text canceled = codes "context canceled"
error_text deadline_exceeded = codes "context deadline exceeded"
error_text (breaker_error name s) =
    codes "circuit breaker '" ++ (name ++ (codes "' is " ++ state_text s))
error_text (message t) = t
error_text (wrapped p e) = p ++ (codes ": " ++ error_text e)

-- `err == context.Canceled || err == context.DeadlineExceeded`
unfoldable pub is_context_error : Error → Bool
is_context_error canceled = true
is_context_error deadline_exceeded = true
is_context_error _ = false

-- `for _, pattern := range patterns { if contains(errStr, pattern) { return true } }`
unfoldable pub contains_any : Bytes → List Bytes → Bool
contains_any s [] = false
contains_any s (p ∷ ps) = if contains s p then true else contains_any s ps

unfoldable pub retryable_patterns : List Bytes
retryable_patterns =
    codes "connection reset"
    ∷ codes "connection refused"
    ∷ codes "timeout"
    ∷ codes "temporary failure"
    ∷ codes "service unavailable"
    ∷ codes "too many requests"
    ∷ codes "rate limit"
    ∷ codes "throttled"
    ∷ codes "internal server error"
    ∷ codes "bad gateway"
    ∷ codes "service temporarily unavailable"
    ∷ codes "gateway timeout"
    ∷ []

unfoldable pub default_retryable : Option Error → Bool
default_retryable none = false
default_retryable (some e) =
    if is_context_error e then false else contains_any (error_text e) retryable_patterns

unfoldable pub s3_retryable_patterns : List Bytes
s3_retryable_patterns =
    codes "RequestTimeout"
    ∷ codes "ServiceUnavailable"
    ∷ codes "Throttling"
    ∷ codes "ProvisionedThroughputExceeded"
    ∷ codes "SlowDown"
    ∷ codes "InternalError"
    ∷ codes "RequestTimeTooSkewed"
    ∷ []

unfoldable pub s3_non_retryable_patterns : List Bytes
s3_non_retryable_patterns =
    codes "NoSuchBucket"
    ∷ codes "NoSuchKey"
    ∷ codes "AccessDenied"
    ∷ codes "InvalidArgument"
    ∷ codes "InvalidBucketName"
    ∷ codes "BucketAlreadyExists"
    ∷ codes "BucketNotEmpty"
    ∷ []

-- The common shape of `S3RetryableFunc` and `APIRetryableFunc`.
by_patterns : List Bytes → List Bytes → Option Error → Bool
by_patterns retry refuse none = false
by_patterns retry refuse (some e) =
    if is_context_error e
    then false
    else if contains_any (error_text e) retry
    then true
    else if contains_any (error_text e) refuse
    then false
    else default_retryable (some e)

unfoldable pub s3_retryable : Option Error → Bool
unfolding by_patterns
s3_retryable = by_patterns s3_retryable_patterns s3_non_retryable_patterns

unfoldable pub api_retryable_patterns : List Bytes
api_retryable_patterns =
    codes "status 429"
    ∷ codes "status 500"
    ∷ codes "status 502"
    ∷ codes "status 503"
    ∷ codes "status 504"
    ∷ []

unfoldable pub api_non_retryable_patterns : List Bytes
api_non_retryable_patterns =
    codes "status 400"
    ∷ codes "status 401"
    ∷ codes "status 403"
    ∷ codes "status 404"
    ∷ codes "status 409"
    ∷ codes "status 410"
    ∷ codes "status 422"
    ∷ []

unfoldable pub api_retryable : Option Error → Bool
unfolding by_patterns
api_retryable = by_patterns api_retryable_patterns api_non_retryable_patterns

contains_any-prefix :
    (p s : Bytes) (ps : List Bytes) → contains_any s ps ≡ true → contains_any (p ++ s) ps ≡ true
unfolding contains_any
contains_any-prefix p s [] h = cc
contains_any-prefix p s (q ∷ ps) h = elim (Bool-cases (contains s q)) [
  | inl hit ↦ rw (contains-prefix p s q hit)
  | inr miss ↦ ground (arith, contains_any-prefix p s ps (rw miss at h))
]

retryable_text :
    (e : Error)
    → default_retryable (some e) ≡ true
    → contains_any (error_text e) retryable_patterns ≡ true
unfolding default_retryable
retryable_text e h = elim (Bool-cases (is_context_error e)) [
  | inl context ↦ cc (rw context at h)
  | inr other ↦ rw other at h
]

wrapped_text :
    (p : Bytes) (e : Error)
    → contains_any (error_text (wrapped p e)) retryable_patterns ≡ true
    → default_retryable (some (wrapped p e)) ≡ true
unfolding default_retryable is_context_error
wrapped_text p e h = h

-- An error that is worth a retry stays so when it is wrapped in a further text.
pub default_retryable-wrapped :
    (p : Bytes) (e : Error)
    → default_retryable (some e) ≡ true
    → default_retryable (some (wrapped p e)) ≡ true
unfolding error_text
default_retryable-wrapped p e h =
    let text =
      contains_any-prefix (codes ": ") (error_text e) retryable_patterns (retryable_text e h) in
    wrapped_text p e (contains_any-prefix p (codes ": " ++ error_text e) retryable_patterns text)

-- The error of the table's own breaker is not worth a retry by the table's policy, in any state of
-- the breaker.
pub delta_breaker_not_retryable :
    (s : State) → default_retryable (some (breaker_error (codes "delta_operations") s)) ≡ false
unfolding default_retryable is_context_error contains_any contains retryable_patterns error_text
delta_breaker_not_retryable closed = refl
delta_breaker_not_retryable opened = refl
delta_breaker_not_retryable half_open = refl
