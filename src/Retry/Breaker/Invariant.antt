-- ===== src/Retry/Breaker/Invariant.antt =====
-- What holds of a breaker after any run of its callers' sections.
use agent_brain.Base.{ℕ, ◌+◌, ◌≤◌, ◌≡◌, refl, true, false, List, [], ◌∷◌, arith, ◌∙◌}
use native.Mathlib.Nat.{zero-add}
use agent_brain.Base.Int.{ℤ, pos, ◌≤ℤ◌, ◌<ℤ◌}
use agent_brain.Base.Bytes.{Bytes}
use agent_brain.Retry.Errors.{State, closed, opened, half_open}
use agent_brain.Retry.Breaker.{
  CircuitBreaker, is_closed, new_circuit_breaker, try_half_open, record_result, reset,
}
use agent_brain.Retry.Breaker.Sections.{
  Section, upgrade, records, resets, take_section, run, failures,
}

-- While the breaker is closed it has seen fewer failures than its limit since it was last closed, and
-- no counter runs ahead of the requests.
pub record IsCounted (cb : CircuitBreaker) : Type 0 where
  pub limited : pos 0 <ℤ cb.max_failures
  pub below : cb.state ≡ closed → pos cb.failure_count <ℤ cb.max_failures
  pub counted : cb.failure_count + cb.success_count ≤ cb.request_count

take_section-IsCounted :
    (s : Section) (cb : CircuitBreaker) → IsCounted cb → IsCounted (take_section s cb)
unfolding take_section try_half_open record_result reset
take_section-IsCounted (upgrade now) cb h = ground arith
take_section-IsCounted (records now true) cb h = ground arith
take_section-IsCounted (records now false) cb h = ground arith
take_section-IsCounted resets cb h = ground arith

-- Any interleaving of the callers' locked sections keeps this of a breaker with a positive limit,
-- such as a new one: while it is closed it has fewer failures on record than its limit, and its
-- failures and successes together do not exceed its requests.
pub run-IsCounted : (ss : List Section) (cb : CircuitBreaker) → IsCounted cb → IsCounted (run ss cb)
unfolding run
run-IsCounted [] cb h = h
run-IsCounted (s ∷ ss) cb h = run-IsCounted ss (take_section s cb) (take_section-IsCounted s cb h)

-- The transition diagram.
pub data Edge : State → State → Type 0 where
  trip : Edge closed opened
  probe : Edge opened half_open
  reopen : Edge half_open opened
  recover : Edge half_open closed
  force : Edge opened closed

-- The notices, newest first, lead from CLOSED to the state.
abbrev pub LeadTo : State → List (State × State) → Type 0
LeadTo s [] = s ≡ closed
LeadTo s ((from, to) ∷ ns) = (to ≡ s) × Edge from to × LeadTo from ns

pub record IsTraced (cb : CircuitBreaker) : Type 0 where
  pub watched : cb.observed ≡ true
  pub traced : LeadTo cb.state cb.notices

ruleset edges = (trip, probe, reopen, recover, force)

-- A section stays, or follows one edge and gives notice of it.
data Moves (cb cb' : CircuitBreaker) : Type 0 where
  stay : cb'.state ≡ cb.state → cb'.notices ≡ cb.notices → Moves cb cb'
  follow : Edge cb.state cb'.state → cb'.notices ≡ (cb.state, cb'.state) ∷ cb.notices → Moves cb cb'

take_section-Moves :
    (s : Section) (cb : CircuitBreaker) → cb.observed ≡ true → Moves cb (take_section s cb)
unfolding take_section try_half_open record_result reset
take_section-Moves (upgrade now) cb h = grind (arith, edges, stay, follow)
take_section-Moves (records now true) cb h = grind (arith, edges, stay, follow)
take_section-Moves (records now false) cb h = grind (arith, edges, stay, follow)
take_section-Moves resets cb h = grind (arith, edges, stay, follow)

take_section-observed :
    (s : Section) (cb : CircuitBreaker) → (take_section s cb).observed ≡ cb.observed
unfolding take_section try_half_open record_result reset
take_section-observed (upgrade now) cb = ground arith
take_section-observed (records now failed) cb = ground arith
take_section-observed resets cb = ground arith

Moves-IsTraced :
    (cb cb' : CircuitBreaker)
    → Moves cb cb'
    → cb'.observed ≡ cb.observed
    → IsTraced cb
    → IsTraced cb'
Moves-IsTraced cb cb' (stay e n) o h = record {
  watched = o ∙ h.watched;
  traced = rw (e, n) h.traced;
}
Moves-IsTraced cb cb' (follow e n) o h = record {
  watched = o ∙ h.watched;
  traced = rw n (refl, e, h.traced);
}

-- Any interleaving of the callers' locked sections keeps this of an observed breaker, such as a new
-- one: the state changes it gave notice of form one path of the transition diagram from CLOSED to
-- its present state.
pub run-IsTraced : (ss : List Section) (cb : CircuitBreaker) → IsTraced cb → IsTraced (run ss cb)
unfolding run
run-IsTraced [] cb h = h
run-IsTraced (s ∷ ss) cb h =
    run-IsTraced ss (take_section s cb)
      (Moves-IsTraced cb _ (take_section-Moves s cb h.watched) (take_section-observed s cb) h)

-- What a breaker that is not closed has behind it: at least as many failures as its limit.
record IsEarned (limit : ℤ) (seen : ℕ) (cb : CircuitBreaker) : Type 0 where
  same : cb.max_failures ≡ limit
  counted : cb.failure_count ≤ seen
  earned : is_closed cb.state ≡ false → limit ≤ℤ pos seen

abbrev failed_now : Section → ℕ
failed_now (records now true) = 1
failed_now _ = 0

failures-cons :
    (s : Section) (ss : List Section) (n : ℕ)
    → failures (s ∷ ss) + n ≡ failures ss + (failed_now s + n)
failures-cons (upgrade now) ss n = omega arith
failures-cons (records now true) ss n = omega arith
failures-cons (records now false) ss n = omega arith
failures-cons resets ss n = omega arith

take_section-IsEarned :
    (limit : ℤ) (n : ℕ) (s : Section) (cb : CircuitBreaker)
    → IsEarned limit n cb
    → IsEarned limit (failed_now s + n) (take_section s cb)
unfolding take_section try_half_open record_result reset
take_section-IsEarned limit n (upgrade now) cb h = ground arith
take_section-IsEarned limit n (records now true) cb h = ground arith
take_section-IsEarned limit n (records now false) cb h = ground arith
take_section-IsEarned limit n resets cb h = ground arith

run-IsEarned :
    (limit : ℤ) (n : ℕ) (ss : List Section) (cb : CircuitBreaker)
    → IsEarned limit n cb
    → IsEarned limit (failures ss + n) (run ss cb)
unfolding run
run-IsEarned limit n [] cb h = rw zero-add h
run-IsEarned limit n (s ∷ ss) cb h = rw (failures-cons s ss n) (
    run-IsEarned limit (failed_now s + n) ss (take_section s cb)
      (take_section-IsEarned limit n s cb h))

-- A new breaker is out of the CLOSED state only after its callers recorded at least as many
-- failures as its limit, in any interleaving of their sections.
pub open_needs_failures :
    (name : Bytes) (limit timeout : ℤ) (ss : List Section)
    → is_closed (run ss (new_circuit_breaker name limit timeout)).state ≡ false
    → limit ≤ℤ pos (failures ss)
unfolding new_circuit_breaker
open_needs_failures name limit timeout ss h =
    let start : IsEarned limit 0 (new_circuit_breaker name limit timeout) = ground arith in
    omega (arith, (run-IsEarned limit 0 ss (new_circuit_breaker name limit timeout) start).earned h)
