-- ===== src/Retry/Executor/Rule.antt =====
-- The rule by which a client reasons about a retried operation.
use agent_brain.Base.{
  refl, ℕ, zero, suc, ◌+◌, ◌≤◌, ◌<◌, ◌≡◌, Option, none, some, arith, if_cases, not,
}
use agent_brain.Base.Int.{negsuc, ◌≤ℤ◌, ℤ, pos, pos_part, eqb_ℤ}
use agent_brain.Retry.Errors.{Error, Result, ok, err}
use agent_brain.Retry.Breaker.{CircuitBreaker, can_execute, execute_guarded}
use agent_brain.Retry.Policy.{RetryPolicy, is_retryable}
use agent_brain.Retry.Executor.{
  Runtime, Operation, notify, resume, pause, after_attempt, run_attempts, execute,
  with_circuit_breaker,
}

-- After a success `Q` holds of the result and the state, after an error `P` of the state.
abbrev pub Ends : {W T : Type 0} → (W → Type 0) → (T → W → Type 0) → Result T × W → Type 0
Ends P Q (ok v, w) = Q v w
Ends P Q (err e, w) = P w

-- `P k` holds of the state after k failed attempts.
module _ {W T : Type 0} (rt : Runtime W) (p : RetryPolicy W) (op : Operation W T)
    (P : ℕ → W → Type 0) (Q : T → W → Type 0)
    (attempted : (k : ℕ) (w : W) → k < pos_part p.max_attempts → P k w → Ends (P (suc k)) Q (op w))
    (notified : (k j : ℕ) (e : Error) (w : W) → P k w → P k (notify p j e w))
    (waited : (k : ℕ) (d : ℤ) (w : W) → P k w → P k (rt.wait d w).1) where
  -- Some number of attempts within the limit has failed.
  abbrev pub Failed : W → Type 0
  Failed w = (k : ℕ) × (k ≤ pos_part p.max_attempts) × P k w

  resume-Ends :
      (k : ℕ) (e : Error) (next : Option Error → W → Result T × W) (r : Option Error × W)
      → k ≤ pos_part p.max_attempts
      → ((last : Option Error) (w' : W) → P k w' → Ends Failed Q (next last w'))
      → P k r.1
      → Ends Failed Q (resume rt p e next r)
  unfolding resume
  resume-Ends k e next (some c, w) le rest h = (k, le, h)
  resume-Ends k e next (none, w) le rest h = rest (some e) w h

  pause-Ends :
      (k j : ℕ) (e : Error) (next : Option Error → W → Result T × W) (w : W)
      → k ≤ pos_part p.max_attempts
      → ((last : Option Error) (w' : W) → P k w' → Ends Failed Q (next last w'))
      → P k w
      → Ends Failed Q (pause rt p j e next w)
  unfolding pause
  pause-Ends k j e next w le rest h =
      resume-Ends k e next (rt.wait _ (notify p j e w)) le rest
        (waited k _ (notify p j e w) (notified k j e w h))

  after_attempt-Ends :
      (k j : ℕ) (next : Option Error → W → Result T × W) (r : Result T × W)
      → k ≤ pos_part p.max_attempts
      → ((last : Option Error) (w' : W) → P k w' → Ends Failed Q (next last w'))
      → Ends (P k) Q r
      → Ends Failed Q (after_attempt rt p j next r)
  unfolding after_attempt
  after_attempt-Ends k j next (ok v, w) le rest h = h
  after_attempt-Ends k j next (err e, w) le rest h =
      if_cases (Ends Failed Q) (not (is_retryable p e)) _ _ (k, le, h)
        (if_cases (Ends Failed Q) (eqb_ℤ (pos j) p.max_attempts) _ _ (k, le, h)
          (pause-Ends k j e next w le rest h))

  run_attempts-Ends :
      (n k j : ℕ) (last : Option Error) (w : W)
      → n + k ≡ pos_part p.max_attempts
      → P k w
      → Ends Failed Q (run_attempts rt p op n j last w)
  unfolding run_attempts
  run_attempts-Ends zero k j last w fits h = (k, omega arith, h)
  run_attempts-Ends (suc n) k j last w fits h =
      after_attempt-Ends (suc k) j (run_attempts rt p op n (suc j)) (op w) (omega arith)
        (λ l w' h'. run_attempts-Ends n (suc k) (suc j) l w' (omega arith) h')
        (attempted k w (omega arith) h)

  -- What every attempt, callback and wait keeps holds after the whole loop, with no more failed
  -- attempts than the policy allows; a success ends with what the last attempt achieved.
  pub execute-Ends : (w : W) → P 0 w → Ends Failed Q (execute rt p op w)
  unfolding execute
  execute-Ends w h = run_attempts-Ends (pos_part p.max_attempts) 0 1 none w (omega arith) h

-- The rule for a call behind a breaker, which runs it or leaves the state.
pub with_circuit_breaker-Ends :
    {W T : Type 0} (clock : W → ℕ) (op : Operation W T) (P : W → Type 0) (Q : T → W → Type 0)
    (cb : CircuitBreaker) (w : W)
    → P w
    → Ends P Q (op w)
    → Ends (λ x. P x.1) (λ v x. Q v x.1) (with_circuit_breaker clock op (cb, w))
unfolding with_circuit_breaker execute_guarded
with_circuit_breaker-Ends {W} {T} clock op P Q cb w h k =
    if_cases
      (λ (x : Result T × CircuitBreaker × W).
        Ends (λ (y : CircuitBreaker × W). P y.1) (λ v y. Q v y.1) (x.0, (x.1, x.2)))
      (can_execute (clock w) (clock w) cb).0 _ _ (ran (op w) _ k) h
  where
    ran :
        (r : Result T × W) (cb' : CircuitBreaker)
        → Ends P Q r
        → Ends (λ (y : CircuitBreaker × W). P y.1) (λ v y. Q v y.1) (r.0, (cb', r.1))
    ran (ok v, w') cb' k = k
    ran (err e, w') cb' k = k

attempts : (m : ℤ) → pos 1 ≤ℤ m → (n : ℕ) × (pos_part m ≡ suc n)
attempts (pos zero) h = absurd (omega arith)
attempts (pos (suc n)) h = (n, refl)
attempts (negsuc n) h = absurd (omega arith)

-- A first attempt that succeeds ends the loop.
pub execute-first :
    {W T : Type 0} (rt : Runtime W) (p : RetryPolicy W) (op : Operation W T) (w : W) (v : T)
    → pos 1 ≤ℤ p.max_attempts
    → (op w).0 ≡ ok v
    → (execute rt p op w).0 ≡ ok v
unfolding execute run_attempts after_attempt
execute-first {W} {T} rt p op w v limit e =
    let (n, counted) = attempts p.max_attempts limit in
    rw counted (go (op w) (run_attempts rt p op n 2) e)
  where
    go :
        (r : Result T × W) (next : Option Error → W → Result T × W)
        → r.0 ≡ ok v
        → (after_attempt rt p 1 next r).0 ≡ ok v
    go (ok u, w') next e = e
    go (err x, w') next e = cc
