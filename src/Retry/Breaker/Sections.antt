-- ===== src/Retry/Breaker/Sections.antt =====
-- Concurrent callers of one breaker: each takes its lock for one section at a time, so a run is a
-- sequence of sections in any order, from any callers.
use agent_brain.Base.{ℕ, suc, Bool, true, List, [], ◌∷◌}
use agent_brain.Retry.Breaker.{CircuitBreaker, try_half_open, record_result, reset}

pub data Section : Type 0 where
  upgrade : ℕ → Section  -- the write section of `canExecute`, at a time
  records : ℕ → Bool → Section  -- `recordResult`, at a time, with whether the call failed
  resets : Section  -- `Reset`

unfoldable pub take_section : Section → CircuitBreaker → CircuitBreaker
take_section (upgrade now) cb = try_half_open now cb
take_section (records now failed) cb = record_result now failed cb
take_section resets cb = reset cb

unfoldable pub run : List Section → CircuitBreaker → CircuitBreaker
run [] cb = cb
run (s ∷ ss) cb = run ss (take_section s cb)

-- How many failed calls a run records.
abbrev pub failures : List Section → ℕ
failures [] = 0
failures (records now true ∷ ss) = suc (failures ss)
failures (_ ∷ ss) = failures ss
