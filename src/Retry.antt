-- ===== src/Retry.antt =====
-- internal/retry: errors that are worth another attempt, delays, the circuit breaker and the loop
-- that retries an operation.
pub mod Contains
pub mod Errors
pub mod Breaker
pub mod Policy
pub mod Executor
pub mod Registry
pub mod Settings
