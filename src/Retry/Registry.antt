-- ===== src/Retry/Registry.antt =====
-- internal/retry/circuit_breaker.go: `CircuitBreakerRegistry`. Callers hold pointers into the heap of
-- breakers, so a breaker is reached by its address as well as by its name. The registry's lock makes
-- each operation one step.
pub mod Heap
pub mod Refine
use agent_brain.Base.{ℕ, zero, suc, Option, none, some, List, [], ◌∷◌, ◌++◌, length, get_elem?}
use agent_brain.Base.Int.{ℤ}
use agent_brain.Base.Bytes.{Bytes}
use agent_brain.Base.Map.{Map, lookup, insert, erase}
use agent_brain.Retry.Breaker.{CircuitBreaker, new_circuit_breaker, reset}

-- The heap, and the registry's map from names to addresses in it.
pub record Registry : Type 0 where
  pub heap : List CircuitBreaker
  pub breakers : Map ℕ

-- A method called through a pointer.
unfoldable pub modify :
    ℕ → (CircuitBreaker → CircuitBreaker) → List CircuitBreaker → List CircuitBreaker
modify a f [] = []
modify zero f (cb ∷ heap) = f cb ∷ heap
modify (suc a) f (cb ∷ heap) = cb ∷ modify a f heap

unfoldable pub call : ℕ → (CircuitBreaker → CircuitBreaker) → Registry → Registry
unfolding modify
call a f r = record r { heap = modify a f r.heap }

-- `NewCircuitBreakerRegistry`
unfoldable pub new_registry : Registry
new_registry = record { heap = []; breakers = [] }

-- `GetOrCreate`
unfoldable pub get_or_create : Bytes → ℤ → ℤ → Registry → ℕ × Registry
unfolding lookup insert
get_or_create name max_failures reset_timeout r = elim (lookup name r.breakers) [
  | some a ↦ (a, r)
  | none ↦ (
    length r.heap,
    record {
      heap = r.heap ++ (new_circuit_breaker name max_failures reset_timeout ∷ []);
      breakers = insert name (length r.heap) r.breakers;
    },
  )
]

-- `Get`
unfoldable pub get : Bytes → Registry → Option ℕ
unfolding lookup
get name r = lookup name r.breakers

-- `List`, in the order of the map's iteration.
abbrev addresses : Map ℕ → List ℕ
addresses [] = []
addresses ((name, a) ∷ m) = a ∷ addresses m

unfoldable pub list_breakers : Registry → List ℕ
list_breakers r = addresses r.breakers

-- The loop of `Reset`.
unfoldable pub reset_all : List ℕ → List CircuitBreaker → List CircuitBreaker
unfolding modify reset
reset_all [] heap = heap
reset_all (a ∷ rest) heap = reset_all rest (modify a reset heap)

-- `Reset`
unfoldable pub reset_registry : Registry → Registry
reset_registry r = record r { heap = reset_all (addresses r.breakers) r.heap }

-- `Remove`
unfoldable pub remove : Bytes → Registry → Registry
unfolding erase
remove name r = record r { breakers = erase name r.breakers }
