-- ===== src/Retry/Registry/Heap.antt =====
-- internal/retry/circuit_breaker.go: the heap of breakers under method calls, new breakers and resets.
use agent_brain.Base.{
  ℕ, zero, suc, ◌<◌, ◌≡◌, refl, ap, ◌∙◌, Bool, true, false, Option, none, some, List, [], ◌∷◌, ◌++◌,
  length, get_elem?, any, if_cases, if◌then◌else◌, Bool-cases, inl, inr, arith, some_inj, ◌==◌,
}
use agent_brain.Base.Bytes.{Bytes, bytes_eq}
use agent_brain.Base.Map.{Map, lookup}
use agent_brain.Retry.Breaker.{CircuitBreaker, reset}
use agent_brain.Retry.Registry.{modify, reset_all, addresses}

-- What an address points to.
abbrev pub fetch : List CircuitBreaker → Option ℕ → Option CircuitBreaker
fetch heap none = none
fetch heap (some a) = get_elem? heap a

unfoldable pub mapped :
    (CircuitBreaker → CircuitBreaker) → Option CircuitBreaker → Option CircuitBreaker
mapped f none = none
mapped f (some cb) = some (f cb)

pub get_elem?-modify :
    (a i : ℕ) (f : CircuitBreaker → CircuitBreaker) (heap : List CircuitBreaker)
    → get_elem? (modify a f heap) i
      ≡ (if a == i then mapped f (get_elem? heap i) else get_elem? heap i)
unfolding modify mapped
get_elem?-modify a i f [] = ground arith
get_elem?-modify zero zero f (cb ∷ heap) = refl
get_elem?-modify zero (suc i) f (cb ∷ heap) = ground arith
get_elem?-modify (suc a) zero f (cb ∷ heap) = ground arith
get_elem?-modify (suc a) (suc i) f (cb ∷ heap) = ground (arith, get_elem?-modify a i f heap)

pub length-modify :
    (a : ℕ) (f : CircuitBreaker → CircuitBreaker) (heap : List CircuitBreaker)
    → length (modify a f heap) ≡ length heap
unfolding modify
length-modify a f [] = refl
length-modify zero f (cb ∷ heap) = refl
length-modify (suc a) f (cb ∷ heap) = ap suc (length-modify a f heap)

pub get_elem?-below :
    (i : ℕ) (heap : List CircuitBreaker)
    → i < length heap
    → (cb : CircuitBreaker) × (get_elem? heap i ≡ some cb)
get_elem?-below i [] h = absurd (omega arith)
get_elem?-below zero (cb ∷ heap) h = (cb, refl)
get_elem?-below (suc i) (cb ∷ heap) h = get_elem?-below i heap (omega arith)

pub fetch-if :
    (heap : List CircuitBreaker) (b : Bool) (o o' : Option ℕ)
    → fetch heap (if b then o else o') ≡ (if b then fetch heap o else fetch heap o')
fetch-if heap true o o' = refl
fetch-if heap false o o' = refl

pub if_same : {A : Type 0} (b : Bool) (x : A) → (if b then x else x) ≡ x
if_same true x = refl
if_same false x = refl

pub get_elem?-end :
    (cb : CircuitBreaker) (heap : List CircuitBreaker)
    → get_elem? (heap ++ (cb ∷ [])) (length heap) ≡ some cb
get_elem?-end cb [] = refl
get_elem?-end cb (x ∷ heap) = get_elem?-end cb heap

pub get_elem?-front :
    (i : ℕ) (cb : CircuitBreaker) (heap : List CircuitBreaker)
    → i < length heap
    → get_elem? (heap ++ (cb ∷ [])) i ≡ get_elem? heap i
get_elem?-front i cb [] h = absurd (omega arith)
get_elem?-front zero cb (x ∷ heap) h = refl
get_elem?-front (suc i) cb (x ∷ heap) h = get_elem?-front i cb heap (omega arith)

pub mapped-reset : (o : Option CircuitBreaker) → mapped reset (mapped reset o) ≡ mapped reset o
unfolding mapped reset
mapped-reset none = refl
mapped-reset (some cb) = refl

pub get_elem?-reset_all :
    (places : List ℕ) (heap : List CircuitBreaker) (i : ℕ)
    → get_elem? (reset_all places heap) i
      ≡ (if any (λ a. a == i) places then mapped reset (get_elem? heap i) else get_elem? heap i)
unfolding reset_all
get_elem?-reset_all [] heap i = refl
get_elem?-reset_all (a ∷ rest) heap i =
    get_elem?-reset_all rest (modify a reset heap) i
    ∙ rw (get_elem?-modify a i reset heap)
        (twice (any (λ b. b == i) rest) (a == i) (get_elem? heap i))
  where
    twice :
        (b c : Bool) (o : Option CircuitBreaker)
        → (if b
            then mapped reset (if c then mapped reset o else o)
            else (if c then mapped reset o else o))
          ≡ (if (if c then true else b) then mapped reset o else o)
    twice true true o = mapped-reset o
    twice true false o = refl
    twice false true o = refl
    twice false false o = refl

pub listed :
    (j : Bytes) (a : ℕ) (m : Map ℕ) → lookup j m ≡ some a → any (λ b. b == a) (addresses m) ≡ true
unfolding lookup
listed j a [] e = cc
listed j a ((k, b) ∷ m) e = elim (Bool-cases (bytes_eq k j)) [
  | inl same ↦ let here = some_inj (rw same at e) in ground (arith, here)
  | inr apart ↦ if_cases (λ t. t ≡ true) (b == a) _ _ refl (listed j a m (rw apart at e))
]

pub length-reset_all :
    (places : List ℕ) (heap : List CircuitBreaker) → length (reset_all places heap) ≡ length heap
unfolding reset_all
length-reset_all [] heap = refl
length-reset_all (a ∷ rest) heap =
    length-reset_all rest (modify a reset heap) ∙ length-modify a reset heap
