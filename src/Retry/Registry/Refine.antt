-- ===== src/Retry/Registry/Refine.antt =====
-- internal/retry/circuit_breaker.go: the registry beside a finite map of breakers.
use mathlib.Core.Path.{fun_ext}
use agent_brain.Base.{
  ℕ, ◌<◌, ◌≡◌, refl, sym, ap, ◌∙◌, Bool, true, false, Option, none, some, List, [], ◌∷◌, ◌++◌,
  length, get_elem?, if_both, length-append, ◌⊎◌, if◌then◌else◌, Bool-cases, Option-cases, inl, inr,
  arith, some_inj, ◌==◌, ==_iff,
}
use agent_brain.Base.Int.{ℤ}
use agent_brain.Base.Bytes.{Bytes, bytes_eq, bytes_eq_iff}
use agent_brain.Base.Map.{lookup, insert, erase, lookup-insert, lookup-erase}
use agent_brain.Retry.Breaker.{CircuitBreaker, new_circuit_breaker, reset}
use agent_brain.Retry.Registry.{
  Registry, call, get_or_create, get, reset_all, reset_registry, remove, addresses,
}
use agent_brain.Retry.Registry.Heap.{
  mapped, get_elem?-modify, length-modify, get_elem?-below, get_elem?-end, get_elem?-front,
  get_elem?-reset_all, length-reset_all, listed, fetch, fetch-if, if_same,
}

-- What stands under a name: the map that the registry implements.
unfoldable pub view : Registry → Bytes → Option CircuitBreaker
view r name = fetch r.heap (lookup name r.breakers)

-- Every address is in the heap, and two names never share one.
unfoldable pub IsSound : Registry → Type 0
IsSound r =
    ((n : Bytes) (a : ℕ) → lookup n r.breakers ≡ some a → a < length r.heap)
    × ((n m : Bytes) (a : ℕ) → lookup n r.breakers ≡ some a → lookup m r.breakers ≡ some a → n ≡ m)

-- What is done with a registry: a breaker made, a method called on the breaker that a name gives, all
-- breakers reset, a name removed.
pub data Command : Type 0 where
  create : Bytes → ℤ → ℤ → Command
  through : Bytes → (CircuitBreaker → CircuitBreaker) → Command
  reset_every : Command
  drop_name : Bytes → Command

unfoldable pub perform : Command → Registry → Registry
perform (create n max_failures reset_timeout) r = (get_or_create n max_failures reset_timeout r).1
perform (through n f) r = elim (get n r) [ some a ↦ call a f r | none ↦ r ]
perform reset_every r = reset_registry r
perform (drop_name n) r = remove n r

unfoldable pub perform_all : List Command → Registry → Registry
perform_all [] r = r
perform_all (c ∷ cs) r = perform_all cs (perform c r)

-- The same on a finite map, where nothing is shared.
unfoldable pub specify : Command → (Bytes → Option CircuitBreaker) → Bytes → Option CircuitBreaker
unfolding mapped
specify (create n max_failures reset_timeout) v j = elim (v n) [
  | some cb ↦ v j
  | none ↦ if bytes_eq n j then some (new_circuit_breaker n max_failures reset_timeout) else v j
]
specify (through n f) v j = if bytes_eq n j then mapped f (v j) else v j
specify reset_every v j = mapped reset (v j)
specify (drop_name n) v j = if bytes_eq n j then none else v j

unfoldable pub specify_all :
    List Command → (Bytes → Option CircuitBreaker) → Bytes → Option CircuitBreaker
specify_all [] v = v
specify_all (c ∷ cs) v = specify_all cs (specify c v)

-- Absent names and names of the heap, as the view has them.
view-none : (r : Registry) (n : Bytes) → lookup n r.breakers ≡ none → view r n ≡ none
unfolding view
view-none r n e = rw (view, e) refl

view-some :
    (r : Registry) (n : Bytes) (a : ℕ)
    → lookup n r.breakers ≡ some a
    → view r n ≡ get_elem? r.heap a
unfolding view
view-some r n a e = rw (view, e) refl

call-IsSound :
    (a : ℕ) (f : CircuitBreaker → CircuitBreaker) (r : Registry) → IsSound r → IsSound (call a f r)
unfolding call IsSound
call-IsSound a f r (inside, alone) = (λ n b e. rw (length-modify a f r.heap) (inside n b e), alone)

remove-IsSound : (n : Bytes) (r : Registry) → IsSound r → IsSound (remove n r)
unfolding remove IsSound
remove-IsSound n r (inside, alone) =
    (λ j a e. inside j a (kept j a e), λ j k a e e'. alone j k a (kept j a e) (kept k a e'))
  where
    kept :
        (j : Bytes) (a : ℕ) → lookup j (erase n r.breakers) ≡ some a → lookup j r.breakers ≡ some a
    kept j a e = erased (bytes_eq n j) (sym (lookup-erase n j r.breakers) ∙ e)
      where
        erased :
            (b : Bool)
            → (if b then none else lookup j r.breakers) ≡ some a
            → lookup j r.breakers ≡ some a
        erased true h = cc
        erased false h = h

view-remove :
    (n : Bytes) (r : Registry) (j : Bytes)
    → view (remove n r) j ≡ (if bytes_eq n j then none else view r j)
unfolding view remove
view-remove n r j =
    ap (fetch r.heap) (lookup-erase n j r.breakers)
    ∙ fetch-if r.heap (bytes_eq n j) none (lookup j r.breakers)

-- In a sound registry, names and addresses are equal together.
same_breaker :
    (n j : Bytes) (a b : ℕ) (r : Registry)
    → IsSound r
    → lookup n r.breakers ≡ some a
    → lookup j r.breakers ≡ some b
    → (a == b) ≡ bytes_eq n j
unfolding IsSound
same_breaker n j a b r (inside, alone) e e' = elim (Bool-cases (bytes_eq n j)) [
  | inl same ↦
      let names : n ≡ j = (bytes_eq_iff n j).0 same in
      let addresses : a ≡ b = some_inj (sym e ∙ ap (λ k. lookup k r.breakers) names ∙ e') in
      ground (arith, same)
  | inr apart ↦ rw apart (differ (a == b) refl apart)
]
  where
    differ : (t : Bool) → (a == b) ≡ t → bytes_eq n j ≡ false → t ≡ false
    differ false h apart = refl
    differ true h apart =
        let names = alone n j a e (rw ((==_iff a b).0 h) e') in
        sym ((bytes_eq_iff n j).1 names) ∙ apart

view-call :
    (n : Bytes) (a : ℕ) (f : CircuitBreaker → CircuitBreaker) (r : Registry) (j : Bytes)
    → IsSound r
    → lookup n r.breakers ≡ some a
    → view (call a f r) j ≡ (if bytes_eq n j then mapped f (view r j) else view r j)
unfolding call mapped
view-call n a f r j sound e = elim (Option-cases (lookup j r.breakers)) [
  | inl absent ↦
      view-none (call a f r) j absent
      ∙ rw (view-none r j absent) (sym (if_same (bytes_eq n j) none))
  | inr (b, present) ↦
      view-some (call a f r) j b present
      ∙ get_elem?-modify a b f r.heap
      ∙ rw (view-some r j b present, same_breaker n j a b r sound e present) refl
]

-- The registry with a new breaker behind its heap, under a name that had none.
abbrev grown : Bytes → CircuitBreaker → Registry → Registry
grown n cb r = record { heap = r.heap ++ (cb ∷ []); breakers = insert n (length r.heap) r.breakers }

view-grown :
    (n : Bytes) (cb : CircuitBreaker) (r : Registry) (j : Bytes)
    → IsSound r
    → view (grown n cb r) j ≡ (if bytes_eq n j then some cb else view r j)
unfolding view IsSound
view-grown n cb r j (inside, alone) =
    ap (fetch (r.heap ++ (cb ∷ []))) (lookup-insert n j (length r.heap) r.breakers)
    ∙ fetch-if (r.heap ++ (cb ∷ [])) (bytes_eq n j) (some (length r.heap)) (lookup j r.breakers)
    ∙ if_both (◌≡◌) (bytes_eq n j) _ _ _ _ (get_elem?-end cb r.heap)
        (before (lookup j r.breakers) refl)
  where
    before :
        (o : Option ℕ) → lookup j r.breakers ≡ o → fetch (r.heap ++ (cb ∷ [])) o ≡ fetch r.heap o
    before none e = refl
    before (some a) e = get_elem?-front a cb r.heap (inside j a e)

grown-IsSound :
    (n : Bytes) (cb : CircuitBreaker) (r : Registry)
    → IsSound r
    → lookup n r.breakers ≡ none
    → IsSound (grown n cb r)
unfolding IsSound
grown-IsSound n cb r (inside, alone) free =
    (λ j a e. bound j a (place j a e), λ j k a e e'. single j k a (place j a e) (place k a e'))
  where
    Place : Bytes → ℕ → Type 0
    Place j a = ((n ≡ j) × (a ≡ length r.heap)) ⊎ (lookup j r.breakers ≡ some a)

    place :
        (j : Bytes) (a : ℕ) → lookup j (insert n (length r.heap) r.breakers) ≡ some a → Place j a
    place j a e =
        let found = sym (lookup-insert n j (length r.heap) r.breakers) ∙ e in
        elim (Bool-cases (bytes_eq n j)) [
          | inl same ↦ inl ((bytes_eq_iff n j).0 same, sym (some_inj (rw same at found)))
          | inr apart ↦ inr (rw apart at found)
        ]

    bound : (j : Bytes) (a : ℕ) → Place j a → a < length (r.heap ++ (cb ∷ []))
    bound j a (inl p) = omega (arith, p.1, length-append r.heap (cb ∷ []))
    bound j a (inr q) = omega (arith, inside j a q, length-append r.heap (cb ∷ []))

    single : (j k : Bytes) (a : ℕ) → Place j a → Place k a → j ≡ k
    single j k a (inl p) (inl q) = sym p.0 ∙ q.0
    single j k a (inl p) (inr q) = absurd (omega (arith, p.1, inside k a q))
    single j k a (inr p) (inl q) = absurd (omega (arith, q.1, inside j a p))
    single j k a (inr p) (inr q) = alone j k a p q

view-reset_registry :
    (r : Registry) (j : Bytes) → view (reset_registry r) j ≡ mapped reset (view r j)
unfolding view reset_registry
view-reset_registry r j = go (lookup j r.breakers) refl
  where
    go :
        (o : Option ℕ)
        → lookup j r.breakers ≡ o
        → fetch (reset_all (addresses r.breakers) r.heap) o ≡ mapped reset (fetch r.heap o)
    go none e = unfold mapped in refl
    go (some a) e =
        rw (get_elem?-reset_all (addresses r.breakers) r.heap a, listed j a r.breakers e) refl

-- What `GetOrCreate` leaves, for a new name and for a known one.
created :
    (n : Bytes) (max_failures reset_timeout : ℤ) (r : Registry)
    → lookup n r.breakers ≡ none
    → get_or_create n max_failures reset_timeout r
      ≡ (length r.heap, grown n (new_circuit_breaker n max_failures reset_timeout) r)
unfolding get_or_create new_circuit_breaker insert
created n max_failures reset_timeout r e = rw (get_or_create, e) refl

kept :
    (n : Bytes) (max_failures reset_timeout : ℤ) (r : Registry) (a : ℕ)
    → lookup n r.breakers ≡ some a
    → get_or_create n max_failures reset_timeout r ≡ (a, r)
unfolding get_or_create
kept n max_failures reset_timeout r a e = rw (get_or_create, e) refl

view-present :
    (r : Registry) (n : Bytes) (a : ℕ)
    → IsSound r
    → lookup n r.breakers ≡ some a
    → (cb : CircuitBreaker) × (view r n ≡ some cb)
unfolding IsSound
view-present r n a (inside, alone) e =
    let (cb, here) = get_elem?-below a r.heap (inside n a e) in (cb, view-some r n a e ∙ here)

-- Each command keeps the registry sound and does to the view what it does to a finite map.
perform-IsSound : (c : Command) (r : Registry) → IsSound r → IsSound (perform c r)
unfolding perform get IsSound
perform-IsSound (create n max_failures reset_timeout) r sound =
    elim (Option-cases (lookup n r.breakers)) [
      | inl e ↦
          rw (perform, created n max_failures reset_timeout r e)
            (grown-IsSound n (new_circuit_breaker n max_failures reset_timeout) r sound e)
      | inr (a, e) ↦ rw (perform, kept n max_failures reset_timeout r a e) sound
    ]
perform-IsSound (through n f) r sound = elim (Option-cases (lookup n r.breakers)) [
  | inl e ↦ rw (perform, e) sound
  | inr (a, e) ↦ rw (perform, e) (call-IsSound a f r sound)
]
perform-IsSound reset_every r (inside, alone) =
    unfold reset_registry IsSound in
    (λ n a e. rw (length-reset_all (addresses r.breakers) r.heap) (inside n a e), alone)
perform-IsSound (drop_name n) r sound = remove-IsSound n r sound

view-perform :
    (c : Command) (r : Registry) (j : Bytes)
    → IsSound r
    → view (perform c r) j ≡ specify c (view r) j
unfolding perform specify get
view-perform (create n max_failures reset_timeout) r j sound =
    elim (Option-cases (lookup n r.breakers)) [
      | inl e ↦
          rw (perform, created n max_failures reset_timeout r e, specify, view-none r n e)
            (view-grown n (new_circuit_breaker n max_failures reset_timeout) r j sound)
      | inr (a, e) ↦
          rw
            (
              perform,
              kept n max_failures reset_timeout r a e,
              specify,
              (view-present r n a sound e).1,
            )
            refl
    ]
view-perform (through n f) r j sound = elim (Option-cases (lookup n r.breakers)) [
  | inl e ↦ rw (perform, e) (missed (bytes_eq n j) refl e)
  | inr (a, e) ↦ rw (perform, e) (view-call n a f r j sound e)
]
  where
    missed :
        (b : Bool)
        → bytes_eq n j ≡ b
        → lookup n r.breakers ≡ none
        → view r j ≡ (if b then mapped f (view r j) else view r j)
    missed true same e =
        let absent = view-none r j (rw (sym ((bytes_eq_iff n j).0 same)) e) in rw absent refl
    missed false apart e = refl
view-perform reset_every r j sound = view-reset_registry r j
view-perform (drop_name n) r j sound = view-remove n r j

-- The registry, whose names lead to addresses in a shared heap of breakers, implements a finite map
-- from names to breakers: from a registry whose addresses lie in the heap, one for each name, any
-- sequence of GetOrCreate, method calls through the pointer that a name gives, Reset and Remove
-- leaves under every name what the same sequence leaves in the map.
pub perform_all-refines :
    (cs : List Command) (r : Registry)
    → IsSound r
    → view (perform_all cs r) ≡ specify_all cs (view r)
unfolding perform_all specify_all
perform_all-refines [] r sound = refl
perform_all-refines (c ∷ cs) r sound =
    perform_all-refines cs (perform c r) (perform-IsSound c r sound)
    ∙ ap (specify_all cs) (fun_ext (λ j. view-perform c r j sound))
