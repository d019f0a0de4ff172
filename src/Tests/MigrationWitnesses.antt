-- ===== src/Tests/MigrationWitnesses.antt =====
-- The theorems on migrations and on the registry of breakers at concrete inputs.
use agent_brain.Base.{
  ℕ, suc, ◌+◌, ◌*◌, ◌≡◌, refl, sym, ap, true, Option, none, some, List, [], ◌∷◌, is_some, arith,
}
use agent_brain.Base.Int.{ℤ, pos, negsuc, ◌≤ℤ◌, ltb_ℤ, ◌+ℤ◌}
use agent_brain.Base.Bytes.{Bytes, codes}
use agent_brain.Base.Map.{lookup}
use agent_brain.Retry.Errors.{Error, message, Result, ok, err}
use agent_brain.Retry.Executor.Rule.{Ends}
use agent_brain.Delta.Store.{◌>>=◌, fail}
use agent_brain.Retry.Breaker.{with_state_change_callback}
use agent_brain.Retry.Registry.{new_registry}
use agent_brain.Retry.Registry.Refine.{
  Command, create, through, reset_every, drop_name, perform_all, specify_all, view, IsSound,
  perform_all-refines,
}
use agent_brain.Migration.{Migration, Migrations, find, get_migration_plan, execute_migration_path}
use agent_brain.Migration.Registry.{ok_inj, IsKeyed}
use agent_brain.Migration.Plan.{run_plan, execute_migration_path-get_migration_plan}
use agent_brain.Migration.Versions.{execute_migration_path-through}
use agent_brain.Migration.Data.{
  VersionedState, default_config, Codec, Reflection, Services, get_current_version, migrate_data,
}
use agent_brain.Migration.Amend.{amend}
use agent_brain.Migration.Data.First.{migrate_data-amend}
use agent_brain.Migration.Data.Rewrap.{get_current_version-migrate_data}

-- Data is a number, to which each migration adds a digit; the world counts the steps.
abbrev digit : ℕ → Migration ℕ ℕ
digit n = record {
  version = pos n;
  description = codes "digit";
  up = λ d w. (ok (d * 10 + n), suc w);
  down = λ d w. (ok d, suc w);
  validate = λ d w. (ok tt, w);
}

abbrev first_two : Migrations ℕ ℕ
first_two = (pos 2, digit 2) ∷ ((pos 1, digit 1) ∷ [])

first_two-IsKeyed : IsKeyed first_two
unfolding IsKeyed
first_two-IsKeyed = ((refl, omega arith), ((refl, omega arith), tt))

execute_migration_path-get_migration_plan_example :
    execute_migration_path first_two 7 (pos 2) (pos 0)
    ≡ elim (get_migration_plan first_two (pos 2) (pos 0)) [
      | err e ↦ fail e
      | ok plan ↦ run_plan (ltb_ℤ (pos 2) (pos 0)) plan 7
    ]
execute_migration_path-get_migration_plan_example =
    execute_migration_path-get_migration_plan first_two (pos 2) (pos 0) 7 first_two-IsKeyed

first_two_complete : (v : ℤ) → pos 0 +ℤ pos 1 ≤ℤ v → v ≤ℤ pos 2 → is_some (find v first_two) ≡ true
unfolding find ◌+ℤ◌
first_two_complete v low high = ground arith

execute_migration_path-through_example :
    execute_migration_path first_two 7 (pos 0) (pos 2) 5
    ≡ (execute_migration_path first_two 7 (pos 0) (pos 1) >>= λ d.
          execute_migration_path first_two d (pos 1) (pos 2))
        5
execute_migration_path-through_example =
    execute_migration_path-through first_two (pos 0) (pos 1) (pos 2) 7 5 (omega arith, omega arith)
      (omega arith) (omega arith) (omega arith) first_two_complete

-- A wrapped state as its version and its content.
printed : ℤ → ℕ → Result Bytes
printed (pos v) d = ok (v ∷ (d ∷ []))
printed (negsuc v) d = err (message (codes "negative"))

peeked : Bytes → Option ℤ
peeked (v ∷ (d ∷ [])) = some (pos v)
peeked _ = none

parsed : Bytes → Result (VersionedState ℕ)
parsed (v ∷ (d ∷ [])) =
    ok (record { version = pos v; content = d; created_at = pos 0; updated_at = pos 0 })
parsed _ = err (message (codes "no state"))

bare : Bytes → Result ℕ
bare (d ∷ []) = ok d
bare _ = err (message (codes "no data"))

printed-peeked : (v : ℤ) (d : ℕ) (b : Bytes) → printed v d ≡ ok b → peeked b ≡ some v
unfolding printed peeked
printed-peeked (pos v) d b e = rw (sym (ok_inj e)) refl
printed-peeked (negsuc v) d b e = cc

failed-parse : {A : Type 0} {x : Error} {a : A} → err x ≡ ok a → ⊥
failed-parse e = cc

parsed-peeked : (b : Bytes) (s : VersionedState ℕ) → parsed b ≡ ok s → peeked b ≡ some s.version
unfolding parsed peeked
parsed-peeked [] s e = absurd (failed-parse e)
parsed-peeked (v ∷ []) s e = absurd (failed-parse e)
parsed-peeked (v ∷ (d ∷ [])) s e = ap (λ x. some x.version) (ok_inj e)
parsed-peeked (v ∷ (d ∷ (x ∷ b))) s e = absurd (failed-parse e)

printed-parsed :
    (v : ℤ) (d : ℕ) (b : Bytes)
    → printed v d ≡ ok b
    → (s : VersionedState ℕ) × (parsed b ≡ ok s) × (s.version ≡ v)
unfolding printed parsed
printed-parsed (pos v) d b e = (
  record { version = pos v; content = d; created_at = pos 0; updated_at = pos 0 },
  rw (sym (ok_inj e)) refl,
  refl,
)
printed-parsed (negsuc v) d b e = cc

abbrev pairs : Codec ℕ
pairs = record {
  peek_version = peeked;
  parse_state = parsed;
  parse_data = bare;
  print_state = λ s. printed s.version s.content;
  peek-print = λ s b e. printed-peeked s.version s.content b e;
  peek-parse = parsed-peeked;
  parse-print = λ s b e. printed-parsed s.version s.content b e;
}

abbrev numbers : Reflection ℕ (Unit {0})
numbers = record {
  type_of = λ d. some tt;
  type_text = λ t. codes "number";
  same_type = λ t u. true;
}

abbrev quiet : Services ℕ
quiet = record {
  upload = λ k b w. (ok tt, suc w);
  now = λ w. (pos w, suc w);
  timestamp = λ w. (codes "20240101-000000", w);
}

get_current_version-migrate_data_example :
    Ends
      (λ w. Unit {0})
      (λ b w. get_current_version pairs b ≡ ok (pos 2))
      (migrate_data pairs numbers quiet default_config
        ((pos 2, tt) ∷ [])
        first_two
        (5 ∷ [])
        (pos 2)
        0)
get_current_version-migrate_data_example =
    get_current_version-migrate_data pairs numbers quiet default_config ((pos 2, tt) ∷ []) first_two
      (5 ∷ []) (pos 2) 0

migrate_data-amend_example :
    migrate_data pairs numbers quiet default_config
      ((pos 2, tt) ∷ [])
      (amend (λ d w. (err (message (codes "never")), w)) first_two)
      (5 ∷ [])
      (pos 2)
      0
    ≡ migrate_data pairs numbers quiet default_config
        ((pos 2, tt) ∷ [])
        first_two
        (5 ∷ [])
        (pos 2)
        0
migrate_data-amend_example =
    migrate_data-amend pairs numbers quiet default_config ((pos 2, tt) ∷ []) first_two
      (λ d w. (err (message (codes "never")), w)) (5 ∷ []) (pos 2) 0 (omega arith)

abbrev session : List Command
session =
    create (codes "s3") (pos 5) (pos 100)
    ∷ (create (codes "api") (pos 3) (pos 50)
        ∷ (through (codes "s3") with_state_change_callback
            ∷ (reset_every ∷ (drop_name (codes "api") ∷ []))))

none-ne-some : {a : ℕ} → none ≡ some a → ⊥
none-ne-some e = cc

new_registry-IsSound : IsSound new_registry
unfolding IsSound lookup new_registry
new_registry-IsSound = (λ n a e. absurd (none-ne-some e), λ n m a e e'. absurd (none-ne-some e))

perform_all-refines_example :
    view (perform_all session new_registry) ≡ specify_all session (view new_registry)
perform_all-refines_example = perform_all-refines session new_registry new_registry-IsSound
