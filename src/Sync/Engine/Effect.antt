-- ===== src/Sync/Engine/Effect.antt =====
-- internal/sync/engine.go: what a sync of an object leaves of the log and of the files.
use mathlib.Core.Path.{subst}
use agent_brain.Base.{
  ℕ, ◌≡◌, ◌⊎◌, refl, sym, ◌∙◌, inl, inr, Bool, true, false, Option, none, some, List, [], ◌∷◌, ◌++◌,
  arith, if◌then◌else◌, if_cases, Bool-cases,
}
use agent_brain.Base.Int.{ℤ, pos, negsuc, sub_ℕ, leb_ℤ}
use agent_brain.Base.Bytes.{Bytes, codes}
use agent_brain.Base.Map.{Map}
use agent_brain.Retry.Errors.{Result, ok, err, is_err}
use agent_brain.Retry.Executor.Rule.{Ends}
use agent_brain.Delta.Actions.{
  Action, new_protocol_action, new_metadata_action, new_commit_info_action,
}
use agent_brain.Delta.Store.{S3Store, Contents, context}
use agent_brain.Delta.Store.Rules.{Ends-of, bind-Ends, context-Ends}
use agent_brain.Delta.Store.Keeping.{context-Keeps, upload-Keeps}
use agent_brain.Delta.Keys.Names.{version_of_key-checkpoint_key}
use agent_brain.Delta.Log.{write_version}
use agent_brain.Delta.Log.Latest.{
  IsLog, append_entry, write-IsLog, latest_version_lem, latest_version-keeps, write_version_writes,
}
use agent_brain.Delta.Checkpoint.Legacy.{maybe_checkpoint-Keeps}
use agent_brain.Delta.Table.{initialize}
use agent_brain.Layout.{delta_log_prefix}
use agent_brain.Layout.Nameless.{
  log_directory, delta_log_prefix-directory, delta_last_checkpoint_nameless,
  schema_version_nameless,
}
use agent_brain.Schema.{Schema}
use agent_brain.Sync.Planner.{ObjectPlan, ObjectState}
use agent_brain.Sync.State.{save_schema_version}
use agent_brain.Sync.Engine.Object.{
  Host, Progress, object_state, only_logged, keep_schema, legacy_manager, after_commit, table,
}
use agent_brain.Sync.Engine.Files.{IsQuiet, IsClosed}

ok-ne-err : {A : Type 0} (r : Result A) (a : A) → r ≡ ok a → is_err r ≡ true → ⊥
ok-ne-err (ok b) a e h = cc
ok-ne-err (err x) a e h = cc

module _ {R W : Type 0} (s : S3Store W) (host : Host R W) (quiet : IsQuiet s host)
    (unix_milli : W → ℤ) (source : Bytes) (strict : Bool) (plan : ObjectPlan) (clock : W → ℕ) where
  module _ (C : Contents → Type 0) (closed : IsClosed C) where
    keep_schema-Keeps :
        (w : W)
        → C (s.contents w)
        → C (s.contents (keep_schema s host unix_milli source strict plan w))
    unfolding keep_schema only_logged save_schema_version
    keep_schema-Keeps w h = go plan.schema
      where
        go :
            (schema : Option Schema)
            → C (
                s.contents (elim schema [
                  | none ↦ w
                  | some sc ↦
                      if plan.schema_changed
                      then (save_schema_version s host.json source plan.object_name plan.new_version
                          sc w).1
                      else w
                ]))
        go none = h
        go (some sc) =
            if_cases (λ v. C (s.contents v)) plan.schema_changed _ _
              ((context-Keeps s C _ _ (
                  upload-Keeps s C _ _ (λ c k.
                    closed _ _ c (schema_version_nameless source plan.object_name plan.new_version)
                      k))).at
                w h)
              h

    -- What follows the commit only writes files that are no versions.
    pub after_commit-Keeps :
        (objects : Map ObjectState) (p : Progress) (v : ℤ) (w : W)
        → C (s.contents w)
        → C (s.contents (after_commit s host unix_milli source strict plan objects p v w).1)
    unfolding after_commit only_logged legacy_manager object_state
    after_commit-Keeps objects p v w h =
        (maybe_checkpoint-Keeps s C clock (legacy_manager s host unix_milli source strict plan)
            (λ u o c k.
              closed _ o c
                (rw (delta_log_prefix-directory source plan.object_name)
                  (version_of_key-checkpoint_key (log_directory source plan.object_name) u))
                k)
            (λ o c k. closed _ o c (delta_last_checkpoint_nameless source plan.object_name) k) v).at
          _ (keep_schema-Keeps _ (subst C (sym (quiet.now_keeps _ ∙ quiet.now_keeps w)) h))

  abbrev dir : Bytes
  dir = log_directory source plan.object_name

  -- The log is as it was, or it was empty and has the entry that creates the table.
  abbrev pub IsStart : ℕ → (ℕ → List Action) → ℕ → (ℕ → List Action) → Type 0
  IsStart n entries n₀ entries₀ =
      ((n₀ ≡ n) × (entries₀ ≡ entries))
      ⊎ ((n ≡ 0)
          × (n₀ ≡ 1)
          × (text : Bytes) × (t : ℤ) × (t' : ℤ) × (entries₀
              ≡ append_entry 0
                  (new_protocol_action
                    ∷ new_metadata_action (source ++ (codes "_" ++ plan.object_name))
                        plan.object_name text t
                    ∷ new_commit_info_action (codes "CREATE TABLE") (negsuc 0) true t'
                    ∷ [])
                  entries))

  module _ (n : ℕ) (entries : ℕ → List Action) where
    -- The bucket has a log that the sync can start from.
    abbrev pub HasStart : W → Type 0
    HasStart w =
        (n₀ : ℕ) × (entries₀ : ℕ → List Action) × IsLog dir n₀ entries₀ (s.contents w)
        × IsStart n entries n₀ entries₀

    pub same_start : (w : W) → IsLog dir n entries (s.contents w) → HasStart w
    same_start w log = (n, entries, log, inl (refl, refl))

    create_table :
        (text : Bytes) (w : W)
        → n ≡ 0
        → IsLog dir n entries (s.contents w)
        → Ends
            (λ _. Unit {0})
            (λ _ w'. HasStart w')
            (context
              (codes "initialize table")
              (write_version s (delta_log_prefix source plan.object_name) (pos 0) (
                new_protocol_action
                ∷ new_metadata_action
                    (source ++ (codes "_" ++ plan.object_name))
                    plan.object_name
                    text
                    (unix_milli w)
                ∷ new_commit_info_action (codes "CREATE TABLE") (negsuc 0) true (unix_milli w)
                ∷ []))
              w)
    create_table text w empty log = rw (delta_log_prefix-directory source plan.object_name) (
        context-Ends (λ _. Unit {0}) (λ _ w'. HasStart w') _ _ w
          (Ends-of (λ _. Unit {0}) (λ _ w'. HasStart w') _ (λ e r. tt)
            (λ u r. elim (write_version_writes s dir (pos 0) _ w) [
              | inr (failed, same) ↦ absurd (ok-ne-err _ u r failed)
              | inl wrote ↦ (
                1,
                _,
                subst (IsLog dir 1 _) (sym wrote) (
                    write-IsLog dir 0 entries _ (s.contents w) (omega arith)
                      (subst (λ k. IsLog dir k entries (s.contents w)) empty log)),
                inr (empty, refl, text, _, _, refl),
              )
            ])))

    pub initialize-HasStart :
        (text : Bytes) (w : W)
        → IsLog dir n entries (s.contents w)
        → Ends
            (λ _. Unit {0})
            (λ _ w'. HasStart w')
            (initialize s clock unix_milli (table s host unix_milli source strict plan) text w)
    unfolding initialize
    initialize-HasStart text w log =
        bind-Ends (λ _. Unit {0}) (λ v w'. IsLog dir n entries (s.contents w') × (v ≡ sub_ℕ n 1))
          (λ _ w'. HasStart w') _ _ w
          (context-Ends (λ _. Unit {0}) _ _ _ w
            (rw (delta_log_prefix-directory source plan.object_name) (
              Ends-of (λ _. Unit {0})
                (λ v w'. IsLog dir n entries (s.contents w') × (v ≡ sub_ℕ n 1)) _ (λ e r. tt)
                (λ v r. (
                  subst (IsLog dir n entries) (sym (latest_version-keeps s dir w)) log,
                  latest_version_lem s dir n entries w v log r,
                )))))
          (λ v w' (log', last). elim (Bool-cases (leb_ℤ (pos 0) v)) [
            | inl there ↦ rw there (same_start w' log')
            | inr none_yet ↦ rw none_yet (create_table text w' (no_entries v last none_yet) log')
          ])
      where
        no_entries : (v : ℤ) → v ≡ sub_ℕ n 1 → leb_ℤ (pos 0) v ≡ false → n ≡ 0
        no_entries v last none_yet = ground arith
