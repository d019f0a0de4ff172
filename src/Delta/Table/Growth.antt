-- ===== src/Delta/Table/Growth.antt =====
-- A log that has grown by entries of one commit, which may have been written more than once.
use native.Mathlib.Decide.{dec_lt}
use agent_brain.Base.{ℕ, suc, ◌+◌, ◌≤◌, ◌<◌, ◌≡◌, refl, true, List, [], ◌∷◌, ◌++◌, arith}
use agent_brain.Base.Int.{ℤ, pos, sub_ℕ, max_int64}
use agent_brain.Base.Bytes.{Bytes}
use agent_brain.Delta.Actions.{Action, log_entry, new_commit_info_action}
use agent_brain.Delta.Store.{Contents, write}
use agent_brain.Delta.Keys.{version_key}
use agent_brain.Delta.Keys.Names.{directory}
use agent_brain.Delta.Log.Latest.{IsLog, append_entry, write-IsLog}

-- The note that a commit of a version leaves behind its actions.
abbrev pub IsNote : Bytes → ℕ → Action → Type 0
IsNote operation v a = (t : ℤ) × (a ≡ new_commit_info_action operation (sub_ℕ v 1) true t)

-- The log has at most k entries more than the n it had; the n are as they were, and each new one is
-- the commit's actions and its note.
pub record Grown (dir : Bytes) (n : ℕ) (entries : ℕ → List Action) (actions : List Action)
    (operation : Bytes) (k : ℕ) (c : Contents) : Type 0 where
  pub count : ℕ
  pub content : ℕ → List Action
  pub is_log : IsLog dir count content c
  pub least : n ≤ count
  pub most : count ≤ n + k
  pub old : (v : ℕ) → v < n → content v ≡ entries v
  pub new :
      (v : ℕ)
      → n ≤ v
      → v < count
      → (a : Action) × IsNote operation v a × (content v ≡ actions ++ a ∷ [])

module _ (dir : Bytes) (n : ℕ) (entries : ℕ → List Action) (actions : List Action)
    (operation : Bytes) where
  pub Grown_start :
      (c : Contents) → IsLog dir n entries c → Grown dir n entries actions operation 0 c
  Grown_start c log = record {
    count = n;
    content = entries;
    is_log = log;
    least = omega arith;
    most = omega arith;
    old = λ v below. refl;
    new = λ v above below. absurd (omega arith);
  }

  unfoldable pub Grown_more :
      (k j : ℕ) (c : Contents)
      → k ≤ j
      → Grown dir n entries actions operation k c
      → Grown dir n entries actions operation j c
  Grown_more k j c le g = record {
    count = g.count;
    content = g.content;
    is_log = g.is_log;
    least = g.least;
    most = omega (arith, g.most);
    old = g.old;
    new = g.new;
  }

  -- One more write of the commit.
  pub Grown_write :
      (k : ℕ) (c : Contents) (g : Grown dir n entries actions operation k c) (a : Action)
      → n + k < max_int64
      → IsNote operation g.count a
      → (g' : Grown dir n entries actions operation
          (suc k)
          (write (version_key (directory dir) (pos g.count)) (log_entry (actions ++ a ∷ [])) c))
        × (g'.count ≡ suc g.count)
  Grown_write k c g a room note = (
    record {
      count = suc g.count;
      content = append_entry g.count (actions ++ a ∷ []) g.content;
      is_log =
          write-IsLog dir g.count g.content (actions ++ a ∷ []) c (omega (arith, g.most)) g.is_log;
      least = omega (arith, g.least);
      most = omega (arith, g.most);
      old = λ v below. ground (arith, g.least, g.old v below);
      new = λ v above below. elim (dec_lt v g.count) [
        | yes before ↦ let (b, noted, e) = g.new v above before in (b, noted, ground arith)
        | no after ↦
            let same : v ≡ g.count = omega arith in (a, rw same note, rw same (ground arith))
      ];
    },
    refl,
  )
