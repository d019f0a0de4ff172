-- ===== src/Delta/Checkpoint/Selection.antt =====
-- Which checkpoints the retention chooses.
use mathlib.Core.List.{reverse, reverse-cons}
use agent_brain.Base.{
  ℕ, suc, ◌+◌, ◌≤◌, ◌<◌, ◌≡◌, ◌≢◌, refl, ap, ◌∙◌, inl, inr, false, List, [], ◌∷◌, arith, length,
  length-append, In, leb, Bool-cases,
}
use agent_brain.Base.Int.{ℤ, pos_part, eqb_ℤ}
use agent_brain.Delta.Checkpoint.{
  CheckpointManager, CheckpointFile, select_from, select_checkpoints_for_deletion,
}

length-reverse : {A : Type 0} (xs : List A) → length (reverse xs) ≡ length xs
length-reverse [] = refl
length-reverse (x ∷ xs) =
    ap length (reverse-cons x xs)
    ∙ omega (arith, length-append (reverse xs) (x ∷ []), length-reverse xs)

differs : (a b : ℤ) → eqb_ℤ a b ≡ false → a ≢ b
differs a b h e = ground arith

module _ (max_checkpoints current : ℤ) where
  select_from-current :
      (kept : ℕ) (fs : List CheckpointFile) (f : CheckpointFile)
      → In f (select_from max_checkpoints current kept fs)
      → eqb_ℤ f.version current ≡ false
  unfolding select_from
  select_from-current kept [] f h = absurd h
  select_from-current kept (x ∷ fs) f h =
      ground (arith, select_from-current kept fs f, select_from-current (suc kept) fs f)

  -- Those kept and those to keep at least fill the limit before the first is chosen.
  select_from-length :
      (kept : ℕ) (fs : List CheckpointFile)
      → 0 < length (select_from max_checkpoints current kept fs)
      → pos_part max_checkpoints + length (select_from max_checkpoints current kept fs)
        ≤ kept + length fs
  unfolding select_from
  select_from-length kept [] h = absurd (omega arith)
  select_from-length kept (x ∷ fs) h =
      ground (arith, select_from-length kept fs, select_from-length (suc kept) fs)

-- The retention never chooses the checkpoint of the current version, chooses nothing of at most one
-- file, and when it chooses any, it leaves at least as many files as the limit.
pub select_checkpoints_for_deletion_lem :
    (m : CheckpointManager) (files : List CheckpointFile) (current : ℤ)
    → let chosen = select_checkpoints_for_deletion m files current in
      ((f : CheckpointFile) → In f chosen → f.version ≢ current)
      × (length files ≤ 1 → chosen ≡ [])
      × (0 < length chosen → pos_part m.config.max_checkpoints + length chosen ≤ length files)
unfolding select_checkpoints_for_deletion
select_checkpoints_for_deletion_lem m files current = elim (Bool-cases (leb (length files) 1)) [
  | inl few ↦ rw few (λ f h. absurd h, λ _. refl, λ h. absurd (omega arith))
  | inr many ↦ rw many (
    λ f h e.
        differs f.version current
          (select_from-current m.config.max_checkpoints current 0 (reverse files) f h) e,
    λ h. absurd (ground arith),
    λ h. omega (
      arith,
      length-reverse files,
      select_from-length m.config.max_checkpoints current 0 (reverse files) h,
    ),
  )
]
