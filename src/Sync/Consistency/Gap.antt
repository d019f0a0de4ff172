-- ===== src/Sync/Consistency/Gap.antt =====
-- internal/sync/consistency.go: the distance between two syncs.
use agent_brain.Base.{suc, ◌+◌, ◌≡◌, refl, ap, ◌∙◌, true, if◌then◌else◌, arith}
use agent_brain.Base.Int.{
  ℤ, pos, negsuc, pos_part, neg_part, ◌-ℤ◌, ◌≤ℤ◌, ◌<ℤ◌, ltb_ℤ, wrap64, wrap64_in_range, max_int64,
  eq_of_parts,
}
use agent_brain.Sync.Consistency.{time_sub, sync_gap}

-- The size of an integer.
abbrev pub distance : ℤ → ℤ
distance d = pos (pos_part d + neg_part d)

-- The steps of `sync_gap`: what `Sub` makes of a difference, and the sign taken away.
capped : ℤ → ℤ
capped d =
    if ltb_ℤ (pos max_int64) d
    then pos max_int64
    else if ltb_ℤ d (negsuc max_int64)
    then negsuc max_int64
    else d

unsigned : ℤ → ℤ
unsigned d = if ltb_ℤ d (pos 0) then wrap64 (pos 0 -ℤ d) else d

capped-inside : (d : ℤ) → d ≤ℤ pos max_int64 → negsuc max_int64 <ℤ d → capped d ≡ d
unfolding capped
capped-inside d h k = ground arith

capped-above : (d : ℤ) → pos max_int64 <ℤ d → capped d ≡ pos max_int64
unfolding capped
capped-above d h = ground arith

capped-below : (d : ℤ) → d ≤ℤ negsuc max_int64 → capped d ≡ negsuc max_int64
unfolding capped
capped-below d h = ground (arith, eq_of_parts d (negsuc max_int64))

unsigned-inside : (d : ℤ) → d ≤ℤ pos max_int64 → negsuc max_int64 <ℤ d → unsigned d ≡ distance d
unfolding unsigned ◌-ℤ◌
unsigned-inside (pos n) h k = ground arith
unsigned-inside (negsuc n) h k =
    let z = pos 0 -ℤ negsuc n in
    let test : ltb_ℤ (negsuc n) (pos 0) ≡ true = ground arith in
    rw test (
      wrap64_in_range z (ground arith, ground arith)
      ∙ eq_of_parts z (pos (0 + suc n)) (ground arith))

unsigned-max : unsigned (pos max_int64) ≡ pos max_int64
unfolding unsigned
unsigned-max = refl

unsigned-min : unsigned (negsuc max_int64) ≡ negsuc max_int64
unfolding unsigned wrap64 ◌-ℤ◌
unsigned-min = refl

sync_gap-unsigned : (t u : ℤ) → sync_gap t u ≡ unsigned (capped (t -ℤ u))
unfolding sync_gap time_sub unsigned capped
sync_gap-unsigned t u = refl

-- The computed gap between two syncs is the distance of their times where the difference is an
-- int64 above -2^63; it is 2^63 - 1 where the first is later by more than that, and -2^63 where the
-- first is earlier by 2^63 nanoseconds or more.
pub sync_gap_lem :
    (t u : ℤ)
    → (t -ℤ u ≤ℤ pos max_int64 → negsuc max_int64 <ℤ t -ℤ u → sync_gap t u ≡ distance (t -ℤ u))
      × (pos max_int64 <ℤ t -ℤ u → sync_gap t u ≡ pos max_int64)
      × (t -ℤ u ≤ℤ negsuc max_int64 → sync_gap t u ≡ negsuc max_int64)
sync_gap_lem t u =
    let d = t -ℤ u in
    (
      λ h k. sync_gap-unsigned t u ∙ ap unsigned (capped-inside d h k) ∙ unsigned-inside d h k,
      λ h. sync_gap-unsigned t u ∙ ap unsigned (capped-above d h) ∙ unsigned-max,
      λ h. sync_gap-unsigned t u ∙ ap unsigned (capped-below d h) ∙ unsigned-min,
    )
