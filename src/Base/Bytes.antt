-- ===== src/Base/Bytes.antt =====
-- Go strings as lists of bytes.
use Prim.Native.Char.{code}
use Prim.Native.String.{String}
use Prim.Native.Nat.{ℕ}
use mathlib.Core.Path.{◌≡◌, refl}
use mathlib.Core.Logic.{◌↔◌}
use mathlib.Core.Bool.{Bool, true, false, ◌&&◌}
use mathlib.Core.List.{List, [], ◌∷◌}
use native.Mathlib.Omega.{arith}
use agent_brain.Base.Tests.{◌==◌, ltb, if◌then◌else◌}

abbrev pub Bytes : Type 0
Bytes = List ℕ

-- The bytes of an ASCII literal.
abbrev pub codes : String → Bytes
codes String.[] = []
codes (String.◌∷◌ c s) = code c ∷ codes s

-- `s == t` on strings.
unfoldable pub bytes_eq : Bytes → Bytes → Bool
bytes_eq [] [] = true
bytes_eq [] (c ∷ t) = false
bytes_eq (a ∷ s) [] = false
bytes_eq (a ∷ s) (c ∷ t) = a == c && bytes_eq s t

pub bytes_eq_iff : (s t : Bytes) → (bytes_eq s t ≡ true) ↔ (s ≡ t)
unfolding bytes_eq
bytes_eq_iff [] [] = ground arith
bytes_eq_iff [] (c ∷ t) = ground arith
bytes_eq_iff (a ∷ s) [] = ground arith
bytes_eq_iff (a ∷ s) (c ∷ t) = ground (arith, bytes_eq_iff s t)

pub bytes_eq_refl : (s : Bytes) → bytes_eq s s ≡ true
bytes_eq_refl s = (bytes_eq_iff s s).1 refl

pub bytes_eq_sym : (s t : Bytes) → bytes_eq t s ≡ bytes_eq s t
unfolding bytes_eq
bytes_eq_sym [] [] = refl
bytes_eq_sym [] (c ∷ t) = refl
bytes_eq_sym (a ∷ s) [] = refl
bytes_eq_sym (a ∷ s) (c ∷ t) = ground (arith, bytes_eq_sym s t)

-- `s < t` on strings.
unfoldable pub bytes_lt : Bytes → Bytes → Bool
bytes_lt [] [] = false
bytes_lt [] (c ∷ t) = true
bytes_lt (a ∷ s) [] = false
bytes_lt (a ∷ s) (c ∷ t) = if ltb a c then true else a == c && bytes_lt s t

pub bytes_lt_trans :
    (s t u : Bytes) → bytes_lt s t ≡ true → bytes_lt t u ≡ true → bytes_lt s u ≡ true
unfolding bytes_lt
bytes_lt_trans [] [] u h k = cc
bytes_lt_trans [] (b ∷ t) [] h k = cc
bytes_lt_trans [] (b ∷ t) (c ∷ u) h k = refl
bytes_lt_trans (a ∷ s) [] u h k = cc
bytes_lt_trans (a ∷ s) (b ∷ t) [] h k = cc
bytes_lt_trans (a ∷ s) (b ∷ t) (c ∷ u) h k = ground (arith, bytes_lt_trans s t u)

pub bytes_lt_asym : (s t : Bytes) → bytes_lt s t ≡ true → bytes_lt t s ≡ false
unfolding bytes_lt
bytes_lt_asym [] [] h = cc
bytes_lt_asym [] (b ∷ t) h = refl
bytes_lt_asym (a ∷ s) [] h = cc
bytes_lt_asym (a ∷ s) (b ∷ t) h = ground (arith, bytes_lt_asym s t)

-- One of two different strings is the smaller.
pub bytes_lt_total :
    (s t : Bytes) → bytes_eq s t ≡ false → bytes_lt s t ≡ false → bytes_lt t s ≡ true
unfolding bytes_lt bytes_eq
bytes_lt_total [] [] h k = cc
bytes_lt_total [] (b ∷ t) h k = cc
bytes_lt_total (a ∷ s) [] h k = refl
bytes_lt_total (a ∷ s) (b ∷ t) h k = ground (arith, bytes_lt_total s t)
