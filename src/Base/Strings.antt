-- ===== src/Base/Strings.antt =====
-- The functions of Go's `strings` package that the program calls.
use agent_brain.Base.{
  ℕ, zero, suc, ◌-◌, ◌≡◌, refl, ap, Bool, true, false, ◌&&◌, ◌||◌, [], ◌∷◌, ◌++◌, arith, leb, ◌==◌,
  if◌then◌else◌, length, length-append, drop, All,
}
use agent_brain.Base.Bytes.{Bytes, bytes_eq, bytes_eq_refl}

-- `HasPrefix(s, p)`
unfoldable pub has_prefix : Bytes → Bytes → Bool
has_prefix s [] = true
has_prefix [] (c ∷ p) = false
has_prefix (a ∷ s) (c ∷ p) = a == c && has_prefix s p

-- `s[:n]`, for `n` within the string.
abbrev pub take : ℕ → Bytes → Bytes
take zero s = []
take (suc n) [] = []
take (suc n) (c ∷ s) = c ∷ take n s

-- `HasSuffix(s, t)`: `len(s) >= len(t) && s[len(s)-len(t):] == t`.
unfoldable pub has_suffix : Bytes → Bytes → Bool
has_suffix s t = leb (length t) (length s) && bytes_eq (drop (length s - length t) s) t

-- `TrimSuffix(s, t)`
unfoldable pub trim_suffix : Bytes → Bytes → Bytes
trim_suffix s t = if has_suffix s t then take (length s - length t) s else s

-- `s[i+1:]` at `i := LastIndex(s, string(sep))`, and `best` where there is no such index.
after_last : ℕ → Bytes → Bytes → Bytes
after_last sep best [] = best
after_last sep best (c ∷ s) = after_last sep (if c == sep then s else best) s

-- `idx := LastIndex(s, sep); if idx >= 0 { s = s[idx+1:] }`
unfoldable pub base_of : ℕ → Bytes → Bytes
unfolding after_last
base_of sep s = after_last sep s s

-- `Split(s, string(sep))[0]`
unfoldable pub first_part : ℕ → Bytes → Bytes
first_part sep [] = []
first_part sep (c ∷ s) = let rest = first_part sep s in if c == sep then [] else c ∷ rest

abbrev pub Avoids : ℕ → Bytes → Type 0
Avoids sep = All (λ c. (c == sep) ≡ false)

after_last-Avoids : (sep : ℕ) (best s : Bytes) → Avoids sep s → after_last sep best s ≡ best
unfolding after_last
after_last-Avoids sep best [] h = refl
after_last-Avoids sep best (c ∷ s) h = rw h.0 (after_last-Avoids sep best s h.1)

after_last-append :
    (sep : ℕ) (best p s : Bytes) → Avoids sep s → after_last sep best (p ++ sep ∷ s) ≡ s
unfolding after_last
after_last-append sep best [] s h = ground (arith, after_last-Avoids sep s s h)
after_last-append sep best (c ∷ p) s h =
    after_last-append sep (if c == sep then p ++ sep ∷ s else best) p s h

pub base_of-append : (sep : ℕ) (p s : Bytes) → Avoids sep s → base_of sep (p ++ sep ∷ s) ≡ s
unfolding base_of
base_of-append sep p s h = after_last-append sep (p ++ sep ∷ s) p s h

pub first_part-append : (sep : ℕ) (s t : Bytes) → Avoids sep s → first_part sep (s ++ sep ∷ t) ≡ s
unfolding first_part
first_part-append sep [] t h = ground arith
first_part-append sep (c ∷ s) t h = rw (h.0, first_part-append sep s t h.1)

pub drop-length-append : (s t : Bytes) → drop (length s) (s ++ t) ≡ t
drop-length-append [] t = refl
drop-length-append (c ∷ s) t = drop-length-append s t

take-length-append : (s t : Bytes) → take (length s) (s ++ t) ≡ s
take-length-append [] t = refl
take-length-append (c ∷ s) t = ap (◌∷◌ c) (take-length-append s t)

length-append-sub : (s t : Bytes) → length (s ++ t) - length t ≡ length s
length-append-sub s t = omega (arith, length-append s t)

pub has_suffix-append : (s t : Bytes) → has_suffix (s ++ t) t ≡ true
unfolding has_suffix
has_suffix-append s t =
    rw (length-append-sub s t, drop-length-append s t, bytes_eq_refl t)
      (ground (arith, length-append s t))

pub trim_suffix-append : (s t : Bytes) → trim_suffix (s ++ t) t ≡ s
unfolding trim_suffix
trim_suffix-append s t = rw (has_suffix-append s t, length-append-sub s t) (take-length-append s t)

pub has_prefix-append : (p s : Bytes) → has_prefix (p ++ s) p ≡ true
unfolding has_prefix
has_prefix-append [] s = refl
has_prefix-append (c ∷ p) s = ground (arith, has_prefix-append p s)

-- `Contains(s, sub)`
unfoldable pub contains : Bytes → Bytes → Bool
unfolding has_prefix
contains [] sub = has_prefix [] sub
contains (c ∷ s) sub = has_prefix (c ∷ s) sub || contains s sub
