-- ===== src/Base/Decimal.antt =====
-- The parts of Go's `fmt` and `strconv` that the program uses on integers: `%d`, `%020d` and
-- `ParseInt(s, 10, 64)`.
use agent_brain.Base.{
  ℕ, zero, suc, ◌+◌, ◌-◌, ◌*◌, ◌/◌, ◌%◌, ◌≤◌, ◌<◌, ◌≡◌, refl, Bool, true, false, ◌&&◌, Option, none,
  some, [], ◌∷◌, ◌++◌, arith, ltb, leb, ◌==◌, if◌then◌else◌, length, replicate, All, All-append,
  inl, inr, Bool-cases,
}
use agent_brain.Base.Int.{ℤ, pos, negsuc, max_int64, IsInt64}
use agent_brain.Base.Bytes.{Bytes}

-- The digits of `n`, the last one last; fuel above `n` is enough.
decimal_fuel : ℕ → ℕ → Bytes
decimal_fuel zero n = []
decimal_fuel (suc f) n =
    let rest = decimal_fuel f (n / 10) ++ (48 + n % 10) ∷ [] in
    if ltb n 10 then (48 + n) ∷ [] else rest

-- `%d` of a number that is not negative.
unfoldable pub decimal : ℕ → Bytes
unfolding decimal_fuel
decimal n = decimal_fuel (suc n) n

-- `%d`
unfoldable pub decimal_int : ℤ → Bytes
unfolding decimal
decimal_int (pos n) = decimal n
decimal_int (negsuc n) = b'-' ∷ decimal (suc n)

unfoldable pub pad : ℕ → Bytes → Bytes
pad width s = replicate (width - length s) b'0' ++ s

-- `%020d`: the sign counts among the twenty places.
unfoldable pub pad20 : ℤ → Bytes
unfolding decimal pad
pad20 (pos n) = pad 20 (decimal n)
pad20 (negsuc n) = b'-' ∷ pad 19 (decimal (suc n))

abbrev pub is_digit : ℕ → Bool
is_digit c = leb b'0' c && leb c b'9'

parse_digits : ℕ → Bytes → Option ℕ
parse_digits acc [] = some acc
parse_digits acc (c ∷ s) =
    let rest = parse_digits (acc * 10 + (c - 48)) s in if is_digit c then rest else none

parse_uint : Bytes → Option ℕ
unfolding parse_digits
parse_uint [] = none
parse_uint (c ∷ s) = parse_digits 0 (c ∷ s)

-- The range checks of `ParseInt`.
as_positive : Option ℕ → Option ℤ
as_positive none = none
as_positive (some n) = if leb n max_int64 then some (pos n) else none

as_negative : Option ℕ → Option ℤ
as_negative none = none
as_negative (some zero) = some (pos 0)
as_negative (some (suc n)) = if leb n max_int64 then some (negsuc n) else none

unfoldable pub parse_int : Bytes → Option ℤ
unfolding parse_uint as_positive as_negative
parse_int [] = none
parse_int (c ∷ s) =
    if c == b'+'
    then as_positive (parse_uint s)
    else if c == b'-'
    then as_negative (parse_uint s)
    else as_positive (parse_uint (c ∷ s))

parse_digits-append :
    (acc m : ℕ) (s t : Bytes)
    → parse_digits acc s ≡ some m
    → parse_digits acc (s ++ t) ≡ parse_digits m t
unfolding parse_digits
parse_digits-append acc m [] t h = ground arith
parse_digits-append acc m (c ∷ s) t h =
    ground (arith, parse_digits-append (acc * 10 + (c - 48)) m s t)

parse_digits-decimal_fuel : (f n : ℕ) → n < f → parse_digits 0 (decimal_fuel f n) ≡ some n
unfolding decimal_fuel parse_digits
parse_digits-decimal_fuel zero n h = elim h [ ]
parse_digits-decimal_fuel (suc f) n h = elim (Bool-cases (ltb n 10)) [
  | inl small ↦ rw small (ground arith)
  | inr large ↦ ground (
    arith,
    parse_digits-decimal_fuel f (n / 10),
    parse_digits-append 0 (n / 10) (decimal_fuel f (n / 10)) ((48 + n % 10) ∷ []),
  )
]

parse_digits-decimal : (n : ℕ) → parse_digits 0 (decimal n) ≡ some n
unfolding decimal
parse_digits-decimal n = parse_digits-decimal_fuel (suc n) n (omega arith)

parse_digits-zeros : (k : ℕ) (s : Bytes) → parse_digits 0 (replicate k b'0' ++ s) ≡ parse_digits 0 s
unfolding parse_digits
parse_digits-zeros zero s = refl
parse_digits-zeros (suc k) s = parse_digits-zeros k s

abbrev pub AllDigits : Bytes → Type 0
AllDigits = All (λ c. is_digit c ≡ true)

decimal_fuel-AllDigits : (f n : ℕ) → AllDigits (decimal_fuel f n)
unfolding decimal_fuel
decimal_fuel-AllDigits zero n = tt
decimal_fuel-AllDigits (suc f) n = elim (Bool-cases (ltb n 10)) [
  | inl small ↦ rw small (ground arith, tt)
  | inr large ↦ rw large (
      All-append _ (decimal_fuel f (n / 10)) _ (decimal_fuel-AllDigits f (n / 10))
        (ground arith, tt))
]

zeros-AllDigits : (k : ℕ) (s : Bytes) → AllDigits s → AllDigits (replicate k b'0' ++ s)
zeros-AllDigits zero s h = h
zeros-AllDigits (suc k) s h = (refl, zeros-AllDigits k s h)

pub pad-AllDigits : (w n : ℕ) → AllDigits (pad w (decimal n))
unfolding pad decimal
pad-AllDigits w n = zeros-AllDigits _ _ (decimal_fuel-AllDigits (suc n) n)

parse_digits-pad : (w n : ℕ) → parse_digits 0 (pad w (decimal n)) ≡ some n
unfolding pad
parse_digits-pad w n =
    rw (parse_digits-zeros (w - length (decimal n)) (decimal n)) (parse_digits-decimal n)

length-replicate-append : (k : ℕ) (s : Bytes) → length (replicate k b'0' ++ s) ≡ k + length s
length-replicate-append zero s = omega arith
length-replicate-append (suc k) s = omega (arith, length-replicate-append k s)

length-pad : (w : ℕ) (s : Bytes) → w ≤ length (pad w s)
unfolding pad
length-pad w s = omega (arith, length-replicate-append (w - length s) s)

parse_uint_of_nonempty : (s : Bytes) → 0 < length s → parse_uint s ≡ parse_digits 0 s
unfolding parse_uint
parse_uint_of_nonempty [] h = absurd (omega arith)
parse_uint_of_nonempty (c ∷ s) h = refl

parse_int_of_digits :
    (s : Bytes) → AllDigits s → 0 < length s → parse_int s ≡ as_positive (parse_digits 0 s)
unfolding parse_int
parse_int_of_digits [] d h = absurd (omega arith)
parse_int_of_digits (c ∷ s) d h = ground arith

parse_int_of_minus : (s : Bytes) → parse_int (b'-' ∷ s) ≡ as_negative (parse_uint s)
unfolding parse_int
parse_int_of_minus s = refl

as_negative_in_range : (n : ℕ) → n ≤ max_int64 → as_negative (some (suc n)) ≡ some (negsuc n)
unfolding as_negative
as_negative_in_range n h = ground arith

parse_int-negative :
    (n : ℕ) → n ≤ max_int64 → parse_int (b'-' ∷ pad 19 (decimal (suc n))) ≡ some (negsuc n)
parse_int-negative n h =
    rw
      (
        parse_int_of_minus (pad 19 (decimal (suc n))),
        parse_uint_of_nonempty (pad 19 (decimal (suc n)))
            (omega (arith, length-pad 19 (decimal (suc n)))),
        parse_digits-pad 19 (suc n),
      )
      (as_negative_in_range n h)

-- `ParseInt` reads back what `%020d` writes, for every int64.
pub parse_int-pad20 : (v : ℤ) → IsInt64 v → parse_int (pad20 v) ≡ some v
unfolding pad20
parse_int-pad20 (pos n) h =
    rw
      (
        parse_int_of_digits (pad 20 (decimal n)) (pad-AllDigits 20 n)
            (omega (arith, length-pad 20 (decimal n))),
        parse_digits-pad 20 n,
      )
      (unfold as_positive in ground arith)
parse_int-pad20 (negsuc n) h = parse_int-negative n (omega arith)

parse_digits-stops :
    (acc : ℕ) (s : Bytes) (c : ℕ) (t : Bytes)
    → AllDigits s
    → is_digit c ≡ false
    → parse_digits acc (s ++ c ∷ t) ≡ none
unfolding parse_digits
parse_digits-stops acc [] c t d bad = ground arith
parse_digits-stops acc (x ∷ s) c t d bad =
    ground (arith, parse_digits-stops (acc * 10 + (x - 48)) s c t d.1 bad)

parse_uint-stops :
    (s : Bytes) (c : ℕ) (t : Bytes)
    → AllDigits s
    → is_digit c ≡ false
    → parse_uint (s ++ c ∷ t) ≡ none
unfolding parse_uint
parse_uint-stops [] c t d bad = parse_digits-stops 0 [] c t d bad
parse_uint-stops (x ∷ s) c t d bad = parse_digits-stops 0 (x ∷ s) c t d bad

parse_int-stops_positive :
    (s : Bytes) (c : ℕ) (t : Bytes)
    → AllDigits s
    → 0 < length s
    → is_digit c ≡ false
    → parse_int (s ++ c ∷ t) ≡ none
unfolding parse_int as_positive
parse_int-stops_positive [] c t d h bad = absurd (omega arith)
parse_int-stops_positive (x ∷ s) c t d h bad = ground (arith, parse_uint-stops (x ∷ s) c t d bad)

parse_int-stops_negative :
    (s : Bytes) (c : ℕ) (t : Bytes)
    → AllDigits s
    → is_digit c ≡ false
    → parse_int (b'-' ∷ s ++ c ∷ t) ≡ none
unfolding as_negative
parse_int-stops_negative s c t d bad =
    rw (parse_int_of_minus (s ++ c ∷ t), parse_uint-stops s c t d bad)

-- A number with more text behind it that starts with no digit is refused.
pub parse_int-stops :
    (v : ℤ) (c : ℕ) (t : Bytes) → is_digit c ≡ false → parse_int (pad20 v ++ c ∷ t) ≡ none
unfolding pad20
parse_int-stops (pos n) c t bad =
    parse_int-stops_positive (pad 20 (decimal n)) c t (pad-AllDigits 20 n)
      (omega (arith, length-pad 20 (decimal n))) bad
parse_int-stops (negsuc n) c t bad =
    parse_int-stops_negative (pad 19 (decimal (suc n))) c t (pad-AllDigits 19 (suc n)) bad

AllDigits-differ :
    (sep : ℕ) (s : Bytes) → is_digit sep ≡ false → AllDigits s → All (λ c. (c == sep) ≡ false) s
AllDigits-differ sep [] no_digit d = tt
AllDigits-differ sep (c ∷ s) no_digit d = (ground arith, AllDigits-differ sep s no_digit d.1)

-- No byte of `%020d` is a separator.
pub pad20-differs :
    (sep : ℕ) (v : ℤ)
    → is_digit sep ≡ false
    → (b'-' == sep) ≡ false
    → All (λ c. (c == sep) ≡ false) (pad20 v)
unfolding pad20
pad20-differs sep (pos n) d m = AllDigits-differ sep (pad 20 (decimal n)) d (pad-AllDigits 20 n)
pad20-differs sep (negsuc n) d m =
    (m, AllDigits-differ sep (pad 19 (decimal (suc n))) d (pad-AllDigits 19 (suc n)))

pub length-pad20 : (v : ℤ) → 20 ≤ length (pad20 v)
unfolding pad20
length-pad20 (pos n) = length-pad 20 (decimal n)
length-pad20 (negsuc n) = omega (arith, length-pad 19 (decimal (suc n)))

-- No byte of a number is a separator.
pub decimal_int-differs :
    (sep : ℕ) (v : ℤ)
    → is_digit sep ≡ false
    → (b'-' == sep) ≡ false
    → All (λ c. (c == sep) ≡ false) (decimal_int v)
unfolding decimal_int decimal
decimal_int-differs sep (pos n) d m =
    AllDigits-differ sep (decimal n) d (decimal_fuel-AllDigits (suc n) n)
decimal_int-differs sep (negsuc n) d m =
    (m, AllDigits-differ sep (decimal (suc n)) d (decimal_fuel-AllDigits (suc (suc n)) (suc n)))

-- A text that starts with the letter v is no number.
pub parse_int-letter : (s : Bytes) → parse_int (b'v' ∷ s) ≡ none
unfolding parse_int parse_uint parse_digits as_positive
parse_int-letter s = refl
