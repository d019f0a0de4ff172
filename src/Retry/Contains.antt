-- ===== src/Retry/Contains.antt =====
-- internal/retry/policy.go: the case-insensitive search for a pattern in an error's text.
use agent_brain.Base.{
  ℕ, zero, suc, ◌+◌, ◌-◌, ◌≤◌, ◌<◌, ◌≡◌, refl, sym, ap, ◌∙◌, ◌↔◌, Bool, true, false, ◌&&◌, none,
  some, [], ◌∷◌, ◌++◌, map, arith, ltb, leb, ◌==◌, ==_iff, if◌then◌else◌, length, length-append,
  get_elem?, drop, Bool-cases, inl, inr,
}
use native.Mathlib.Decide.{dec_lt}
use mathlib.Core.List.{map-append, append_assoc}
use agent_brain.Base.Bytes.{Bytes}
use agent_brain.Base.Strings.{take, drop-length-append}

lower_byte : ℕ → ℕ
lower_byte c = if leb b'A' c && leb c b'Z' then c + 32 else c

unfoldable pub to_lower : Bytes → Bytes
unfolding lower_byte
to_lower = map lower_byte

-- `s[i] == c`; the loops below keep `i` within `s`.
byte_is : Bytes → ℕ → ℕ → Bool
byte_is s i c = elim (get_elem? s i) [ none ↦ false | some a ↦ a == c ]

-- The inner loop: `s[i+j] == substr[j]` for every `j`.
matches_at : Bytes → ℕ → Bytes → Bool
unfolding byte_is
matches_at s i [] = true
matches_at s i (c ∷ cs) = if byte_is s i c then matches_at s (suc i) cs else false

-- The outer loop, from `i` and for as many rounds as are left.
scan : Bytes → Bytes → ℕ → ℕ → Bool
unfolding matches_at
scan s sub i zero = false
scan s sub i (suc n) = elim (matches_at s i sub) [ true ↦ true | false ↦ scan s sub (suc i) n ]

unfoldable pub string_contains : Bytes → Bytes → Bool
unfolding scan
string_contains s sub =
    if ltb (length s) (length sub) then false else scan s sub 0 (suc (length s - length sub))

unfoldable pub contains : Bytes → Bytes → Bool
unfolding string_contains to_lower
contains s sub = string_contains (to_lower s) (to_lower sub)

-- `sub` stands somewhere in `s`.
abbrev pub Occurs : Bytes → Bytes → Type 0
Occurs sub s = (pre : Bytes) × (post : Bytes) × (s ≡ pre ++ (sub ++ post))

drop-suc : (s : Bytes) (i c : ℕ) (r : Bytes) → drop i s ≡ c ∷ r → drop (suc i) s ≡ r
drop-suc [] zero c r h = cc
drop-suc [] (suc i) c r h = cc
drop-suc (a ∷ s) zero c r h = cc
drop-suc (a ∷ s) (suc i) c r h = drop-suc s i c r h

byte_is-drop : (s : Bytes) (i c : ℕ) → byte_is s i c ≡ true → drop i s ≡ c ∷ drop (suc i) s
unfolding byte_is
byte_is-drop [] i c h = cc
byte_is-drop (a ∷ s) zero c h = ap (λ x. x ∷ s) ((==_iff a c).0 h)
byte_is-drop (a ∷ s) (suc i) c h = byte_is-drop s i c h

byte_is_of_drop : (s : Bytes) (i c : ℕ) (r : Bytes) → drop i s ≡ c ∷ r → byte_is s i c ≡ true
unfolding byte_is
byte_is_of_drop [] zero c r h = cc
byte_is_of_drop [] (suc i) c r h = cc
byte_is_of_drop (a ∷ s) zero c r h = ground arith
byte_is_of_drop (a ∷ s) (suc i) c r h = byte_is_of_drop s i c r h

matches_at-drop :
    (s : Bytes) (i : ℕ) (sub : Bytes)
    → matches_at s i sub ≡ true
    → (post : Bytes) × (drop i s ≡ sub ++ post)
unfolding matches_at
matches_at-drop s i [] h = (drop i s, refl)
matches_at-drop s i (c ∷ cs) h = elim (Bool-cases (byte_is s i c)) [
  | inl hit ↦
      let (post, e) = matches_at-drop s (suc i) cs (rw hit at h) in
      (post, byte_is-drop s i c hit ∙ ap (◌∷◌ c) e)
  | inr miss ↦ cc (rw miss at h)
]

matches_at_of_drop :
    (s : Bytes) (i : ℕ) (sub post : Bytes) → drop i s ≡ sub ++ post → matches_at s i sub ≡ true
unfolding matches_at
matches_at_of_drop s i [] post h = refl
matches_at_of_drop s i (c ∷ cs) post h =
    rw (byte_is_of_drop s i c (cs ++ post) h)
      (matches_at_of_drop s (suc i) cs post (drop-suc s i c (cs ++ post) h))

take-append-drop : (n : ℕ) (s : Bytes) → s ≡ take n s ++ drop n s
take-append-drop zero s = refl
take-append-drop (suc n) [] = refl
take-append-drop (suc n) (c ∷ s) = ap (◌∷◌ c) (take-append-drop n s)

scan_sound :
    (s sub : Bytes) (i n : ℕ) → scan s sub i n ≡ true → (k : ℕ) × (matches_at s k sub ≡ true)
unfolding scan
scan_sound s sub i zero h = cc
scan_sound s sub i (suc n) h = elim (Bool-cases (matches_at s i sub)) [
  | inl hit ↦ (i, hit)
  | inr miss ↦ scan_sound s sub (suc i) n (rw (miss, scan) at h)
]

-- A miss at `i` and a match at `k` are at two places.
miss-lt :
    (s sub : Bytes) (i k : ℕ)
    → matches_at s i sub ≡ false
    → matches_at s k sub ≡ true
    → i ≤ k
    → i < k
miss-lt s sub i k miss m lo = elim (dec_lt i k) [
  | yes p ↦ p
  | no q ↦
      let same : i ≡ k = omega arith in
      let e : matches_at s i sub ≡ matches_at s k sub = ap (λ x. matches_at s x sub) same in cc
]

scan_complete :
    (s sub : Bytes) (i n k : ℕ)
    → matches_at s k sub ≡ true
    → i ≤ k
    → k < i + n
    → scan s sub i n ≡ true
unfolding scan
scan_complete s sub i zero k m lo hi = absurd (omega arith)
scan_complete s sub i (suc n) k m lo hi = elim (Bool-cases (matches_at s i sub)) [
  | inl hit ↦ rw (hit, scan)
  | inr miss ↦
      rw (miss, scan)
        (scan_complete s sub (suc i) n k m (miss-lt s sub i k miss m lo) (omega arith))
]

string_contains_sound : (s sub : Bytes) → string_contains s sub ≡ true → Occurs sub s
unfolding string_contains
string_contains_sound s sub h = elim (Bool-cases (ltb (length s) (length sub))) [
  | inl short ↦ cc (rw short at h)
  | inr fits ↦
      let (k, m) = scan_sound s sub 0 (suc (length s - length sub)) (rw fits at h) in
      let (post, e) = matches_at-drop s k sub m in
      (take k s, post, take-append-drop k s ∙ ap (◌++◌ (take k s)) e)
]

string_contains_complete : (s sub : Bytes) → Occurs sub s → string_contains s sub ≡ true
unfolding string_contains
string_contains_complete s sub (pre, post, e) =
    let size : length s ≡ length pre + length (sub ++ post) =
      ap length e ∙ length-append pre (sub ++ post) in
    let fits : ltb (length s) (length sub) ≡ false = ground (arith, size, length-append sub post) in
    let m : matches_at s (length pre) sub ≡ true =
      matches_at_of_drop s (length pre) sub post
        (ap (drop (length pre)) e ∙ drop-length-append pre (sub ++ post)) in
    rw fits (
      scan_complete s sub 0 (suc (length s - length sub)) (length pre) m (omega arith)
        (omega (arith, size, length-append sub post)))

-- The hand-written search finds a pattern exactly when it stands somewhere in the text, both
-- lowered in their ASCII letters.
pub contains_iff : (s sub : Bytes) → (contains s sub ≡ true) ↔ Occurs (to_lower sub) (to_lower s)
unfolding contains
contains_iff s sub = (
  string_contains_sound (to_lower s) (to_lower sub),
  string_contains_complete (to_lower s) (to_lower sub),
)

-- A text that contains the pattern keeps it with a prefix put in front.
pub contains-prefix : (p s sub : Bytes) → contains s sub ≡ true → contains (p ++ s) sub ≡ true
unfolding to_lower
contains-prefix p s sub h =
    let (pre, post, e) = (contains_iff s sub).0 h in
    (contains_iff (p ++ s) sub).1 (
      to_lower p ++ pre,
      post,
      map-append lower_byte p s
          ∙ ap (◌++◌ (to_lower p)) e
          ∙ sym (append_assoc (to_lower p) pre (to_lower sub ++ post)),
    )
