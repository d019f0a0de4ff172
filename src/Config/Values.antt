-- ===== src/Config/Values.antt =====
-- internal/config/config.go: the ways in which a default takes the place of a setting. Durations are
-- nanoseconds; a floating-point setting, which is only compared with 0 and 10, is a number of millionths.
use agent_brain.Base.{
  ℕ, ◌*◌, ◌≡◌, refl, Option, none, some, List, [], ◌∷◌, arith, if◌then◌else◌, ap,
}
use agent_brain.Base.Int.{ℤ, pos, leb_ℤ, eqb_ℤ, ◌<ℤ◌}
use agent_brain.Base.Map.{Map}

abbrev pub Float : Type 0
Float = ℤ

abbrev pub millionths : ℕ → Float
millionths n = pos n

abbrev pub second : ℕ → ℤ
second n = pos (n * 1000000000)

abbrev pub minute : ℕ → ℤ
minute n = pos (n * 60000000000)

abbrev pub hour : ℕ → ℤ
hour n = pos (n * 3600000000000)

-- `if x <= 0 { x = d }`
abbrev pub positive_or : ℤ → ℤ → ℤ
positive_or d x = if leb_ℤ x (pos 0) then d else x

-- `if x == 0 { x = d }`
abbrev pub nonzero_or : ℤ → ℤ → ℤ
nonzero_or d x = if eqb_ℤ x (pos 0) then d else x

-- `if x == "" { x = d }`, and the same of a slice with no elements.
abbrev pub nonempty_or : {A : Type 0} → List A → List A → List A
nonempty_or d [] = d
nonempty_or d (c ∷ x) = c ∷ x

abbrev pub map_values : {A B : Type 0} → (A → B) → Map A → Map B
map_values f [] = []
map_values f ((k, a) ∷ m) = (k, f a) ∷ map_values f m

abbrev pub map_option : {A : Type 0} → (A → A) → Option A → Option A
map_option f none = none
map_option f (some a) = some (f a)

pub positive_or-positive : (d x : ℤ) → pos 0 <ℤ d → pos 0 <ℤ positive_or d x
positive_or-positive d x h = ground arith

pub positive_or_twice : (d x : ℤ) → positive_or d (positive_or d x) ≡ positive_or d x
positive_or_twice d x = ground arith

pub nonzero_or_twice : (d x : ℤ) → nonzero_or d (nonzero_or d x) ≡ nonzero_or d x
nonzero_or_twice d x = ground arith

pub nonempty_or_twice :
    {A : Type 0} (d x : List A) → nonempty_or d (nonempty_or d x) ≡ nonempty_or d x
nonempty_or_twice [] [] = refl
nonempty_or_twice (a ∷ d) [] = refl
nonempty_or_twice d (c ∷ x) = refl

pub map_values_twice :
    {A : Type 0} (f : A → A) (m : Map A)
    → ((a : A) → f (f a) ≡ f a)
    → map_values f (map_values f m) ≡ map_values f m
map_values_twice f [] h = refl
map_values_twice f ((k, a) ∷ m) h = rw (h a, map_values_twice f m h) refl

pub map_option_twice :
    {A : Type 0} (f : A → A) (o : Option A)
    → ((a : A) → f (f a) ≡ f a)
    → map_option f (map_option f o) ≡ map_option f o
map_option_twice f none h = refl
map_option_twice f (some a) h = ap (λ x. some x) (h a)
