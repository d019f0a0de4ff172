-- ===== src/Config/Env.antt =====
-- internal/config/config.go: `expandEnvVars`, which fills in `${NAME}` and `${NAME:-default}`. A match
-- of `\$\{([^}]+)\}` is found by hand: the first `${` with a `}` behind it and something between.
use agent_brain.Base.{
  ℕ, zero, suc, ◌&&◌, Option, none, some, [], ◌∷◌, ◌++◌, if◌then◌else◌, length, ◌==◌,
}
use agent_brain.Base.Bytes.{Bytes, codes}

-- The text up to the closing brace and the text behind it.
unfoldable pub up_to_brace : Bytes → Option (Bytes × Bytes)
up_to_brace [] = none
up_to_brace (c ∷ s) =
    let rest = up_to_brace s in
    if c == b'}'
    then some ([], s)
    else elim rest [ none ↦ none | some found ↦ some (c ∷ found.0, found.1) ]

-- A match at the start of the text: the key, and the text behind it.
some_key : Option (Bytes × Bytes) → Option (Bytes × Bytes)
some_key none = none
some_key (some ([], rest)) = none
some_key (some (c ∷ key, rest)) = some (c ∷ key, rest)

unfoldable pub match_at : Bytes → Option (Bytes × Bytes)
unfolding up_to_brace some_key
match_at [] = none
match_at (c ∷ []) = none
match_at (c ∷ (d ∷ s)) = if (c == b'$') && (d == b'{') then some_key (up_to_brace s) else none

-- `strings.SplitN(key, ":-", 2)`
unfoldable pub split_default : Bytes → Bytes × Option Bytes
split_default [] = ([], none)
split_default (c ∷ []) = (c ∷ [], none)
split_default (c ∷ (d ∷ s)) =
    let rest = split_default (d ∷ s) in
    if (c == b':') && (d == b'-') then ([], some s) else (c ∷ rest.0, rest.1)

-- `strings.TrimSpace` and `os.LookupEnv`.
module _ (trim_space : Bytes → Bytes) (lookup_env : Bytes → Option Bytes) where
  -- What takes the place of a match with this key.
  unfoldable pub replacement : Bytes → Bytes
  unfolding split_default
  replacement key =
      let (name, default) = split_default key in
      elim (lookup_env (trim_space name)) [
        | some value ↦ value
        | none ↦ elim default [ some d ↦ d | none ↦ codes "${" ++ (key ++ codes "}") ]
      ]

  -- The rounds of the search are bounded by the length of the text, of which each takes a part.
  unfoldable pub expand_from : ℕ → Bytes → Bytes
  unfolding replacement match_at
  expand_from zero s = s
  expand_from (suc n) [] = []
  expand_from (suc n) (c ∷ s) = elim (match_at (c ∷ s)) [
    | none ↦ c ∷ expand_from n s
    | some found ↦ replacement found.0 ++ expand_from n found.1
  ]

  unfoldable pub expand_env_vars : Bytes → Bytes
  unfolding expand_from
  expand_env_vars s = expand_from (length s) s
