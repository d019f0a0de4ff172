-- ===== src/Layout/Separate.antt =====
-- internal/storage/layout.go: the tables of different objects have files of their own.
use agent_brain.Base.{
  ℕ, suc, ◌≡◌, refl, sym, ap, ◌∙◌, true, false, [], ◌∷◌, ◌++◌, length, drop, ◌==◌, ==_iff,
  Bool-cases, inl, inr,
}
use agent_brain.Base.Int.{ℤ}
use agent_brain.Base.Bytes.{Bytes, codes}
use agent_brain.Base.Decimal.{pad20}
use agent_brain.Base.Strings.{has_prefix, first_part, first_part-append, Avoids}
use agent_brain.Delta.Keys.{version_key}
use agent_brain.Layout.{delta_log_prefix, delta_log_entry}

append_assoc : (p q r : Bytes) → (p ++ q) ++ r ≡ p ++ (q ++ r)
append_assoc [] q r = refl
append_assoc (c ∷ p) q r = ap (λ s. c ∷ s) (append_assoc p q r)

false-ne-true : false ≡ true → ⊥
false-ne-true e = cc

-- A text with a prefix is the prefix with something behind it.
prefix_rest : (k p : Bytes) → has_prefix k p ≡ true → (t : Bytes) × (k ≡ p ++ t)
unfolding has_prefix
prefix_rest k [] h = (k, refl)
prefix_rest [] (c ∷ p) h = absurd (false-ne-true h)
prefix_rest (a ∷ k) (c ∷ p) h = elim (Bool-cases (a == c)) [
  | inl same ↦
      let (t, rest) = prefix_rest k p (rw same at h) in
      let first = (==_iff a c).0 same in (t, ap (λ u. a ∷ u) rest ∙ ap (λ x. x ∷ (p ++ t)) first)
  | inr apart ↦ absurd (false-ne-true (rw apart at h))
]

-- The source and the object that a key names.
source_of : Bytes → Bytes
source_of k = first_part b'/' (drop 5 k)

object_of : Bytes → Bytes
object_of k = first_part b'/' (drop (suc (length (source_of k))) (drop 5 k))

drop-suc : (s : Bytes) (c : ℕ) (t : Bytes) → drop (suc (length s)) (s ++ (c ∷ t)) ≡ t
drop-suc [] c t = refl
drop-suc (a ∷ s) c t = drop-suc s c t

-- A key below the log of a table.
below_log : Bytes → Bytes → Bytes → Bytes
below_log s o t = codes "data/" ++ (s ++ (b'/' ∷ (o ++ (b'/' ∷ (codes "_delta_log/" ++ t)))))

delta_log_prefix-append : (s o t : Bytes) → delta_log_prefix s o ++ t ≡ below_log s o t
unfolding delta_log_prefix below_log
delta_log_prefix-append s o t =
    ap (λ u. codes "data/" ++ u)
      (append_assoc s (b'/' ∷ (o ++ codes "/_delta_log/")) t
        ∙ ap (λ u. s ++ (b'/' ∷ u)) (append_assoc o (codes "/_delta_log/") t))

source_of-below : (s o t : Bytes) → Avoids b'/' s → source_of (below_log s o t) ≡ s
unfolding source_of below_log
source_of-below s o t h = first_part-append b'/' s (o ++ (b'/' ∷ (codes "_delta_log/" ++ t))) h

object_of-below : (s o t : Bytes) → Avoids b'/' s → Avoids b'/' o → object_of (below_log s o t) ≡ o
unfolding object_of
object_of-below s o t h k =
    ap (λ u. first_part b'/' (drop (suc (length u)) (drop 5 (below_log s o t))))
      (source_of-below s o t h)
    ∙ unfold below_log in
      ap (first_part b'/') (drop-suc s b'/' (o ++ (b'/' ∷ (codes "_delta_log/" ++ t))))
      ∙ first_part-append b'/' o (codes "_delta_log/" ++ t) k

source_of-prefix : (s o t : Bytes) → Avoids b'/' s → source_of (delta_log_prefix s o ++ t) ≡ s
source_of-prefix s o t h = ap source_of (delta_log_prefix-append s o t) ∙ source_of-below s o t h

object_of-prefix :
    (s o t : Bytes) → Avoids b'/' s → Avoids b'/' o → object_of (delta_log_prefix s o ++ t) ≡ o
object_of-prefix s o t h k =
    ap object_of (delta_log_prefix-append s o t) ∙ object_of-below s o t h k

-- The transaction logs of two tables never share a file: a key under the log prefixes of two pairs
-- of source and object, none of whose names has a slash, is under them because they are the same
-- pair.
pub delta_log_prefix_separates :
    (s o s' o' k : Bytes)
    → Avoids b'/' s
    → Avoids b'/' o
    → Avoids b'/' s'
    → Avoids b'/' o'
    → has_prefix k (delta_log_prefix s o) ≡ true
    → has_prefix k (delta_log_prefix s' o') ≡ true
    → (s ≡ s') × (o ≡ o')
delta_log_prefix_separates s o s' o' k hs ho hs' ho' e e' =
    let (t, here) = prefix_rest k (delta_log_prefix s o) e in
    let (t', there) = prefix_rest k (delta_log_prefix s' o') e' in
    let same = sym here ∙ there in
    (
      sym (source_of-prefix s o t hs) ∙ ap source_of same ∙ source_of-prefix s' o' t' hs',
      sym (object_of-prefix s o t hs ho) ∙ ap object_of same ∙ object_of-prefix s' o' t' hs' ho',
    )

delta_log_entry-version_key :
    (s o : Bytes) (v : ℤ) → delta_log_entry s o v ≡ version_key (delta_log_prefix s o) v
unfolding delta_log_entry version_key below_log
delta_log_entry-version_key s o v = sym (delta_log_prefix-append s o (pad20 v ++ codes ".json"))
