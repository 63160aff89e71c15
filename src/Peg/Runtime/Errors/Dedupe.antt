-- ===== src/Peg/Runtime/Errors/Dedupe.antt =====
-- peg/builder/static_code.go: `dedupe` keeps the first error of each message, in order.
use exp.Base.{
  true, false, ◌≡◌, refl, ap, List, [], ◌∷◌, map, ◌||◌, arith, Text, text_eq, text_eq→≡,
  text_eq_refl, Bool-cases, inl, inr,
}
use exp.Peg.Runtime.Errors.{ParserError, ErrList, message, is_set, dedupe_from, dedupe}

abbrev pub messages : ErrList → List Text
messages = map message

abbrev pub AllDistinct : ErrList → Type 0
AllDistinct [] = Unit
AllDistinct (e ∷ es) = (is_set (message e) (messages es) ≡ false) × AllDistinct es

-- The errors of the right list, some of them left out.
pub data Thinned : ErrList → ErrList → Type 0 where
  none_left : Thinned [] []
  kept : {xs ys : ErrList} (e : ParserError) → Thinned xs ys → Thinned (e ∷ xs) (e ∷ ys)
  left_out : {xs ys : ErrList} (e : ParserError) → Thinned xs ys → Thinned xs (e ∷ ys)

is_set-congr : (m n : Text) (set : List Text) → text_eq m n ≡ true → is_set n set ≡ is_set m set
is_set-congr m n set h = ap (λ t. is_set t set) (rw (text_eq→≡ m n h))

-- The messages of the result and of the set are those of the list and of the set.
dedupe_from-same :
    (m : Text) (set : List Text) (es : ErrList)
    → (is_set m (messages (dedupe_from set es)) || is_set m set)
      ≡ (is_set m (messages es) || is_set m set)
unfolding dedupe_from
dedupe_from-same m set [] = refl
dedupe_from-same m set (e ∷ es) = ground (
  arith,
  dedupe_from-same m set es,
  dedupe_from-same m (message e ∷ set) es,
  is_set-congr m (message e) set,
)

-- What is in the set already is left out.
dedupe_from-fresh :
    (m : Text) (set : List Text) (es : ErrList)
    → is_set m set ≡ true
    → is_set m (messages (dedupe_from set es)) ≡ false
unfolding dedupe_from
dedupe_from-fresh m set [] h = refl
dedupe_from-fresh m set (e ∷ es) h = ground (
  arith,
  dedupe_from-fresh m set es,
  dedupe_from-fresh m (message e ∷ set) es,
  is_set-congr m (message e) set,
)

dedupe_from-AllDistinct : (set : List Text) (es : ErrList) → AllDistinct (dedupe_from set es)
unfolding dedupe_from
dedupe_from-AllDistinct set [] = tt
dedupe_from-AllDistinct set (e ∷ es) = elim (Bool-cases (is_set (message e) set)) [
  | inl seen ↦ rw seen (dedupe_from-AllDistinct set es)
  | inr new ↦ rw new (
    dedupe_from-fresh (message e) (message e ∷ set) es (ground (arith, text_eq_refl (message e))),
    dedupe_from-AllDistinct (message e ∷ set) es,
  )
]

dedupe_from-Thinned : (set : List Text) (es : ErrList) → Thinned (dedupe_from set es) es
unfolding dedupe_from
dedupe_from-Thinned set [] = none_left
dedupe_from-Thinned set (e ∷ es) = elim (Bool-cases (is_set (message e) set)) [
  | inl seen ↦ rw seen (left_out e (dedupe_from-Thinned set es))
  | inr new ↦ rw new (kept e (dedupe_from-Thinned (message e ∷ set) es))
]

-- The deduplicated list holds no message twice, holds the same messages as the list, and is the
-- list with some errors left out, in the same order.
pub dedupe-distinct :
    (es : ErrList)
    → AllDistinct (dedupe es)
      × ((m : Text) → is_set m (messages (dedupe es)) ≡ is_set m (messages es))
      × Thinned (dedupe es) es
unfolding dedupe
dedupe-distinct es = (
  dedupe_from-AllDistinct [] es,
  λ m. ground (arith, dedupe_from-same m [] es),
  dedupe_from-Thinned [] es,
)
