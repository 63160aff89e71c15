-- ===== src/Peg/Ast/CharClass/Ranges.antt =====
-- The ranges of a class against a reading of its characters, item by item.
use exp.Base.{
  ℕ, Bool, true, false, some, List, [], ◌∷◌, ◌++◌, ◌≡◌, refl, sym, ◌∙◌, ◌==◌, if◌then◌else◌,
  append_assoc, append-nil, arith, Bool-cases, ◌⊎◌, inl, inr,
}
use exp.Peg.Ast.CharClass.{Ranging, split_last, range_round, extract, extracted}

-- A class lists single characters and ranges.
pub data Item : Type 0 where
  single : ℕ → Item
  span : ℕ → ℕ → Item

-- The items that a list of characters is read as: a character, a minus and a character are a range.
abbrev pub items : List ℕ → List Item
items [] = []
items (a ∷ []) = single a ∷ []
items (a ∷ m ∷ []) = single a ∷ single m ∷ []
items (a ∷ m ∷ b ∷ rest) =
    let others = items (m ∷ b ∷ rest) in
    let behind = items rest in if m == 45 then span a b ∷ behind else single a ∷ others

abbrev pub singles : List Item → List ℕ
singles [] = []
singles (single a ∷ is) = a ∷ singles is
singles (span a b ∷ is) = singles is

abbrev pub bounds : List Item → List ℕ
bounds [] = []
bounds (single a ∷ is) = bounds is
bounds (span a b ∷ is) = a ∷ b ∷ bounds is

abbrev pub at_start : Bool → List ℕ → List ℕ → Ranging
at_start was chars ranges = record {
  in_range = false;
  was_range = was;
  chars = chars;
  ranges = ranges;
}

-- The extraction that goes on behind a range, or at the start.
abbrev Extracts : Ranging → List ℕ → List ℕ → List Item → Type 0
Extracts c chars ranges is = (c.chars ≡ chars ++ singles is) × (c.ranges ≡ ranges ++ bounds is)

split_last-last : (cs : List ℕ) (a : ℕ) → split_last (cs ++ a ∷ []) ≡ some (cs, a)
unfolding split_last
split_last-last [] a = refl
split_last-last (c ∷ []) a = refl
split_last-last (c ∷ d ∷ cs) a = rw (split_last-last (d ∷ cs) a)

-- What behind a range holds of the whole.
step-range :
    (c : Ranging) (chars ranges : List ℕ) (a b : ℕ) (is : List Item)
    → Extracts c chars (ranges ++ a ∷ b ∷ []) is
    → Extracts c chars ranges (span a b ∷ is)
step-range c chars ranges a b is (hc, hr) = (hc, hr ∙ append_assoc ranges (a ∷ b ∷ []) (bounds is))

step-single :
    (c : Ranging) (chars ranges : List ℕ) (a : ℕ) (is : List Item)
    → Extracts c (chars ++ a ∷ []) ranges is
    → Extracts c chars ranges (single a ∷ is)
step-single c chars ranges a is (hc, hr) = (hc ∙ append_assoc chars (a ∷ []) (singles is), hr)

-- At once behind a range or at the start, a character is added, and so is the last one.
start_round :
    (a : ℕ) (cs : List ℕ) (was : Bool) (chars ranges : List ℕ)
    → (was ≡ true) ⊎ (chars ≡ [])
    → range_round a cs (at_start was chars ranges) ≡ at_start false (chars ++ a ∷ []) ranges
unfolding split_last
start_round a cs true chars ranges h = ground arith
start_round a cs false chars ranges (inl h) = cc
start_round a cs false chars ranges (inr h) = rw h (ground arith)

last_round :
    (a : ℕ) (chars ranges : List ℕ)
    → range_round a [] (at_start false chars ranges) ≡ at_start false (chars ++ a ∷ []) ranges
last_round a chars ranges = ground arith

-- A minus between a character and another one starts a range.
minus_round :
    (m a b : ℕ) (cs chars ranges : List ℕ)
    → (m == 45) ≡ true
    → range_round m (b ∷ cs) (at_start false (chars ++ a ∷ []) ranges)
      ≡ record { in_range = true; was_range = false; chars = chars; ranges = ranges ++ a ∷ [] }
minus_round m a b cs chars ranges e = rw (e, split_last-last chars a) refl

char_round :
    (m : ℕ) (rest chars ranges : List ℕ)
    → (m == 45) ≡ false
    → range_round m rest (at_start false chars ranges) ≡ at_start false (chars ++ m ∷ []) ranges
char_round m rest chars ranges e = rw e refl

-- Where no range is open and no minus can start one at once, and behind a character `a`.
mutual
  unfolding extract split_last

  extract-start :
      (cs : List ℕ) (was : Bool) (chars ranges : List ℕ)
      → (was ≡ true) ⊎ (chars ≡ [])
      → Extracts (extract cs (at_start was chars ranges)) chars ranges (items cs)
  extract-start [] was chars ranges h = (sym (append-nil chars), sym (append-nil ranges))
  extract-start (a ∷ cs) was chars ranges h =
      rw (extract, start_round a cs was chars ranges h) (extract-char cs a chars ranges)

  extract-char :
      (cs : List ℕ) (a : ℕ) (chars ranges : List ℕ)
      → Extracts
          (extract cs (at_start false (chars ++ a ∷ []) ranges))
          chars
          ranges
          (items (a ∷ cs))
  extract-char [] a chars ranges = (refl, sym (append-nil ranges))
  extract-char (m ∷ []) a chars ranges =
      rw (extract, last_round m (chars ++ a ∷ []) ranges, extract)
        (append_assoc chars (a ∷ []) (m ∷ []), sym (append-nil ranges))
  extract-char (m ∷ b ∷ cs) a chars ranges = elim (Bool-cases (m == 45)) [
    | inl e ↦
        rw (extract, minus_round m a b cs chars ranges e, extract, e)
          (step-range (extract cs (at_start true chars ((ranges ++ a ∷ []) ++ b ∷ []))) chars ranges
            a b (items cs)
            (rw (append_assoc ranges (a ∷ []) (b ∷ []))
              (extract-start cs true chars (ranges ++ a ∷ b ∷ []) (inl refl))))
    | inr e ↦
        rw (extract, char_round m (b ∷ cs) (chars ++ a ∷ []) ranges e, e)
          (step-single (extract (b ∷ cs) (at_start false ((chars ++ a ∷ []) ++ m ∷ []) ranges))
            chars ranges a (items (m ∷ b ∷ cs)) (extract-char (b ∷ cs) m (chars ++ a ∷ []) ranges))
  ]

-- The characters and the ranges that are extracted from a class are those that it lists, when it is
-- read from the left as items: a character, a minus and a character are a range, any other
-- character stands for itself, and so does a minus at the start, at the end or behind a range that
-- is not followed by a minus and a character.
pub extracted-items :
    (cs : List ℕ)
    → ((extracted cs).chars ≡ singles (items cs)) × ((extracted cs).ranges ≡ bounds (items cs))
extracted-items cs = extract-start cs false [] [] (inr refl)
