-- ===== src/Peg/Ast/CharClass.antt =====
-- peg/ast/ast.go: NewCharClassMatcher. Text is bytes; a rune that is read behind the end is 0.
pub mod Ranges
use exp.Base.{
  ℕ, zero, suc, Bool, true, false, not, Option, none, some, List, [], ◌∷◌, ◌++◌, Text, ◌==◌, ltb,
  leb, ◌&&◌, ◌||◌, if◌then◌else◌, length, Round, again, stop, repeat,
}
use exp.Peg.Ast.{Pos, CharClassMatcher}

-- What is taken from Go's library: the runes that `ReadRune` gives for a text, the UTF-8 of a rune,
-- and the rune of `strconv.UnquoteChar`, which is 0 on an error.
pub record Strings : Type 0 where
  pub runes : Text → List ℕ
  pub encode_rune : ℕ → Text
  pub unquote_char : Text → ℕ

-- `strings.HasSuffix(raw, "i")`
unfoldable pub has_suffix_i : Text → Bool
has_suffix_i [] = false
has_suffix_i (b ∷ []) = b == 105
has_suffix_i (b ∷ c ∷ bs) = has_suffix_i (c ∷ bs)

-- `raw[:len(raw)-1]`
unfoldable pub without_last : Text → Text
without_last [] = []
without_last (b ∷ []) = []
without_last (b ∷ c ∷ bs) = b ∷ without_last (c ∷ bs)

-- `raw[1 : len(raw)-1]`, which panics on less than two bytes.
unfoldable pub without_ends : Text → Option Text
unfolding without_last
without_ends [] = none
without_ends (b ∷ []) = none
without_ends (b ∷ c ∷ bs) = some (without_last (c ∷ bs))

unfoldable pub read_rune : List ℕ → ℕ × List ℕ
read_rune [] = (0, [])
read_rune (r ∷ rs) = (r, rs)

-- How many runes belong to an escape, behind its first one.
unfoldable pub consume_n : ℕ → ℕ
consume_n rn =
    if rn == 120
    then 2
    else if rn == 117
    then 4
    else if rn == 85
    then 8
    else if leb 48 rn && leb rn 55
    then 2
    else 0

-- `chars` and the classes so far, and the runes that are left.
pub record Reading : Type 0 where
  pub left : List ℕ
  pub chars : List ℕ
  pub unicode_classes : List Text

module _ (strings : Strings) where
  -- The name of a class up to its brace, and the runes behind; the code does not end if there is
  -- no brace.
  unfoldable pub class_name : Text → List ℕ → Option (Text × List ℕ)
  class_name buf [] = none
  class_name buf (rn ∷ rs) =
      if rn == 125 then some (buf, rs) else class_name (buf ++ strings.encode_rune rn) rs

  unfoldable pub read_n : ℕ → Text → List ℕ → Text × List ℕ
  unfolding read_rune
  read_n zero buf rs = (buf, rs)
  read_n (suc n) buf rs =
      let (rn, rs') = read_rune rs in read_n n (buf ++ strings.encode_rune rn) rs'

  abbrev pub add_class : Reading → Option (Text × List ℕ) → Round Reading (Option Reading)
  add_class c none = stop none
  add_class c (some (name, rs)) =
      again (record c { left = rs; unicode_classes = c.unicode_classes ++ name ∷ [] })

  -- Behind `\p`.
  abbrev pub unicode_class : Reading → List ℕ → Round Reading (Option Reading)
  unicode_class c rs =
      let (rn, rs') = read_rune rs in
      if rn == 123
      then add_class c (class_name [] rs')
      else add_class c (some (strings.encode_rune rn, rs'))

  -- Behind a backslash and the rune `rn`.
  abbrev pub escape : Reading → ℕ → List ℕ → Round Reading (Option Reading)
  escape c rn rs =
      let (buf, rs') = read_n (consume_n rn) (strings.encode_rune rn) rs in
      if rn == 93
      then again (record c { left = rs; chars = c.chars ++ rn ∷ [] })
      else if rn == 112
      then unicode_class c rs
      else again (record c { left = rs'; chars = c.chars ++ strings.unquote_char (92 ∷ buf) ∷ [] })

  -- A round of the loop `outer`, with the runes that are left; the loop stops with `none` where the
  -- code does not end.
  abbrev pub outer_round : Reading → List ℕ → Round Reading (Option Reading)
  outer_round c [] = stop (some c)
  outer_round c (rn ∷ rs) =
      let (rn', rs') = read_rune rs in
      if rn == 92
      then escape c rn' rs'
      else again (record c { left = rs; chars = c.chars ++ rn ∷ [] })

  -- The loop `outer`, whose rounds are at most the runes and one.
  unfoldable pub outer : Text → Option (Option Reading)
  unfolding read_rune class_name read_n consume_n
  outer raw =
      let rs = strings.runes raw in
      repeat (suc (length rs)) (λ c. outer_round c c.left)
        (record { left = rs; chars = []; unicode_classes = [] })

-- The state of the loop that extracts the ranges.
pub record Ranging : Type 0 where
  pub in_range : Bool
  pub was_range : Bool
  pub chars : List ℕ
  pub ranges : List ℕ

abbrev behind_first : ℕ → Option (List ℕ × ℕ) → Option (List ℕ × ℕ)
behind_first r none = none
behind_first r (some (init, last)) = some (r ∷ init, last)

-- The last character and those before it.
unfoldable pub split_last : List ℕ → Option (List ℕ × ℕ)
split_last [] = none
split_last (r ∷ []) = some ([], r)
split_last (r ∷ r' ∷ rs) = behind_first r (split_last (r' ∷ rs))

-- A minus: it starts a range at the last character, if there is one, or it is a character.
abbrev pub at_minus : Option (List ℕ × ℕ) → Ranging → Ranging
at_minus none c = record c { was_range = false; chars = c.chars ++ 45 ∷ [] }
at_minus (some (init, last)) c = record c {
  in_range = true;
  was_range = false;
  chars = init;
  ranges = c.ranges ++ last ∷ [];
}

abbrev pub is_nil : List ℕ → Bool
is_nil [] = true
is_nil (r ∷ rs) = false

-- A round, with the characters behind it.
abbrev pub range_round : ℕ → List ℕ → Ranging → Ranging
range_round r rest c =
    if c.in_range
    then record c { in_range = false; was_range = true; ranges = c.ranges ++ r ∷ [] }
    else if r == 45 && not c.was_range && not (is_nil rest)
    then at_minus (split_last c.chars) c
    else record c { was_range = false; chars = c.chars ++ r ∷ [] }

unfoldable pub extract : List ℕ → Ranging → Ranging
unfolding split_last
extract [] c = c
extract (r ∷ rest) c = extract rest (range_round r rest c)

abbrev pub extracted : List ℕ → Ranging
extracted chars =
    extract chars (record { in_range = false; was_range = false; chars = []; ranges = [] })

-- What is set of the matcher: from the loop `outer`, and then from the ranges.
abbrev pub set_content : CharClassMatcher → Option (Option Reading) → Option CharClassMatcher
set_content c none = none
set_content c (some none) = none
set_content c (some (some r)) =
    let e = extracted r.chars in
    some (record c { chars = e.chars; ranges = e.ranges; unicode_classes = r.unicode_classes })

abbrev pub at_content : Strings → CharClassMatcher → Text → Option CharClassMatcher
at_content strings c [] = some c
at_content strings c (b ∷ raw) = set_content c (outer strings (b ∷ raw))

abbrev pub at_caret : Strings → CharClassMatcher → Option Text → Option CharClassMatcher
at_caret strings c none = none
at_caret strings c (some []) = some c
at_caret strings c (some (b ∷ raw)) =
    let inv = record c { inverted = true } in
    if b == 94 then at_content strings inv raw else at_content strings c (b ∷ raw)

-- `none` where the code panics, on a text too short, and where it does not end.
unfoldable pub new_char_class_matcher : Strings → Pos → Text → Option CharClassMatcher
unfolding has_suffix_i without_last without_ends outer extract
new_char_class_matcher strings p raw =
    let ignore = has_suffix_i raw in
    at_caret strings
      (record {
        p = p;
        val = raw;
        ignore_case = ignore;
        inverted = false;
        chars = [];
        ranges = [];
        unicode_classes = [];
      })
      (without_ends (if ignore then without_last raw else raw))
