-- ===== src/Peg/Runtime/Matchers.antt =====
-- peg/builder/static_code.go: the expressions that look at runes, and how a run of the parser ends.
use exp.Base.{
  ℕ, length, Bool, true, false, List, [], ◌∷◌, ◌++◌, Text, ◌==◌, leb, if◌then◌else◌, ◌&&◌,
}
use exp.Peg.Runtime.Syntax.{LitMatcher, CharClassMatcher}
use exp.Peg.Runtime.State.{
  Value, nil, str, Parser, Savepoint, Env, rune_error, next_savepoint, read, save, restore,
}

-- `ended v ok p` is a return of `v, ok` in the state `p`. A panic keeps the state that it left.
-- `out_of_fuel` belongs to the model only: the program runs on.
pub data Outcome : Type 0 where
  ended : Value → Bool → Parser → Outcome
  panicked : Text → Parser → Outcome
  out_of_fuel : Outcome

abbrev pub on_end : Outcome → (Value → Bool → Parser → Outcome) → Outcome
on_end (ended v ok p) k = k v ok p
on_end (panicked e p) k = panicked e p
on_end out_of_fuel k = out_of_fuel

-- What a search of `ranges` finds. A low bound without a high one is an index panic if it is met.
pub data Found : Type 0 where
  hit miss out_of_range : Found

unfoldable pub in_chars : List ℕ → ℕ → Bool
in_chars [] cur = false
in_chars (rn ∷ chars) cur = if rn == cur then true else in_chars chars cur

unfoldable pub in_ranges : List ℕ → ℕ → Found
in_ranges [] cur = miss
in_ranges (lo ∷ []) cur = if leb lo cur then out_of_range else miss
in_ranges (lo ∷ hi ∷ ranges) cur = if leb lo cur && leb cur hi then hit else in_ranges ranges cur

module _ (env : Env) where
  -- `read`, then the rest of the caller; or the panic of `p.data[p.pt.offset:]` behind the input.
  abbrev pub read_if : Bool → Parser → (Parser → Outcome) → Outcome
  read_if true p k = k (read env p)
  read_if false p k =
      let offset = (next_savepoint env p.input p.pt).position.offset in
      panicked env.slice_panic
        (record p { pt = record p.pt { position = record p.pt.position { offset = offset } } })

  abbrev pub reading : Parser → (Parser → Outcome) → Outcome
  reading p k = read_if (leb (next_savepoint env p.input p.pt).position.offset (length p.input)) p k

  unfoldable pub in_classes : List ℕ → ℕ → Bool
  in_classes [] cur = false
  in_classes (cl ∷ classes) cur = if env.unicode_is cl cur then true else in_classes classes cur

  -- The three loops of `parseCharClassMatcher` in their order.
  unfoldable pub in_class : CharClassMatcher → ℕ → Found
  unfolding in_chars in_ranges in_classes
  in_class chr cur = if in_chars chr.chars cur then hit else elim (in_ranges chr.ranges cur) [
    | hit ↦ hit
    | out_of_range ↦ out_of_range
    | miss ↦ if in_classes chr.classes cur then hit else miss
  ]

  unfoldable pub parse_any_matcher : Parser → Outcome
  parse_any_matcher p =
      let matched = reading p (λ p'. ended (str (env.encode_rune p'.pt.rn)) true p') in
      if p.pt.rn == rune_error then ended nil false p else matched

  -- The rune that a class looks at.
  unfoldable pub folded : Bool → ℕ → ℕ
  folded ignore_case rn = if ignore_case then env.to_lower rn else rn

  -- What a class does once the loops have ended.
  unfoldable pub class_result : Bool → ℕ → Found → Parser → Outcome
  class_result inverted cur hit p =
      let matched = reading p (λ p'. ended (str (env.encode_rune cur)) true p') in
      if inverted then ended nil false p else matched
  class_result inverted cur miss p =
      let matched = reading p (λ p'. ended (str (env.encode_rune cur)) true p') in
      if inverted then matched else ended nil false p
  class_result inverted cur out_of_range p = panicked env.index_panic p

  unfoldable pub parse_char_class_matcher : CharClassMatcher → Parser → Outcome
  unfolding in_class folded class_result
  parse_char_class_matcher chr p =
      let cur = folded chr.ignore_case p.pt.rn in class_result chr.inverted cur (in_class chr cur) p

  -- The loop of `parseLitMatcher`; `buf` holds what was met, `pt` the place to go back to.
  unfoldable pub lit_loop : Bool → Savepoint → List ℕ → Text → Parser → Outcome
  unfolding folded restore
  lit_loop ignore_case pt [] buf p = ended (str buf) true p
  lit_loop ignore_case pt (want ∷ wants) buf p =
      let onward =
        reading p (λ p'. lit_loop ignore_case pt wants (buf ++ env.encode_rune p.pt.rn) p') in
      if folded ignore_case p.pt.rn == want then onward else ended nil false (restore pt p)

  unfoldable pub parse_lit_matcher : LitMatcher → Parser → Outcome
  unfolding lit_loop save
  parse_lit_matcher lit p = lit_loop lit.ignore_case (save p) lit.val [] p
