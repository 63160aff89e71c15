-- ===== src/Lexer/Json.antt =====
-- parser/lexer/json/json.go: the state functions of a lexer for JSON.
pub mod Endless
use exp.Base.{
  ℕ, suc, Bool, true, false, Option, none, some, List, [], ◌∷◌, ◌++◌, Text, codes, ℤ, pos, length,
  ◌==◌, if◌then◌else◌,
}
use exp.Lexer.Scan.{
  Rune, Lexer, Looped, stopped, out_of_fuel, start_token, expect, emit, skip_while,
}
use exp.Lexer.Predicates.{is_go_whitespace}
use exp.Lexer.Run.{
  Machine, Called, goes_to, returns_nil, unfinished, push, invalid_token, lit_of, errorf,
}

-- `StartObject`, `EndObject`, `True`, `False` and `Null`.
abbrev pub start_object_token : ℤ
start_object_token = pos 0

abbrev pub end_object_token : ℤ
end_object_token = pos 1

abbrev pub true_token : ℤ
true_token = pos 8

abbrev pub false_token : ℤ
false_token = pos 9

abbrev pub null_token : ℤ
null_token = pos 10

-- The state functions; `scan_string` is named in the code and defined nowhere.
pub data State : Type 0 where
  start_value start_object key_or_end_object scan_string : State

-- The text that `WriteRune` writes, `string(r)`, the message of `Expect`, and `scan_string`.
pub record Missing : Type 0 where
  pub encode : Rune → Text
  pub rune_string : Rune → Text
  pub expected : ℕ → Text
  pub scan_string : Machine State → Called State

module _ (missing : Missing) where
  -- `scanTrue`, `scanFalse` and `scanNull`, by the rest of the word and its token.
  abbrev pub scan_word : Text → ℤ → Lexer → Lexer × ℤ × Text
  scan_word rest token l =
      let (l', ok) = expect missing.encode rest missing.expected (start_token missing.encode l) in
      (l', (if ok then token else invalid_token), lit_of l')

  abbrev pub emit_scanned : Lexer × ℤ × Text → Lexer
  emit_scanned (l, token, lit) = emit token lit l

  -- A rune that no case has.
  abbrev pub emit_invalid : Lexer → Lexer
  emit_invalid l =
      emit invalid_token (missing.rune_string l.cur)
        (errorf (codes "invalid value: " ++ missing.rune_string l.cur) l)

  -- The switch of `startValue` on a rune; -1 is in no case.
  abbrev pub value_of_rune : Rune → Machine State → Called State
  value_of_rune none m = goes_to start_value (record m { lexer = emit_invalid m.lexer })
  value_of_rune (some r) m =
      if r == 123
      then goes_to start_object (record m { stack = start_object ∷ m.stack })
      else if r == 116
      then goes_to start_value
          (record m { lexer = emit_scanned (scan_word (codes "rue") true_token m.lexer) })
      else if r == 102
      then goes_to start_value
          (record m { lexer = emit_scanned (scan_word (codes "alse") false_token m.lexer) })
      else if r == 110
      then goes_to start_value
          (record m { lexer = emit_scanned (scan_word (codes "ull") null_token m.lexer) })
      else goes_to start_value (record m { lexer = emit_invalid m.lexer })

  -- The switch of `keyOrEndObject`.
  abbrev pub key_of_rune : Rune → Machine State → Called State
  key_of_rune none m = goes_to key_or_end_object (record m { lexer = emit_invalid m.lexer })
  key_of_rune (some r) m =
      if r == 125
      then returns_nil (record m { lexer = emit end_object_token (codes "}") m.lexer })
      else if r == 34
      then goes_to scan_string m
      else goes_to key_or_end_object (record m { lexer = emit_invalid m.lexer })

  -- The switch of a state function, behind the white space.
  abbrev pub behind_space :
      (Rune → Machine State → Called State) → Machine State → Looped missing.encode → Called State
  behind_space switch m (stopped l true) = switch l.cur (record m { lexer = l })
  behind_space switch m (stopped l false) = returns_nil (record m { lexer = l })
  behind_space switch m out_of_fuel = unfinished

  -- The runes that are left and two are enough fuel to skip white space.
  abbrev pub skipped : Lexer → Looped missing.encode
  skipped l = skip_while missing.encode (suc (suc (length l.source))) is_go_whitespace l

  unfoldable pub apply : State → Machine State → Called State
  apply start_value m = behind_space value_of_rune m (skipped m.lexer)
  apply start_object m =
      goes_to key_or_end_object (record m { lexer = emit start_object_token (codes "{") m.lexer })
  apply key_or_end_object m = behind_space key_of_rune m (skipped m.lexer)
  apply scan_string m = missing.scan_string m
