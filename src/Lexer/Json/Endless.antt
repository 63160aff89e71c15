-- ===== src/Lexer/Json/Endless.antt =====
-- parser/lexer/json/json.go: the lexer for JSON does not end.
use exp.Base.{ℕ, zero, suc, ◌≡◌, refl, none, some, List, [], Text, true}
use exp.Lexer.Scan.{Lexer, Ending, init, emit, skip_while, stopped}
use exp.Lexer.Predicates.{is_go_whitespace}
use exp.Lexer.Run.{Machine, running, run_loop, run}
use exp.Lexer.Json.{Missing, State, start_value, apply, emit_invalid, skipped}

module _ (missing : Missing) where
  no_space : (l : Lexer) → l.cur ≡ none → skipped missing l ≡ stopped l true
  unfolding skip_while is_go_whitespace
  no_space l e = rw e refl

  -- On -1, `startValue` emits `Invalid` and returns itself, with the same rune.
  stuck :
      (f : ℕ) (m : Machine State)
      → m.lexer.cur ≡ none
      → run_loop (apply missing) f (some start_value) m ≡ running
  unfolding run_loop apply skip_while is_go_whitespace emit
  stuck zero m e = refl
  stuck (suc f) m e =
      let l : Lexer = record m.lexer { cur = none } in
      let m' : Machine State = record m { lexer = emit_invalid missing l } in
      rw (no_space m.lexer e, e) (stuck f m' refl)

  -- The lexer for JSON never ends, whatever the text and however it ends, and however long it runs: it
  -- starts on the rune -1, which is no white space, and `startValue` emits `Invalid` for it and returns
  -- itself without reading.
  pub run-running :
      (f : ℕ) (name : Text) (source : List (ℕ × ℕ)) (ending : Ending)
      → run (apply missing) f start_value (init name source ending) ≡ running
  unfolding run init run_loop apply skip_while is_go_whitespace emit
  run-running zero name source ending = refl
  run-running (suc f) name source ending =
      stuck (suc f) (record { lexer = init name source ending; stack = [] }) refl
