-- ===== src/Lexer/Samples.antt =====
-- parser/lexer: the theorems at concrete sources.
use exp.Base.{ℕ, ◌≡◌, refl, true, false, none, some, List, [], ◌∷◌, ◌++◌, Text, codes, arith}
use exp.Lexer.Scan.{Rune, Lexer, eof_error, init, next, back, skip_while, skip_until}
use exp.Lexer.Run.{running, returns_nil, run}
use exp.Lexer.Json.{Missing, start_value, apply}
use exp.Lexer.Json.Endless.{run-running}
use exp.Lexer.Scan.Positions.{nexts, nexts-position}
use exp.Lexer.Scan.Unread.{back-loses_rune}
use exp.Lexer.Scan.Skips.{StopsAt, skip_while-StopsAt, skip_until-StopsAt}
use exp.Lexer.Predicates.{eq_predicate, is_go_whitespace}

-- A rune is written as its code, and -1 as U+FFFD.
abbrev encode : Rune → Text
encode none = 0xFFFD ∷ []
encode (some r) = r ∷ []

-- Two lines: "a", a carriage return and a line break, "bc".
abbrev lines : List (ℕ × ℕ)
lines = (97, 1) ∷ (13, 1) ∷ (10, 1) ∷ (98, 1) ∷ (99, 1) ∷ []

abbrev start : Lexer
start = init (codes "f") lines eof_error

nexts-position_example :
    ((nexts encode lines start).source ≡ [])
    × ((nexts encode lines start).cpos.line ≡ 2)
    × ((nexts encode lines start).cpos.col ≡ 2)
    × ((nexts encode lines start).cpos.read_off ≡ 5)
unfolding init
nexts-position_example = nexts-position encode lines [] start refl refl

-- The lexer behind the first rune.
abbrev behind_a : Lexer
behind_a = (next encode start).0

back-loses_rune_example :
    (l' : Lexer) × (back encode (next encode behind_a).0 ≡ some l')
    × (l'.cur ≡ behind_a.cur)
    × (l'.cpos ≡ behind_a.cpos)
    × ((next encode l').0.cur ≡ some 10)
unfolding init next
back-loses_rune_example =
    back-loses_rune encode 97 13 1 10 1 ((98, 1) ∷ (99, 1) ∷ []) behind_a refl refl refl refl

skip_while-StopsAt_example :
    StopsAt encode is_go_whitespace false (skip_while encode 6 is_go_whitespace start)
unfolding init
skip_while-StopsAt_example = skip_while-StopsAt encode 6 is_go_whitespace start (omega arith)

skip_until-StopsAt_example :
    StopsAt encode (eq_predicate 98) true (skip_until encode 6 (eq_predicate 98) start)
unfolding init
skip_until-StopsAt_example = skip_until-StopsAt encode 6 (eq_predicate 98) start (omega arith)

-- A lexer for JSON, on the text `{}`.
abbrev missing : Missing
missing = record {
  encode = encode;
  rune_string = encode;
  expected = λ r. codes "expected " ++ r ∷ [];
  scan_string = returns_nil;
}

run-running_example :
    run (apply missing) 100 start_value (init (codes "f") ((123, 1) ∷ (125, 1) ∷ []) eof_error)
    ≡ running
run-running_example = run-running missing 100 (codes "f") ((123, 1) ∷ (125, 1) ∷ []) eof_error
